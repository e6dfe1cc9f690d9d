-- ===== src/Decimal/Integers.antt =====
-- The laws of `Decimal` can be met: the integers, where every value is whole. The tests of the
-- development run on this instance.
mod Laws
pub use Laws.{Integers-IsDecimal, integers}
