-- ===== src/Decimal.antt =====
-- `github.com/shopspring/decimal`, which the program uses for every quantity, price and amount and
-- which is not part of the repository. `D` is the type of the numeric values: the methods that the
-- program calls depend on the value alone, `Equal` is equality of values, and `String` drops
-- trailing zeros. The operations are an instance argument and what is documented of them is a
-- record of laws. `Decimal.Integers` shows that the laws can be met.
pub mod Defs
pub mod Ring
pub mod Order
pub mod Integers
pub use Defs.*
