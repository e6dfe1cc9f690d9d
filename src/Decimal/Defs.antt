-- ===== src/Decimal/Defs.antt =====
-- The operations of `decimal.Decimal` that the program calls, and their documented laws.
use real_time_portfolio_risk.Prelude.{
  Str, ◌≡◌, ◌⊎◌, ◌↔◌, Bool, true, false, Option, none, some, if◌then◌else◌,
}

pub record Decimal (D : Type 0) : Type 0 where
  pub nought : D
  pub one : D
  pub add : D → D → D
  pub sub : D → D → D
  pub mul : D → D → D
  -- `none` is the panic of `Div` by zero.
  pub div : D → D → Option D
  pub abs : D → D
  pub less_than : D → D → Bool
  pub greater_than : D → D → Bool
  pub equal : D → D → Bool
  pub is_zero : D → Bool
  pub is_positive : D → Bool
  -- `String`, `StringFixed(8)` and `NewFromString` (`none` is its error).
  pub to_string : D → Str
  pub string_fixed : D → Str
  pub from_string : Str → Option D
  -- The nearest value with eight decimal places, which `StringFixed(8)` prints and PostgreSQL's
  -- `ROUND(x::numeric, 8)` stores.
  pub round : D → D
  -- The nearest value with ten places, as `ROUND(x::numeric, 10)` stores it.
  pub round_to_ten : D → D

-- `a` is at most `b`.
infix 4 ◌≼◌
abbrev pub ◌≼◌ : {D : Type 0} ⦃d : Decimal D⦄ → D → D → Type 0
◌≼◌ ⦃d⦄ a b = d.less_than b a ≡ false

infix 4 ◌≺◌
abbrev pub ◌≺◌ : {D : Type 0} ⦃d : Decimal D⦄ → D → D → Type 0
◌≺◌ ⦃d⦄ a b = d.less_than a b ≡ true

-- Addition, subtraction and multiplication are exact, the order is the numeric one, and a quotient
-- is rounded to the nearest value with sixteen places, so it keeps its sign and its side of one.
pub record IsDecimal (D : Type 0) ⦃d : Decimal D⦄ : Type 0 where
  pub add_comm : (a b : D) → d.add a b ≡ d.add b a
  pub add_assoc : (a b c : D) → d.add (d.add a b) c ≡ d.add a (d.add b c)
  pub add-nought : (a : D) → d.add a d.nought ≡ a
  pub sub-add : (a b : D) → d.add (d.sub a b) b ≡ a
  pub mul_comm : (a b : D) → d.mul a b ≡ d.mul b a
  pub mul_assoc : (a b c : D) → d.mul (d.mul a b) c ≡ d.mul a (d.mul b c)
  pub mul-one : (a : D) → d.mul a d.one ≡ a
  pub mul-add : (a b c : D) → d.mul a (d.add b c) ≡ d.add (d.mul a b) (d.mul a c)
  pub lt_irrefl : (a : D) → a ≼ a
  pub lt_trans : (a b c : D) → a ≺ b → b ≺ c → a ≺ c
  pub lt_total : (a b : D) → (a ≺ b) ⊎ (a ≡ b) ⊎ (b ≺ a)
  pub lt-add : (a b c : D) → a ≺ b → d.add a c ≺ d.add b c
  pub lt-mul : (a b : D) → d.nought ≺ a → d.nought ≺ b → d.nought ≺ d.mul a b
  pub nought-lt-one : d.nought ≺ d.one
  pub greater_than-eq : (a b : D) → d.greater_than a b ≡ d.less_than b a
  pub equal_iff : (a b : D) → (d.equal a b ≡ true) ↔ (a ≡ b)
  pub is_zero_iff : (a : D) → (d.is_zero a ≡ true) ↔ (a ≡ d.nought)
  pub is_positive-eq : (a : D) → d.is_positive a ≡ d.less_than d.nought a
  pub abs-eq : (a : D) → d.abs a ≡ (if d.less_than a d.nought then d.sub d.nought a else a)
  pub div-nought : (a : D) → d.div a d.nought ≡ none
  pub div_total : (a b : D) → (b ≡ d.nought) ⊎ ((q : D) × (d.div a b ≡ some q))
  pub div-nonneg : (a b q : D) → d.nought ≼ a → d.nought ≺ b → d.div a b ≡ some q → d.nought ≼ q
  pub div-le-one : (a b q : D) → a ≼ b → d.nought ≺ b → d.div a b ≡ some q → q ≼ d.one
  -- Printing eight places and parsing gives the rounded value, which is stable.
  pub from_string-fixed : (a : D) → d.from_string (d.string_fixed a) ≡ some (d.round a)
  pub round_idem : (a : D) → d.round (d.round a) ≡ d.round a
  pub round-nought : d.round d.nought ≡ d.nought
  pub round-nonneg : (a : D) → d.nought ≼ a → d.nought ≼ d.round a
