-- ===== src/Decimal/Order.antt =====
-- Consequences of the laws of the order.
use real_time_portfolio_risk.Prelude.{◌≡◌, refl, ◌⊎◌, inl, inr, true, arith, Bool-cases, some}
use real_time_portfolio_risk.Decimal.Defs.{Decimal, IsDecimal, ◌≼◌, ◌≺◌}
use real_time_portfolio_risk.Decimal.Ring

module _ {D : Type 0} ⦃d : Decimal D⦄ (laws : IsDecimal D) where
  open d use {nought, one, add, sub, mul, div, abs, less_than, is_zero, is_positive}
  open laws use {
    add_comm, add-nought, sub-add, mul_comm, lt_irrefl, lt_trans, lt_total, lt-add, lt-mul,
    is_zero_iff, is_positive-eq, abs-eq, div-nought, div_total,
  }

  pub lt_asymm : (a b : D) → a ≺ b → a ≼ b
  lt_asymm a b h = ground (arith, lt_trans a b a h, lt_irrefl a)

  pub le_cases : (a b : D) → a ≼ b → (a ≺ b) ⊎ (a ≡ b)
  le_cases a b h = ground (arith, lt_total a b)

  pub lt-le_trans : (a b c : D) → a ≺ b → b ≼ c → a ≺ c
  lt-le_trans a b c h k = elim (le_cases b c k) [ inl s ↦ lt_trans a b c h s | inr e ↦ rw e at h ]

  pub le-lt_trans : (a b c : D) → a ≼ b → b ≺ c → a ≺ c
  le-lt_trans a b c h k = elim (le_cases a b h) [
    | inl s ↦ lt_trans a b c s k
    | inr e ↦ rw (← e) at k
  ]

  pub le_trans : (a b c : D) → a ≼ b → b ≼ c → a ≼ c
  le_trans a b c h k = elim (le_cases a b h) [
    | inl s ↦ lt_asymm a c (lt-le_trans a b c s k)
    | inr e ↦ rw e k
  ]

  pub le_antisymm : (a b : D) → a ≼ b → b ≼ a → a ≡ b
  le_antisymm a b h k = ground (arith, lt_total a b)

  pub le-add : (a b c : D) → a ≼ b → add a c ≼ add b c
  le-add a b c h = elim (le_cases a b h) [
    | inl s ↦ lt_asymm _ _ (lt-add a b c s)
    | inr e ↦ rw e (lt_irrefl _)
  ]

  pub add_nonneg : (a b : D) → nought ≼ a → nought ≼ b → nought ≼ add a b
  add_nonneg a b h k =
      le_trans nought b (add a b) k (rw (Ring.nought-add laws b) at (le-add nought a b h))

  pub add_pos : (a b : D) → nought ≼ a → nought ≺ b → nought ≺ add a b
  add_pos a b h k =
      lt-le_trans nought b (add a b) k (rw (Ring.nought-add laws b) at (le-add nought a b h))

  pub mul_nonneg : (a b : D) → nought ≼ a → nought ≼ b → nought ≼ mul a b
  mul_nonneg a b h k = elim (le_cases nought a h) [
    | inl s ↦ elim (le_cases nought b k) [
      | inl t ↦ lt_asymm _ _ (lt-mul a b s t)
      | inr e ↦ rw (← e, Ring.mul-nought laws a) (lt_irrefl nought)
    ]
    | inr e ↦ rw (← e, Ring.nought-mul laws b) (lt_irrefl nought)
  ]

  -- A difference is not negative when the first number is not the smaller one.
  pub sub_nonneg : (a b : D) → b ≼ a → nought ≼ sub a b
  sub_nonneg a b h = elim (lt_total nought (sub a b)) [
    | inl s ↦ lt_asymm _ _ s
    | inr (inl e) ↦ rw (← e) (lt_irrefl nought)
    | inr (inr s) ↦ ground (arith, Ring.nought-add laws b, sub-add a b, lt-add (sub a b) nought b s)
  ]

  pub abs_nonneg : (a : D) → nought ≼ abs a
  abs_nonneg a = elim (Bool-cases (less_than a nought)) [
    | inl s ↦ rw (abs-eq a, s) (sub_nonneg nought a (lt_asymm a nought s))
    | inr s ↦ rw (abs-eq a, s) s
  ]

  pub is_zero-nought : is_zero nought ≡ true
  is_zero-nought = (is_zero_iff nought).1 refl

  -- A positive divisor does not panic.
  pub div_some : (a b : D) → nought ≺ b → (q : D) × (div a b ≡ some q)
  div_some a b h = elim (div_total a b) [
    | inl e ↦ absurd (ground (arith, lt_irrefl nought))
    | inr r ↦ r
  ]
