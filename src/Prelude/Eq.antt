-- ===== src/Prelude/Eq.antt =====
-- Go's `==` on comparable types, as an instance argument.
use Prim.Native.Nat.{ℕ}
use mathlib.Core.Path.{◌≡◌, refl, subst}
use mathlib.Core.Logic.{◌↔◌}
use mathlib.Core.Bool.{Bool, true}
use real_time_portfolio_risk.Prelude.Tests.{nat_beq, nat_beq_iff}

-- The test finds equal values, and nothing else passes it.
pub record Comparable {κ} (K : Type κ) : Type κ where
  pub same : K → K → Bool
  pub same-sound : {x y : K} → same x y ≡ true → x ≡ y
  pub same-refl : (x : K) → same x x ≡ true

module _ {κ} {K : Type κ} ⦃eq : Comparable K⦄ where
  infix 50 ◌==◌
  abbrev pub ◌==◌ : K → K → Bool
  x == y = eq.same x y

  pub ==_refl : (x : K) → (x == x) ≡ true
  ==_refl = eq.same-refl

  pub ==_iff : (x y : K) → ((x == y) ≡ true) ↔ (x ≡ y)
  ==_iff x y = (eq.same-sound, λ e. subst (λ z. (x == z) ≡ true) e (eq.same-refl x))

instance abbrev pub nat_eq : Comparable ℕ
nat_eq = record {
  same = nat_beq;
  same-sound = λ h. (nat_beq_iff _ _).0 h;
  same-refl = λ x. (nat_beq_iff x x).1 refl;
}
