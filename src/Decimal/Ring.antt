-- ===== src/Decimal/Ring.antt =====
-- Consequences of the laws of addition, subtraction and multiplication.
use real_time_portfolio_risk.Prelude.{◌≡◌, sym, ap, ◌∙◌}
use mathlib.Core.Path.{◌≡⟨◌⟩◌, ◌∎}
use real_time_portfolio_risk.Decimal.Defs.{Decimal, IsDecimal}

module _ {D : Type 0} ⦃d : Decimal D⦄ (laws : IsDecimal D) where
  open d use {nought, one, add, sub, mul}
  open laws use {add_comm, add_assoc, add-nought, sub-add, mul_comm, mul_assoc, mul-one, mul-add}

  pub nought-add : (a : D) → add nought a ≡ a
  nought-add a = add_comm nought a ∙ add-nought a

  pub add_left_comm : (a b c : D) → add a (add b c) ≡ add b (add a c)
  add_left_comm a b c = rw (← add_assoc a b c, add_comm a b, add_assoc b a c)

  -- What is added on the right can be taken off again.
  pub add-sub : (a b : D) → sub (add a b) b ≡ a
  add-sub a b =
      sub (add a b) b
      ≡⟨ sym (add-nought _) ⟩ add (sub (add a b) b) nought
      ≡⟨ ap (add (sub (add a b) b)) (sym (sub-add nought b) ∙ add_comm _ _) ⟩
        add (sub (add a b) b) (add b (sub nought b))
      ≡⟨ sym (add_assoc _ _ _) ⟩ add (add (sub (add a b) b) b) (sub nought b)
      ≡⟨ ap (λ x. add x (sub nought b)) (sub-add _ _) ⟩ add (add a b) (sub nought b)
      ≡⟨ add_assoc _ _ _ ⟩ add a (add b (sub nought b))
      ≡⟨ ap (add a) (add_comm _ _ ∙ sub-add nought b) ⟩ add a nought
      ≡⟨ add-nought a ⟩ a ∎

  pub add_cancel : (a b c : D) → add a c ≡ add b c → a ≡ b
  add_cancel a b c e = sym (add-sub a c) ∙ ap (λ x. sub x c) e ∙ add-sub b c

  pub sub_self : (a : D) → sub a a ≡ nought
  sub_self a = add_cancel _ _ a (sub-add a a ∙ sym (nought-add a))

  pub sub-nought : (a : D) → sub a nought ≡ a
  sub-nought a = sym (add-nought _) ∙ sub-add a nought

  pub sub_eq : (a b c : D) → add c b ≡ a → sub a b ≡ c
  sub_eq a b c e = ap (λ x. sub x b) (sym e) ∙ add-sub c b

  pub add-mul : (a b c : D) → mul (add a b) c ≡ add (mul a c) (mul b c)
  add-mul a b c = rw (mul_comm (add a b) c, mul-add c a b, mul_comm c a, mul_comm c b)

  pub mul-nought : (a : D) → mul a nought ≡ nought
  mul-nought a =
      add_cancel _ _ (mul a nought)
        (sym (mul-add a nought nought) ∙ ap (mul a) (add-nought nought) ∙ sym (nought-add _))

  pub nought-mul : (a : D) → mul nought a ≡ nought
  nought-mul a = mul_comm nought a ∙ mul-nought a

  pub sub-mul : (a b c : D) → mul (sub a b) c ≡ sub (mul a c) (mul b c)
  sub-mul a b c = sym (sub_eq _ _ _ (sym (add-mul (sub a b) b c) ∙ ap (λ x. mul x c) (sub-add a b)))

  -- Two sums side by side.
  pub add_swap : (a b c e : D) → add (add a b) (add c e) ≡ add (add a c) (add b e)
  add_swap a b c e =
      add_assoc a b (add c e) ∙ ap (add a) (add_left_comm b c e) ∙ sym (add_assoc a c (add b e))

  pub add_right_comm : (a b c : D) → add (add a b) c ≡ add (add a c) b
  add_right_comm a b c = add_assoc a b c ∙ ap (add a) (add_comm b c) ∙ sym (add_assoc a c b)
