-- ===== src/Decimal/Integers/Laws.antt =====
-- The instance and its laws. Printing is the decimal notation of the program's tests, as a list
-- with one byte for the sign and one for each unit.
use real_time_portfolio_risk.Prelude.{
  ℕ, zero, suc, ◌/◌, ◌≡◌, refl, ap, ◌⊎◌, inl, inr, true, false, Option, none, some, [], ◌∷◌, arith,
  nat_beq, if◌then◌else◌, Str, length,
}
use real_time_portfolio_risk.Decimal.Defs.{Decimal, IsDecimal}
use real_time_portfolio_risk.Prelude.Int.{
  ℤ, pos, negsuc, pos_part, neg_part, sub_ℕ, ◌+ℤ◌, ◌-ℤ◌, ◌*ℤ◌, ltb_ℤ, beq_ℤ, div_ℤ, int_laws,
  +ℤ_parts, *ℤ_comm, *ℤ-+ℤ, *ℤ_assoc, pos-*ℤ-pos, eq_of_parts,
}

-- A numeral in base one after a sign byte.
abbrev units : ℕ → Str
units zero = []
units (suc n) = b'1' ∷ units n

abbrev print : ℤ → Str
print (pos n) = b'+' ∷ units n
print (negsuc n) = b'-' ∷ units n

abbrev parse : Str → Option ℤ
parse [] = none
parse (c ∷ s) =
    if nat_beq c b'+'
    then some (pos (length s))
    else if nat_beq c b'-'
    then some (negsuc (length s))
    else none

length-units : (n : ℕ) → length (units n) ≡ n
length-units zero = refl
length-units (suc n) = ap suc (length-units n)

parse-print : (a : ℤ) → parse (print a) ≡ some a
parse-print (pos n) = ap (λ k. some (pos k)) (length-units n)
parse-print (negsuc n) = ap (λ k. some (negsuc k)) (length-units n)

instance abbrev pub integers : Decimal ℤ
integers = record {
  nought = pos 0;
  one = pos 1;
  add = ◌+ℤ◌;
  sub = ◌-ℤ◌;
  mul = ◌*ℤ◌;
  div = div_ℤ;
  abs = λ a. if ltb_ℤ a (pos 0) then pos 0 -ℤ a else a;
  less_than = ltb_ℤ;
  greater_than = λ a b. ltb_ℤ b a;
  equal = beq_ℤ;
  is_zero = λ a. beq_ℤ a (pos 0);
  is_positive = λ a. ltb_ℤ (pos 0) a;
  to_string = print;
  string_fixed = print;
  from_string = parse;
  round = λ a. a;
  round_to_ten = λ a. a;
}

div_ℤ_total : (a b : ℤ) → (b ≡ pos 0) ⊎ ((q : ℤ) × (div_ℤ a b ≡ some q))
unfolding div_ℤ
div_ℤ_total a (pos zero) = inl refl
div_ℤ_total a (pos (suc n)) = inr (sub_ℕ (pos_part a / suc n) (neg_part a / suc n), ground arith)
div_ℤ_total a (negsuc n) = inr (sub_ℕ (neg_part a / suc n) (pos_part a / suc n), refl)

div_ℤ-nonneg :
    (a b q : ℤ)
    → ltb_ℤ a (pos 0) ≡ false
    → ltb_ℤ (pos 0) b ≡ true
    → div_ℤ a b ≡ some q
    → ltb_ℤ q (pos 0) ≡ false
unfolding div_ℤ
div_ℤ-nonneg (pos m) (pos n) q h k e = ground arith
div_ℤ-nonneg (pos m) (negsuc n) q h k e = ground arith
div_ℤ-nonneg (negsuc m) b q h k e = ground arith

div_ℤ-le-one :
    (a b q : ℤ)
    → ltb_ℤ b a ≡ false
    → ltb_ℤ (pos 0) b ≡ true
    → div_ℤ a b ≡ some q
    → ltb_ℤ (pos 1) q ≡ false
unfolding div_ℤ
div_ℤ-le-one (pos m) (pos n) q h k e = grind arith
div_ℤ-le-one (negsuc m) (pos n) q h k e = grind arith
div_ℤ-le-one a (negsuc n) q h k e = ground arith

pub Integers-IsDecimal : IsDecimal ℤ
unfolding div_ℤ
Integers-IsDecimal = record {
  add_comm = λ a b. omega int_laws;
  add_assoc = λ a b c. omega int_laws;
  add-nought = λ a. omega int_laws;
  sub-add = λ a b. omega int_laws;
  mul_comm = *ℤ_comm;
  mul_assoc = *ℤ_assoc;
  mul-one = λ a. omega int_laws;
  mul-add = *ℤ-+ℤ;
  lt_irrefl = λ a. ground arith;
  lt_trans = λ a b c h k. ground arith;
  lt_total = λ a b. ground (arith, eq_of_parts a b);
  lt-add = λ a b c h. ground (arith, +ℤ_parts a c, +ℤ_parts b c);
  lt-mul = pos-*ℤ-pos;
  nought-lt-one = refl;
  greater_than-eq = λ a b. refl;
  equal_iff = λ a b. ground (arith, eq_of_parts a b);
  is_zero_iff = λ a. ground (arith, eq_of_parts a (pos 0));
  is_positive-eq = λ a. refl;
  abs-eq = λ a. refl;
  div-nought = λ a. refl;
  div_total = div_ℤ_total;
  div-nonneg = div_ℤ-nonneg;
  div-le-one = div_ℤ-le-one;
  from_string-fixed = parse-print;
  round_idem = λ a. refl;
  round-nought = refl;
  round-nonneg = λ a h. h;
}
