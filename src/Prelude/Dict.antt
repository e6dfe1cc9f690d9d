-- ===== src/Prelude/Dict.antt =====
-- Go's `map[K]V` as an association list; the order of the entries is the order in which a `range`
-- loop visits them, which Go leaves open.
use mathlib.Core.Path.{◌≡◌, refl}
use mathlib.Core.Option.{Option, none, some}
use mathlib.Core.Logic.{inl, inr}
use mathlib.Core.List.{List, [], ◌∷◌}
use native.Mathlib.Omega.{arith}
use real_time_portfolio_risk.Prelude.Tests.{if◌then◌else◌, Bool-cases}
use real_time_portfolio_risk.Prelude.Lists.{All, get_or_else}
use real_time_portfolio_risk.Prelude.Eq.{Comparable, ◌==◌, ==_iff, ==_refl}

abbrev pub Dict {ℓ κ} : Type ℓ → Type κ → Type (ℓ ⊔ κ)
Dict K V = List (K × V)

module _ {ℓ κ} {K : Type ℓ} {V : Type κ} ⦃e : Comparable K⦄ where
  -- `v, ok := m[k]`
  unfoldable pub lookup : K → Dict K V → Option V
  lookup wanted ((key, value) ∷ rest) = if key == wanted then some value else lookup wanted rest
  lookup wanted [] = none

  -- `m[k] = v`, in place where the key is there.
  unfoldable pub insert : K → V → Dict K V → Dict K V
  insert key new ((at, old) ∷ rest) =
      if at == key then (key, new) ∷ rest else (at, old) ∷ insert key new rest
  insert key new [] = (key, new) ∷ []

  -- `delete(m, k)`
  unfoldable pub erase : K → Dict K V → Dict K V
  erase key ((at, old) ∷ rest) = if at == key then erase key rest else (at, old) ∷ erase key rest
  erase key [] = []

  -- Reading after a write.
  pub lookup-insert :
      (key wanted : K) (new : V) (dict : Dict K V)
      → lookup wanted (insert key new dict)
        ≡ (if key == wanted then some new else lookup wanted dict)
  unfolding lookup insert
  lookup-insert key wanted new ((at, old) ∷ rest) =
      ground (
        ==_iff at key,
        ==_iff at wanted,
        ==_iff key wanted,
        lookup-insert key wanted new rest,
        arith,
      )
  lookup-insert key wanted new [] = refl

  -- Reading after a deletion.
  pub lookup-erase :
      (key wanted : K) (dict : Dict K V)
      → lookup wanted (erase key dict) ≡ (if key == wanted then none else lookup wanted dict)
  unfolding lookup erase
  lookup-erase key wanted ((at, old) ∷ rest) =
      ground
        (==_iff at key, ==_iff at wanted, ==_iff key wanted, lookup-erase key wanted rest, arith)
  lookup-erase key wanted [] = ground arith

  pub lookup-insert_self :
      (key : K) (new : V) (dict : Dict K V) → lookup key (insert key new dict) ≡ some new
  lookup-insert_self key new dict = simp (==_refl, lookup-insert)

  pub lookup-erase_self : (key : K) (dict : Dict K V) → lookup key (erase key dict) ≡ none
  lookup-erase_self key dict = simp (==_refl, lookup-erase)

  -- What holds of every value still holds after a write of such a value.
  pub All-insert {μ} :
      (P : V → Type μ) (key : K) (new : V) (dict : Dict K V)
      → P new
      → All (λ entry. P entry.1) dict
      → All (λ entry. P entry.1) (insert key new dict)
  unfolding insert
  All-insert P key new [] p ps = (p, tt)
  All-insert P key new ((at, old) ∷ rest) p (q, ps) = elim (Bool-cases (at == key)) [
    | inl e ↦ rw e (p, ps)
    | inr e ↦ rw e (q, All-insert P key new rest p ps)
  ]

  pub All-lookup {μ} :
      (P : V → Type μ) (key : K) (dict : Dict K V) (other : V)
      → P other
      → All (λ entry. P entry.1) dict
      → P (get_or_else (lookup key dict) other)
  unfolding lookup
  All-lookup P key [] other p ps = p
  All-lookup P key ((at, old) ∷ rest) other p (q, ps) = elim (Bool-cases (at == key)) [
    | inl e ↦ rw e q
    | inr e ↦ rw e (All-lookup P key rest other p ps)
  ]
