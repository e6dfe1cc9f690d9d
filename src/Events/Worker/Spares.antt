-- ===== src/Events/Worker/Spares.antt =====
-- Actions of a worker that leave the rows of a portfolio alone, whatever the database does.
use real_time_portfolio_risk.Prelude.{nat_eq, ◌≡◌, sym, Bool, true, false, inl, inr, if◌then◌else◌}
use real_time_portfolio_risk.Clock.{Uuid}
use mathlib.Core.Path.{subst}
use real_time_portfolio_risk.Events.Verdict.{Verdict-cases}
use real_time_portfolio_risk.Events.Store.{Tables}
use real_time_portfolio_risk.Events.Store.Untouched.{
  IsUntouched, IsUntouched-refl, IsUntouched-trans,
}
use real_time_portfolio_risk.Events.Worker.Monad.{
  State, Action, Result, next_verdict, ok, err, and_then, ◌>>=◌, query, transact,
}

module _ {D : Type 0} where
  -- An action that does not touch the rows of `j`, whatever the database does.
  pub record Spares {A : Type 0} (j : Uuid) (m : Action D A) : Type 0 where
    pub spares : (s : State D) → IsUntouched j s.tables (m s).1.tables

  after_and_then :
      {A B : Type 0} (j : Uuid) (f : A → Action D B) (t : Tables D) (out : Result A × State D)
      → IsUntouched j t out.1.tables
      → ((a : A) → Spares j (f a))
      → IsUntouched j t (and_then f out).1.tables
  after_and_then j f t (ok a, s) h k = IsUntouched-trans j t s.tables _ h ((k a).spares s)
  after_and_then j f t (err e, s) h k = h

  pub Spares-bind :
      {A B : Type 0} (j : Uuid) (m : Action D A) (f : A → Action D B)
      → Spares j m
      → ((a : A) → Spares j (f a))
      → Spares j (m >>= f)
  Spares-bind j m f h k = record { spares = λ s. after_and_then j f s.tables (m s) (h.spares s) k }

  pub Spares-query : {A : Type 0} (j : Uuid) (f : Tables D → A) → Spares j (query f)
  unfolding query
  Spares-query j f = record {
    spares = λ s. elim (Verdict-cases (next_verdict s.verdicts)) [
      | inl e ↦ rw (query, e) (IsUntouched-refl j s.tables)
      | inr (inl e) ↦ rw (query, e) (IsUntouched-refl j s.tables)
      | inr (inr e) ↦ rw (query, e) (IsUntouched-refl j s.tables)
    ];
  }

  pub Spares-transact :
      (j : Uuid) (f : Tables D → Tables D)
      → ((t : Tables D) → IsUntouched j t (f t))
      → Spares j (transact f)
  unfolding transact
  Spares-transact j f h = record {
    spares = λ s. elim (Verdict-cases (next_verdict s.verdicts)) [
      | inl e ↦ rw (transact, e) (h s.tables)
      | inr (inl e) ↦ rw (transact, e) (IsUntouched-refl j s.tables)
      | inr (inr e) ↦ rw (transact, e) (h s.tables)
    ];
  }

  -- An action that leaves the tables alone.
  pub Spares-same :
      {A : Type 0} (j : Uuid) (m : Action D A)
      → ((s : State D) → (m s).1.tables ≡ s.tables)
      → Spares j m
  Spares-same j m same = record {
    spares = λ s. subst (IsUntouched j s.tables) (sym (same s)) (IsUntouched-refl j s.tables);
  }

  pub Spares-if :
      {A : Type 0} (j : Uuid) (b : Bool) (m n : Action D A)
      → Spares j m
      → Spares j n
      → Spares j (if b then m else n)
  Spares-if j true m n h k = h
  Spares-if j false m n h k = k
