-- ===== src/Events/Worker/Pending.antt =====
-- The events that a worker has not reached, and that each of them brings it closer to the end.
use real_time_portfolio_risk.Prelude.{
  ℕ, ◌<◌, ◌≤◌, ◌≡◌, refl, text_eq, nat_eq, nat_beq, Bool, true, false, List, [], ◌∷◌, length, take,
  Bool-cases, inl, inr, ◌⊎◌, if◌then◌else◌, All, arith,
}
use real_time_portfolio_risk.Clock.{Uuid}
use real_time_portfolio_risk.Domain.Types.{EventEnvelope}
use real_time_portfolio_risk.Events.Cursor.{Cursor, cursor_from_event, is_zero_cursor, is_after}
use real_time_portfolio_risk.Events.Store.{Tables, fetch_all, fetch_after, select_after}
use real_time_portfolio_risk.Events.Worker.{last_of}

-- The event comes after the cursor; every event comes after the zero cursor.
abbrev pub awaits : Cursor → EventEnvelope → Bool
awaits c ev = if is_zero_cursor c then true else is_after c ev

unfoldable pub awaiting : Cursor → List EventEnvelope → List EventEnvelope
awaiting c [] = []
awaiting c (ev ∷ evs) = if awaits c ev then ev ∷ awaiting c evs else awaiting c evs

awaiting-eq :
    (c : Cursor) (evs : List EventEnvelope)
    → awaiting c evs ≡ (if is_zero_cursor c then evs else select_after c evs)
unfolding awaiting select_after
awaiting-eq c [] = ground arith
awaiting-eq c (ev ∷ evs) = ground (arith, awaiting-eq c evs)

pub fetch_after-eq :
    {D : Type 0} (pid : Uuid) (c : Cursor) (limit : ℕ) (t : Tables D)
    → 0 < limit
    → fetch_after pid c limit t ≡ take limit (awaiting c (fetch_all pid t))
unfolding fetch_after
fetch_after-eq pid c limit t h = rw (awaiting-eq c (fetch_all pid t), positive limit h) refl
  where
    positive : (n : ℕ) → 0 < n → nat_beq n 0 ≡ false
    positive n h = ground arith

-- One of the events.
abbrev pub Has : EventEnvelope → List EventEnvelope → Type 0
Has x [] = ⊥
Has x (ev ∷ evs) = (ev ≡ x) ⊎ Has x evs

-- The event is there and is still to come.
abbrev pub IsAwaited : Cursor → List EventEnvelope → EventEnvelope → Type 0
IsAwaited c all x = Has x all × (awaits c x ≡ true)

All-weaken {ℓ} :
    {A : Type 0} {P Q : A → Type ℓ} (xs : List A) → ((x : A) → P x → Q x) → All P xs → All Q xs
All-weaken [] f h = tt
All-weaken (x ∷ xs) f (h, hs) = (f x h, All-weaken xs f hs)

pub awaiting-IsAwaited :
    (c : Cursor) (evs : List EventEnvelope) → All (IsAwaited c evs) (awaiting c evs)
unfolding awaiting
awaiting-IsAwaited c [] = tt
awaiting-IsAwaited c (ev ∷ evs) =
    let rest = All-weaken (awaiting c evs) (λ x h. (inr h.0, h.1)) (awaiting-IsAwaited c evs) in
    elim (Bool-cases (awaits c ev)) [ inl e ↦ rw e ((inl refl, e), rest) | inr e ↦ rw e rest ]

pub All-last_of {ℓ} :
    (P : EventEnvelope → Type ℓ) (ev : EventEnvelope) (evs : List EventEnvelope)
    → All P (ev ∷ evs)
    → P (last_of ev evs)
All-last_of P ev [] (h, hs) = h
All-last_of P ev (ev' ∷ evs) (h, hs) = All-last_of P ev' evs hs

-- What comes after an awaited event was awaited.
awaits_trans :
    (c : Cursor) (x ev : EventEnvelope)
    → is_zero_cursor (cursor_from_event x) ≡ false
    → awaits c x ≡ true
    → awaits (cursor_from_event x) ev ≡ true
    → awaits c ev ≡ true
unfolding is_after is_zero_cursor cursor_from_event
awaits_trans c x ev nz h k = ground arith

not_awaits_self :
    (x : EventEnvelope)
    → is_zero_cursor (cursor_from_event x) ≡ false
    → awaits (cursor_from_event x) x ≡ false
unfolding is_after is_zero_cursor cursor_from_event
not_awaits_self x nz = ground arith

awaiting_le :
    (c : Cursor) (x : EventEnvelope) (evs : List EventEnvelope)
    → is_zero_cursor (cursor_from_event x) ≡ false
    → awaits c x ≡ true
    → length (awaiting (cursor_from_event x) evs) ≤ length (awaiting c evs)
unfolding awaiting
awaiting_le c x [] nz h = omega arith
awaiting_le c x (ev ∷ evs) nz h = ground (arith, awaiting_le c x evs nz h, awaits_trans c x ev nz h)

-- A cursor that has moved to an awaited event leaves fewer.
pub awaiting_lt :
    (c : Cursor) (x : EventEnvelope) (evs : List EventEnvelope)
    → is_zero_cursor (cursor_from_event x) ≡ false
    → IsAwaited c evs x
    → length (awaiting (cursor_from_event x) evs) < length (awaiting c evs)
unfolding awaiting
awaiting_lt c x [] nz (there, h) = absurd there
awaiting_lt c x (ev ∷ evs) nz (inl e, h) =
    let later = awaiting_le c x evs nz h in
    let self = not_awaits_self x nz in rw (e, self, h) (omega (arith, later))
awaiting_lt c x (ev ∷ evs) nz (inr there, h) =
    ground (arith, awaiting_lt c x evs nz (there, h), awaits_trans c x ev nz h)
