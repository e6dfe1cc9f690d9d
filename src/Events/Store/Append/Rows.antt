-- ===== src/Events/Store/Append/Rows.antt =====
-- What `Append` does to the rows: nothing, or one more row under a key that was free.
use real_time_portfolio_risk.Prelude.{
  ◌≡◌, refl, ap, text_eq, nat_eq, ◌==◌, ==_refl, Bool, true, false, ◌&&◌, List, [], ◌∷◌, ◌++◌, none,
  some, Option-cases, inl, inr, ◌⊎◌, All, All-append, arith,
}
use real_time_portfolio_risk.Events.Verdict.{Verdict}
use real_time_portfolio_risk.Events.Store.{EventRow}
use real_time_portfolio_risk.Events.Store.Append.{
  AppendResult, Reply, appended, unavailable, find_key, has_event_id, insert_event, commit_event,
}

-- The key of the row was free, in both unique indexes.
abbrev pub IsFresh : EventRow → List EventRow → Type 0
IsFresh row rows =
    (find_key row.partition row.event.idempotency_key rows ≡ none)
    × (has_event_id row.event.event_id rows ≡ false)

pub commit_event-rows :
    (row : EventRow) (verdict : Verdict) (rows : List EventRow)
    → let out = commit_event row verdict rows in
      (out.1 ≡ rows) ⊎ ((out.1 ≡ rows ++ (row ∷ [])) × IsFresh row rows)
unfolding commit_event insert_event
commit_event-rows row verdict rows = ground arith

-- The keys of two rows are not the same.
abbrev pub IsApart : EventRow → EventRow → Type 0
IsApart a b =
    ((a.partition == b.partition && a.event.idempotency_key == b.event.idempotency_key) ≡ false)
    × ((a.event.event_id == b.event.event_id) ≡ false)

-- No two rows share a key.
abbrev pub IsUnique : List EventRow → Type 0
IsUnique [] = Unit
IsUnique (row ∷ rows) = All (IsApart row) rows × IsUnique rows

All-IsApart :
    (row : EventRow) (rows : List EventRow) → IsFresh row rows → All (λ old. IsApart old row) rows
unfolding find_key has_event_id
All-IsApart row [] h = tt
All-IsApart row (old ∷ rows) (k, i) =
    ((ground arith, ground arith), All-IsApart row rows (ground arith, ground arith))

append-IsUnique_lem :
    (rows : List EventRow) (row : EventRow)
    → IsUnique rows
    → All (λ old. IsApart old row) rows
    → IsUnique (rows ++ (row ∷ []))
append-IsUnique_lem [] row u a = (tt, tt)
append-IsUnique_lem (old ∷ rows) row (o, u) (a, as') =
    (All-append (IsApart old) rows (row ∷ []) o (a, tt), append-IsUnique_lem rows row u as')

pub commit_event-IsUnique :
    (row : EventRow) (verdict : Verdict) (rows : List EventRow)
    → IsUnique rows
    → IsUnique (commit_event row verdict rows).1
commit_event-IsUnique row verdict rows u = elim (commit_event-rows row verdict rows) [
  | inl same ↦ rw same u
  | inr (more, fresh) ↦ rw more (append-IsUnique_lem rows row u (All-IsApart row rows fresh))
]

find_key-append :
    (row : EventRow) (rows : List EventRow)
    → find_key row.partition row.event.idempotency_key rows ≡ none
    → find_key row.partition row.event.idempotency_key (rows ++ (row ∷ [])) ≡ some row
unfolding find_key
find_key-append row [] h = ground (arith, ==_refl row.partition, ==_refl row.event.idempotency_key)
find_key-append row (old ∷ rows) h = ground (arith, find_key-append row rows)

-- The result of the statements, when they can be run.
abbrev pub IsPossible : EventRow → List EventRow → Type 0
IsPossible row rows =
    find_key row.partition row.event.idempotency_key rows ≡ none
    → has_event_id row.event.event_id rows ≡ false

abbrev reply : Verdict → AppendResult → Reply
reply Verdict.answers r = appended r
reply Verdict.rolls_back r = unavailable
reply Verdict.commits_unseen r = unavailable

abbrev committed : Verdict → EventRow → List EventRow → List EventRow
committed Verdict.answers row rows = rows ++ (row ∷ [])
committed Verdict.rolls_back row rows = rows
committed Verdict.commits_unseen row rows = rows ++ (row ∷ [])

finds :
    (row old : EventRow) (rows : List EventRow) (v : Verdict)
    → find_key row.partition row.event.idempotency_key rows ≡ some old
    → commit_event row v rows
      ≡ (reply v (record { event_id = old.event.event_id; inserted = false }), rows)
unfolding commit_event insert_event
finds row old rows Verdict.answers h = rw (commit_event, insert_event, h) refl
finds row old rows Verdict.rolls_back h = rw (commit_event, insert_event, h) refl
finds row old rows Verdict.commits_unseen h = rw (commit_event, insert_event, h) refl

inserts :
    (row : EventRow) (rows : List EventRow) (v : Verdict)
    → find_key row.partition row.event.idempotency_key rows ≡ none
    → has_event_id row.event.event_id rows ≡ false
    → commit_event row v rows
      ≡ (reply v (record { event_id = row.event.event_id; inserted = true }), committed v row rows)
unfolding commit_event insert_event
inserts row rows Verdict.answers h k = rw (commit_event, insert_event, h, k) refl
inserts row rows Verdict.rolls_back h k = rw (commit_event, insert_event, h, k) refl
inserts row rows Verdict.commits_unseen h k = rw (commit_event, insert_event, h, k) refl

-- A row that is there under the key is what the call returns, and nothing is written.
pub commit_event-again :
    (row old : EventRow) (rows : List EventRow)
    → find_key row.partition row.event.idempotency_key rows ≡ some old
    → commit_event row Verdict.answers rows
      ≡ (appended (record { event_id = old.event.event_id; inserted = false }), rows)
commit_event-again row old rows h = finds row old rows Verdict.answers h

-- The call after a call of any outcome: it answers with the id of the row under the key, and it
-- writes nothing if the first call had answered, with the same id.
abbrev pub IsSettled : EventRow → Reply × List EventRow → Reply × List EventRow → Type 0
IsSettled row first second =
    (stored : EventRow) × (inserted : Bool) × (find_key row.partition row.event.idempotency_key
        second.1
      ≡ some stored)
    × (second.0 ≡ appended (record { event_id = stored.event.event_id; inserted = inserted }))
    × ((r : AppendResult)
        → first.0 ≡ appended r
        → (r.event_id ≡ stored.event.event_id) × (inserted ≡ false) × (second.1 ≡ first.1))

-- The row is there after the first call.
IsSettled-old :
    (row old : EventRow) (first : Reply × List EventRow)
    → find_key row.partition row.event.idempotency_key first.1 ≡ some old
    → ((r : AppendResult) → first.0 ≡ appended r → r.event_id ≡ old.event.event_id)
    → IsSettled row first (commit_event row Verdict.answers first.1)
IsSettled-old row old first found same =
    let again = commit_event-again row old first.1 found in
    (
      old,
      false,
      rw again found,
      ap (λ out. out.0) again,
      λ r e. (same r e, refl, ap (λ out. out.1) again),
    )

-- The first call was rolled back on a free key.
IsSettled-new :
    (row : EventRow) (rows : List EventRow)
    → IsFresh row rows
    → IsSettled row (unavailable, rows) (commit_event row Verdict.answers rows)
IsSettled-new row rows (free, id_free) =
    let e = inserts row rows Verdict.answers free id_free in
    (
      row,
      true,
      rw e (find_key-append row rows free),
      ap (λ out. out.0) e,
      λ r h. absurd (not_appended h),
    )
  where
    not_appended : {r : AppendResult} → unavailable ≡ appended r → ⊥
    not_appended h = ground arith

pub commit_event-retry :
    (row : EventRow) (verdict : Verdict) (rows : List EventRow)
    → IsPossible row rows
    → let first = commit_event row verdict rows in
      IsSettled row first (commit_event row Verdict.answers first.1)
commit_event-retry row verdict rows possible =
    elim (Option-cases (find_key row.partition row.event.idempotency_key rows)) [
      | inr (old, found) ↦ rw (finds row old rows verdict found) (seen verdict old found)
      | inl free ↦ rw (inserts row rows verdict free (possible free)) (fresh verdict free)
    ]
  where
    seen :
        (v : Verdict) (old : EventRow)
        → find_key row.partition row.event.idempotency_key rows ≡ some old
        → let first : Reply × List EventRow =
            (reply v (record { event_id = old.event.event_id; inserted = false }), rows) in
          IsSettled row first (commit_event row Verdict.answers first.1)
    seen Verdict.answers old found = IsSettled-old row old _ found (λ r e. ground arith)
    seen Verdict.rolls_back old found = IsSettled-old row old _ found (λ r e. absurd (ground arith))
    seen Verdict.commits_unseen old found =
        IsSettled-old row old _ found (λ r e. absurd (ground arith))

    fresh :
        (v : Verdict)
        → find_key row.partition row.event.idempotency_key rows ≡ none
        → let first : Reply × List EventRow = (
          reply v (record { event_id = row.event.event_id; inserted = true }),
          committed v row rows,
        ) in
          IsSettled row first (commit_event row Verdict.answers first.1)
    fresh Verdict.answers free =
        IsSettled-old row row _ (find_key-append row rows free) (λ r e. ground arith)
    fresh Verdict.rolls_back free = IsSettled-new row rows (free, possible free)
    fresh Verdict.commits_unseen free =
        IsSettled-old row row _ (find_key-append row rows free) (λ r e. absurd (ground arith))
