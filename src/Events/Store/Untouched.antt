-- ===== src/Events/Store/Untouched.antt =====
-- Statements for one portfolio leave the rows of the others as they were.
use real_time_portfolio_risk.Prelude.{
  nat_eq, ◌==◌, ◌≡◌, refl, ◌∙◌, Str, false, List, [], ◌∷◌, ◌++◌, Bool-cases, inl, inr,
  if◌then◌else◌, arith,
}
use real_time_portfolio_risk.Prelude.Dict.{lookup, lookup-insert}
use real_time_portfolio_risk.Clock.{Uuid}
use real_time_portfolio_risk.Decimal.{Decimal}
use real_time_portfolio_risk.Domain.Types.{EventEnvelope}
use real_time_portfolio_risk.Portfolio.Aggregate.{Aggregate}
use real_time_portfolio_risk.Events.Cursor.{Cursor}
use real_time_portfolio_risk.Events.Store.{
  Tables, DlqRow, SnapshotRow, Reason, has_checkpoint, insert_portfolio_snapshot, persist_apply_dlq,
  apply_batch, upsert_projection_cursor,
}

-- The dead letters and the snapshots of a portfolio.
abbrev pub letters_of : Uuid → List DlqRow → List DlqRow
letters_of pid [] = []
letters_of pid (row ∷ rows) =
    if row.partition == pid then row ∷ letters_of pid rows else letters_of pid rows

abbrev pub snapshots_of : Uuid → List SnapshotRow → List SnapshotRow
snapshots_of pid [] = []
snapshots_of pid (row ∷ rows) =
    if row.partition == pid then row ∷ snapshots_of pid rows else snapshots_of pid rows

pub letters_of-append :
    (j : Uuid) (rows : List DlqRow) (row : DlqRow)
    → (row.partition == j) ≡ false
    → letters_of j (rows ++ (row ∷ [])) ≡ letters_of j rows
letters_of-append j [] row h = ground arith
letters_of-append j (r ∷ rows) row h = ground (arith, letters_of-append j rows row h)

pub snapshots_of-append :
    (j : Uuid) (rows : List SnapshotRow) (row : SnapshotRow)
    → (row.partition == j) ≡ false
    → snapshots_of j (rows ++ (row ∷ [])) ≡ snapshots_of j rows
snapshots_of-append j [] row h = ground arith
snapshots_of-append j (r ∷ rows) row h = ground (arith, snapshots_of-append j rows row h)

module _ {D : Type 0} where
  -- The rows of a portfolio and the events are as they were.
  pub record IsUntouched (j : Uuid) (t t' : Tables D) : Type 0 where
    pub same_events : t'.events ≡ t.events
    pub same_positions : lookup j t'.positions_projection ≡ lookup j t.positions_projection
    pub same_cursor : lookup j t'.projection_cursor ≡ lookup j t.projection_cursor
    pub same_letters : letters_of j t'.dlq_events ≡ letters_of j t.dlq_events
    pub same_snapshots :
        snapshots_of j t'.portfolio_snapshots ≡ snapshots_of j t.portfolio_snapshots

  pub IsUntouched-refl : (j : Uuid) (t : Tables D) → IsUntouched j t t
  IsUntouched-refl j t = record {
    same_events = refl;
    same_positions = refl;
    same_cursor = refl;
    same_letters = refl;
    same_snapshots = refl;
  }

  pub IsUntouched-trans :
      (j : Uuid) (t t' t'' : Tables D)
      → IsUntouched j t t'
      → IsUntouched j t' t''
      → IsUntouched j t t''
  IsUntouched-trans j t t' t'' a b = record {
    same_events = b.same_events ∙ a.same_events;
    same_positions = b.same_positions ∙ a.same_positions;
    same_cursor = b.same_cursor ∙ a.same_cursor;
    same_letters = b.same_letters ∙ a.same_letters;
    same_snapshots = b.same_snapshots ∙ a.same_snapshots;
  }

module _ (pid j : Uuid) (other : (pid == j) ≡ false) where
  pub apply_batch-IsUntouched :
      {D : Type 0} ⦃d : Decimal D⦄ (pid_str : Str) (symbols : List Str) (last : EventEnvelope)
      (agg : Aggregate D) (t : Tables D)
      → IsUntouched j t (apply_batch pid pid_str symbols last agg t)
  unfolding apply_batch upsert_projection_cursor
  apply_batch-IsUntouched pid_str symbols last agg t = record {
    same_events = refl;
    same_positions = rw (lookup-insert, other) refl;
    same_cursor = rw (lookup-insert, other) refl;
    same_letters = refl;
    same_snapshots = refl;
  }

  pub persist_apply_dlq-IsUntouched :
      {D : Type 0} (ev : EventEnvelope) (reason : Reason) (t : Tables D)
      → IsUntouched j t (persist_apply_dlq pid ev reason t)
  unfolding persist_apply_dlq upsert_projection_cursor
  persist_apply_dlq-IsUntouched ev reason t = record {
    same_events = refl;
    same_positions = refl;
    same_cursor = rw (lookup-insert, other) refl;
    same_letters =
        letters_of-append j t.dlq_events (record { partition = pid; event = ev; reason = reason })
          other;
    same_snapshots = refl;
  }

  pub insert_portfolio_snapshot-IsUntouched :
      {D : Type 0} (c : Cursor) (body : Str) (t : Tables D)
      → IsUntouched j t (insert_portfolio_snapshot pid c body t)
  unfolding insert_portfolio_snapshot
  insert_portfolio_snapshot-IsUntouched c body t =
      elim (Bool-cases (has_checkpoint pid c t.portfolio_snapshots)) [
        | inl there ↦ rw (insert_portfolio_snapshot, there) (IsUntouched-refl j t)
        | inr new ↦
            rw (insert_portfolio_snapshot, new)
              (record {
                same_events = refl;
                same_positions = refl;
                same_cursor = refl;
                same_letters = refl;
                same_snapshots =
                    snapshots_of-append j t.portfolio_snapshots
                      (record { partition = pid; as_of = c; snapshot = body }) other;
              })
      ]
