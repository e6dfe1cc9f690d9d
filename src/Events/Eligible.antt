-- ===== src/Events/Eligible.antt =====
-- internal/events/trade_portfolio_apply.go: the ordering watermark.
pub mod Prefix
use real_time_portfolio_risk.Prelude.{
  ℕ, ◌-◌, Bool, ◌&&◌, true, false, not, List, [], ◌∷◌, length, if◌then◌else◌, ltb, nat_beq,
}
use real_time_portfolio_risk.Clock.{Time, Duration, after}
use real_time_portfolio_risk.Domain.Types.{EventEnvelope}

-- The loop counts the leading events that are not after the cutoff.
unfoldable pub eligible_prefix : List EventEnvelope → Time → List EventEnvelope
eligible_prefix [] cutoff = []
eligible_prefix (ev ∷ batch) cutoff =
    if not (after ev.event_time cutoff) then ev ∷ eligible_prefix batch cutoff else []

abbrev pub fetch_after_page_limit : ℕ
fetch_after_page_limit = 200

unfoldable pub eligible_batch_after_watermark :
    List EventEnvelope → Time → Duration → ℕ → List EventEnvelope
unfolding eligible_prefix
eligible_batch_after_watermark batch cutoff watermark fetch_limit =
    let eligible = eligible_prefix batch cutoff in
    if nat_beq (length eligible) 0
      && ltb 0 (length batch)
      && ltb (length batch) fetch_limit
      && ltb 0 watermark
    then batch
    else eligible

-- `time.Since` is taken at `now`; an event of the future is not stale.
unfoldable pub event_too_stale_for_apply : EventEnvelope → Duration → Time → Bool
event_too_stale_for_apply ev max_age now =
    if nat_beq max_age 0 then false else ltb max_age (now - ev.event_time)
