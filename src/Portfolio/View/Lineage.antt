-- ===== src/Portfolio/View/Lineage.antt =====
-- The lineage of a view: the latest of the trade cursor and the marks, whatever the order in which a
-- map gives them.
use mathlib.Core.List
use mathlib.Core.List.{Mem, Perm, mem-singleton}
use mathlib.Core.List.Perm
use mathlib.Core.Logic.Or
use real_time_portfolio_risk.Prelude.{
  ◌≡◌, ◌⊎◌, Str, Bool, true, false, if◌then◌else◌, ltb, List, [], ◌∷◌, ◌++◌, none, some, Option,
  All, nat_eq, ◌==◌,
}
use real_time_portfolio_risk.Prelude.Dict.{Dict}
use real_time_portfolio_risk.Clock.{Time, Uuid, nil_uuid, zero_time}
use real_time_portfolio_risk.Portfolio.View.{ApplyCursorMeta, PriceMarkInput}

-- An event with its time, and the order of events: by time, then by id.
abbrev pub EventRef : Type 0
EventRef = Uuid × Time

abbrev pub ref_less : EventRef → EventRef → Bool
ref_less (i, t) (j, u) = if ltb t u then true else if ltb u t then false else ltb i j

abbrev pub trade_refs : Option ApplyCursorMeta → List EventRef
trade_refs none = []
trade_refs (some t) = if t.event_id == nil_uuid then [] else (t.event_id, t.event_time) ∷ []

-- The event of a mark, if it has one.
abbrev pub mark_ref : {D : Type 0} → Str × PriceMarkInput D → Option EventRef
mark_ref (s, p) =
    if p.as_of_event_id == nil_uuid then none else some (p.as_of_event_id, p.as_of_event_time)

-- What a view is made from: the last trade and the events of the marks.
abbrev pub candidates :
    {D : Type 0} → Option ApplyCursorMeta → Dict Str (PriceMarkInput D) → List EventRef
candidates trade prices = trade_refs trade ++ List.filter_map mark_ref prices

-- No candidate at all, or one of them that none is after.
abbrev pub IsLatest : EventRef → List EventRef → Type 0
IsLatest best refs =
    ((refs ≡ []) × (best ≡ (nil_uuid, zero_time)))
    ⊎ (Mem best refs × All (λ r. ref_less best r ≡ false) refs)

abbrev ref_of : ApplyCursorMeta → EventRef
ref_of m = (m.event_id, m.event_time)

-- The same for the result of a fold over the marks.
abbrev IsBest : Option ApplyCursorMeta → List EventRef → Type 0
IsBest none refs = refs ≡ []
IsBest (some b) refs = Mem (ref_of b) refs × All (λ r. ref_less (ref_of b) r ≡ false) refs

abbrev listed : Option EventRef → List EventRef
listed none = []
listed (some r) = r ∷ []
