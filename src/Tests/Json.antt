-- ===== src/Tests/Json.antt =====
-- A JSON codec of snapshots that is faithful: lengths before texts.
use real_time_portfolio_risk.Prelude.{
  ℕ, suc, zero, List, [], ◌∷◌, ◌++◌, length, take, drop, none, some, ◌≡◌, refl, ap, Str, arith,
}
use real_time_portfolio_risk.Portfolio.Snapshot.{SnapshotJson, IsFaithful, TradePositionSnapshot}

abbrev text : Str → Str → Str
text s rest = length s ∷ (s ++ rest)

abbrev untext : Str → Str × Str
untext [] = ([], [])
untext (n ∷ s) = (take n s, drop n s)

take-append : (s rest : Str) → take (length s) (s ++ rest) ≡ s
take-append [] rest = refl
take-append (c ∷ s) rest = ap (◌∷◌ c) (take-append s rest)

drop-append : (s rest : Str) → drop (length s) (s ++ rest) ≡ rest
drop-append [] rest = refl
drop-append (c ∷ s) rest = drop-append s rest

untext-text : (s rest : Str) → untext (text s rest) ≡ (s, rest)
untext-text s rest = ground (arith, take-append s rest, drop-append s rest)

abbrev rows : List TradePositionSnapshot → Str
rows [] = []
rows (r ∷ rs) =
    text r.symbol (text r.quantity (text r.average_cost (text r.realized_pnl (rows rs))))

abbrev unrows : ℕ → Str → List TradePositionSnapshot
unrows zero s = []
unrows (suc n) s =
    let (symbol, s1) = untext s in
    let (quantity, s2) = untext s1 in
    let (average_cost, s3) = untext s2 in
    let (realized_pnl, s4) = untext s3 in
    record {
      symbol = symbol;
      quantity = quantity;
      average_cost = average_cost;
      realized_pnl = realized_pnl;
    }
    ∷ unrows n s4

unrows-rows : (rs : List TradePositionSnapshot) → unrows (length rs) (rows rs) ≡ rs
unrows-rows [] = refl
unrows-rows (r ∷ rs) = simp (take-append, drop-append, unrows-rows rs)

abbrev pub json : SnapshotJson
json = record {
  marshal = λ s. length s.positions ∷ text s.format (rows s.positions);
  unmarshal = λ s. elim s [
    | [] ↦ none
    | n ∷ s' ↦
        let (format, s1) = untext s' in some (record { format = format; positions = unrows n s1 })
  ];
}

pub json-IsFaithful : IsFaithful json
json-IsFaithful = record {
  unmarshal-marshal = λ s. simp (take-append, drop-append, unrows-rows s.positions);
  marshal-ne-nil = λ s. ground arith;
}
