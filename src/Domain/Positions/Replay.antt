-- ===== src/Domain/Positions/Replay.antt =====
-- A sequence of trades applied in order, the refused ones skipped as the apply worker skips them.
use real_time_portfolio_risk.Prelude.{
  Str, ◌≡◌, refl, sym, ap, ◌∙◌, inl, inr, none, List, [], ◌∷◌, All, text_eq,
}
use mathlib.Core.Path.{ap₂, ◌≡⟨◌⟩◌, ◌∎}
use real_time_portfolio_risk.Decimal.{Decimal, IsDecimal}
use real_time_portfolio_risk.Decimal.Ring
use real_time_portfolio_risk.Domain.Types.{TradePayload}
use real_time_portfolio_risk.Domain.Validation.{validate_trade_payload}
use real_time_portfolio_risk.Domain.Positions.{
  Positions, Outcome, done, failed, panicked, lot_of, apply_trade,
}
use real_time_portfolio_risk.Domain.Positions.NoShorting.{IsLongOnly, apply_trade-IsLongOnly}
use real_time_portfolio_risk.Domain.Positions.CashFlow.{
  bought, sold, paid, received, cost, rounding, apply_trade-Books,
}

module _ {D : Type 0} ⦃d : Decimal D⦄ where
  unfoldable pub replay : Positions D → List (TradePayload D) → Positions D
  replay p [] = p
  replay p (t ∷ ts) = replay (apply_trade p t).1 ts

  -- The trades that are applied, in order.
  abbrev keep_done : Outcome → TradePayload D → List (TradePayload D) → List (TradePayload D)
  keep_done done t ts = t ∷ ts
  keep_done (failed e) t ts = ts
  keep_done panicked t ts = ts

  unfoldable pub applied : Positions D → List (TradePayload D) → List (TradePayload D)
  applied p [] = []
  applied p (t ∷ ts) = keep_done (apply_trade p t).0 t (applied (apply_trade p t).1 ts)

  abbrev pub total : (TradePayload D → D) → List (TradePayload D) → D
  total f [] = d.nought
  total f (t ∷ ts) = d.add (f t) (total f ts)

  abbrev if_done : Outcome → D → D
  if_done done x = x
  if_done (failed e) x = d.nought
  if_done panicked x = d.nought

  -- What rounding average costs takes off, over the trades that are applied.
  abbrev pub total_rounding : Str → Positions D → List (TradePayload D) → D
  total_rounding s p [] = d.nought
  total_rounding s p (t ∷ ts) =
      d.add (if_done (apply_trade p t).0 (rounding s p t)) (total_rounding s (apply_trade p t).1 ts)

  module _ (laws : IsDecimal D) where
    open laws use {add_comm, add_assoc, add-nought}

    chain_quantity :
        (q₀ q₁ q₂ b s b' s' : D)
        → d.add q₁ s ≡ d.add q₀ b
        → d.add q₂ s' ≡ d.add q₁ b'
        → d.add q₂ (d.add s s') ≡ d.add q₀ (d.add b b')
    chain_quantity q₀ q₁ q₂ b s b' s' e f =
        d.add q₂ (d.add s s')
        ≡⟨ Ring.add_left_comm laws q₂ s s' ⟩ d.add s (d.add q₂ s')
        ≡⟨ ap (d.add s) f ⟩ d.add s (d.add q₁ b')
        ≡⟨ sym (add_assoc s q₁ b') ∙ ap (λ x. d.add x b') (add_comm s q₁ ∙ e) ⟩
          d.add (d.add q₀ b) b'
        ≡⟨ add_assoc q₀ b b' ⟩ d.add q₀ (d.add b b') ∎

    chain_value :
        (r₀ r₁ r₂ c₀ c₁ c₂ p v p' v' : D)
        → d.add (d.add r₁ c₀) p ≡ d.add (d.add r₀ c₁) v
        → d.add (d.add r₂ c₁) p' ≡ d.add (d.add r₁ c₂) v'
        → d.add (d.add r₂ c₀) (d.add p p') ≡ d.add (d.add r₀ c₂) (d.add v v')
    chain_value r₀ r₁ r₂ c₀ c₁ c₂ p v p' v' e f =
        Ring.add_cancel laws _ _ (d.add r₁ c₁)
          (regroup r₂ c₀ p p' r₁ c₁ ∙ ap₂ d.add f e ∙ regroup' r₁ c₂ v' r₀ c₁ v)
      where
        regroup :
            (r c x y s e : D)
            → d.add (d.add (d.add r c) (d.add x y)) (d.add s e)
              ≡ d.add (d.add (d.add r e) y) (d.add (d.add s c) x)
        regroup r c x y s e = simp (add_comm, add_assoc, Ring.add_left_comm laws)

        regroup' :
            (s c y r e x : D)
            → d.add (d.add (d.add s c) y) (d.add (d.add r e) x)
              ≡ d.add (d.add (d.add r c) (d.add x y)) (d.add s e)
        regroup' s c y r e x = simp (add_comm, add_assoc, Ring.add_left_comm laws)

    -- The same with what is lost on the way.
    chain_books :
        (r₀ r₁ r₂ c₀ c₁ c₂ p v x p' v' x' : D)
        → d.add (d.add r₁ c₀) p ≡ d.add (d.add (d.add r₀ c₁) v) x
        → d.add (d.add r₂ c₁) p' ≡ d.add (d.add (d.add r₁ c₂) v') x'
        → d.add (d.add r₂ c₀) (d.add p p') ≡ d.add (d.add (d.add r₀ c₂) (d.add v v')) (d.add x x')
    chain_books r₀ r₁ r₂ c₀ c₁ c₂ p v x p' v' x' e f =
        chain_value r₀ r₁ r₂ c₀ c₁ c₂ p (d.add v x) p' (d.add v' x') (e ∙ add_assoc _ v x)
          (f ∙ add_assoc _ v' x')
        ∙ regroup (d.add r₀ c₂) v x v' x'
      where
        regroup :
            (a v x w y : D)
            → d.add a (d.add (d.add v x) (d.add w y)) ≡ d.add (d.add a (d.add v w)) (d.add x y)
        regroup a v x w y = simp (add_comm, add_assoc, Ring.add_left_comm laws)

    -- The books of a symbol over a run.
    abbrev pub RunBooks : Str → Positions D → List (TradePayload D) → Type 0
    RunBooks s p ts =
        let l = lot_of s p in
        let l' = lot_of s (replay p ts) in
        let log = applied p ts in
        (d.add l'.quantity (total (sold s) log) ≡ d.add l.quantity (total (bought s) log))
        × (d.add (d.add l'.realized_pnl (cost l)) (total (paid s) log)
            ≡ d.add (d.add (d.add l.realized_pnl (cost l')) (total (received s) log))
                (total_rounding s p ts))

    -- The trades that are applied account for the whole position: quantity held and sold is what
    -- was held before and bought, and realized profit, with what was paid, is the cost of what is
    -- held with what was received, and with what rounding the average costs has taken off.
    pub replay-RunBooks :
        (s : Str) (p : Positions D) (ts : List (TradePayload D))
        → IsLongOnly p
        → All (λ t. validate_trade_payload t ≡ none) ts
        → RunBooks s p ts
    unfolding replay applied
    replay-RunBooks s p [] h v = (refl, sym (add-nought _))
    replay-RunBooks s p (t ∷ ts) h (v, vs) =
        let p' = (apply_trade p t).1 in
        let settled = apply_trade-IsLongOnly laws p t h v in
        let rest = replay-RunBooks s p' ts settled.0 vs in
        elim settled.1 [
          | inl ends ↦
              let step = apply_trade-Books laws s p t ends in
              rw (total_rounding, ends)
                (
                  chain_quantity _ _ _ _ _ _ _ step.0 rest.0,
                  chain_books _ _ _ _ _ _ _ _ _ _ _ _ step.1 rest.1,
                )
          | inr same ↦ rw (total_rounding, same.0, same.1) (refused (rw same.1 at rest))
        ]
      where
        refused :
            RunBooks s p ts
            → (d.add (lot_of s (replay p ts)).quantity (total (sold s) (applied p ts))
                ≡ d.add (lot_of s p).quantity (total (bought s) (applied p ts)))
              × (d.add
                    (d.add (lot_of s (replay p ts)).realized_pnl (cost (lot_of s p)))
                    (total (paid s) (applied p ts))
                  ≡ d.add
                      (d.add
                        (d.add (lot_of s p).realized_pnl (cost (lot_of s (replay p ts))))
                        (total (received s) (applied p ts)))
                      (d.add d.nought (total_rounding s p ts)))
        refused books =
            (books.0, books.1 ∙ ap (d.add _) (sym (Ring.nought-add laws (total_rounding s p ts))))
