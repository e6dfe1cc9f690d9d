-- ===== src/Events/Verdict.antt =====
-- What the database does with a call.
use real_time_portfolio_risk.Prelude.{◌≡◌, refl, ◌⊎◌, inl, inr}

-- What the database does with one call: it answers, it fails with the transaction rolled back, or
-- the transaction commits and the answer is lost.
pub data Verdict : Type 0 where
  answers rolls_back commits_unseen : Verdict

pub Verdict-cases :
    (v : Verdict) → (v ≡ Verdict.answers) ⊎ (v ≡ Verdict.rolls_back) ⊎ (v ≡ Verdict.commits_unseen)
Verdict-cases Verdict.answers = inl refl
Verdict-cases Verdict.rolls_back = inr (inl refl)
Verdict-cases Verdict.commits_unseen = inr (inr refl)
