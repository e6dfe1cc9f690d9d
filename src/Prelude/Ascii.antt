-- ===== src/Prelude/Ascii.antt =====
-- `strings.ToUpper`, `strings.ToLower` and `strings.TrimSpace` on ASCII texts; a byte of another
-- character is left as it is.
use Prim.Native.Nat.{ℕ, ◌-◌}
use mathlib.Core.Bool.{Bool, ◌&&◌, ◌||◌}
use mathlib.Core.List.{[], ◌∷◌}
use real_time_portfolio_risk.Prelude.Tests.{if◌then◌else◌, leb, nat_beq}
use real_time_portfolio_risk.Prelude.Text.{Str}

abbrev pub is_lower : ℕ → Bool
is_lower b = leb 97 b && leb b 122

abbrev pub upper_byte : ℕ → ℕ
upper_byte b = if is_lower b then b - 32 else b

unfoldable pub to_upper : Str → Str
to_upper [] = []
to_upper (b ∷ s) = upper_byte b ∷ to_upper s

-- Space, and the controls from tab to carriage return.
abbrev pub is_space : ℕ → Bool
is_space b = nat_beq b 32 || (leb 9 b && leb b 13)

unfoldable pub trim_left : Str → Str
trim_left [] = []
trim_left (b ∷ s) = if is_space b then trim_left s else b ∷ s

-- The text without the spaces at its end.
unfoldable pub trim_right : Str → Str
trim_right [] = []
trim_right (b ∷ s) = elim (trim_right s) [
  | [] ↦ if is_space b then [] else b ∷ []
  | c ∷ t ↦ b ∷ c ∷ t
]

abbrev pub trim_space : Str → Str
trim_space s = trim_right (trim_left s)
