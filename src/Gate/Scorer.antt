-- ===== src/Gate/Scorer.antt =====
-- src/zee/gate/scorer.py: from flags to a risk level.
pub mod Laws
use zee.Prelude.{ℕ, ◌+◌, Bool, true, false, List, [], ◌∷◌, any, leb, if◌then◌else◌}
use zee.Gate.Model.{RiskLevel, Severity, Flag, weight}

unfoldable pub total_weight : List Flag → ℕ
total_weight [] = 0
total_weight (f ∷ fs) = weight f.severity + total_weight fs

abbrev pub is_high : Flag → Bool
is_high f = elim f.severity [ Severity.high ↦ true | _ ↦ false ]

unfoldable pub level_of : Bool → ℕ → RiskLevel
level_of any_high total =
    if any_high
    then RiskLevel.high
    else if leb 10 total
    then RiskLevel.high
    else if leb 4 total
    then RiskLevel.medium
    else RiskLevel.low

unfoldable pub score : List Flag → RiskLevel × ℕ
unfolding level_of
score flags = (level_of (any is_high flags) (total_weight flags), total_weight flags)
