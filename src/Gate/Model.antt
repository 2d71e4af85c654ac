-- ===== src/Gate/Model.antt =====
-- src/zee/gate/model.py: flags, artifacts, verdicts and their exit codes.
use zee.Prelude.{ℕ, String, Bool, Option, List, [], ◌∷◌, keep, map, contains, or_else}

pub data RiskLevel : Type 0 where
  low medium high : RiskLevel

pub data InspectionStatus : Type 0 where
  complete partial error : InspectionStatus

pub data Severity : Type 0 where
  low medium high : Severity

abbrev pub weight : Severity → ℕ
weight Severity.low = 1
weight Severity.medium = 4
weight Severity.high = 10

abbrev pub level_code : RiskLevel → ℕ
level_code RiskLevel.low = 0
level_code RiskLevel.medium = 1
level_code RiskLevel.high = 2

abbrev pub gap_codes : List String
gap_codes = "G909" ∷ "G910" ∷ "G911" ∷ "G912" ∷ "G809" ∷ "G225" ∷ []

pub record Flag : Type 0 where
  pub severity : Severity
  pub code : String
  pub message : String
  pub evidence : String

pub record Artifact : Type 0 where
  pub kind : String
  pub source : String
  pub name : String
  pub content_hash : String
  pub declared_capabilities : List String
  pub install_hooks : List String
  pub root : Option String
  pub version : Option String

pub record Verdict : Type 0 where
  pub artifact : Artifact
  pub risk_level : RiskLevel
  pub risk_score : ℕ
  pub flags : List Flag
  pub notes : List String
  pub inspection : InspectionStatus

-- `f.code in GAP_CODES`
unfoldable pub is_gap : Flag → Bool
is_gap f = contains f.code gap_codes

-- `f.evidence or f.message`
unfoldable pub gaps : Verdict → List String
gaps v = map (λ f. or_else f.evidence f.message) (keep is_gap v.flags)

code_of : InspectionStatus → RiskLevel → ℕ
code_of error level = 4
code_of partial level = 3
code_of complete level = level_code level

-- An incomplete inspection never passes, even at LOW.
unfoldable pub exit_code : Verdict → ℕ
unfolding code_of
exit_code v = code_of v.inspection v.risk_level
