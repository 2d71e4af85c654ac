-- ===== src/Tests/Gate.antt =====
-- The gate on a tool whose installed tree changed after it was pinned.
use zee.Prelude.{
  ◌≤◌, String, true, false, ◌||◌, ◌≡◌, ◌↔◌, refl, none, some, List, [], ◌∷◌, any, all, length,
  contains, truthy,
}
use zee.Gate.Model
use zee.Gate.Model.{
  RiskLevel, InspectionStatus, Severity, Flag, Artifact, Verdict, level_code, is_gap,
}
use zee.Gate.Scorer.Laws.{is_low}
use zee.Gate.Denylist.{Lists, merged}
use zee.Gate.Inspector.{Checks, verdict_of, inspect_source}
use zee.Gate.Inspector.Verdicts.{exit_code-pass, inspect_source-denylisted}
use zee.Gate.Promote.{Files, copied, promote_if_low, IsSafeCopy, promote_if_low-IsSafeCopy}
use zee.Gate.Pins.{Pin, all_pins}
use zee.Gate.Pins.Latest.{find, last_pin, OncePerDir, all_pins-latest}
use zee.Gate.Audit.{Disk, audit_pins}
use zee.Gate.Audit.Drift.{drifts_to, audit_pins-denylists, rug_pull_blocked}
use zee.Tests.Data.{noon}

abbrev finding : Severity → String → Flag
finding s c = record { severity = s; code = c; message = "found"; evidence = "setup.py" }

abbrev hooks : List Flag
hooks = finding Severity.low "G301" ∷ []

abbrev leaks : List Flag
leaks = finding Severity.high "G401" ∷ []

abbrev shipped : Lists
shipped = record { hashes = "h0" ∷ []; names = "evil" ∷ []; domains = [] }

abbrev overlay : Lists
overlay = record { hashes = []; names = []; domains = [] }

abbrev tool : Artifact
tool = record {
  kind = "package";
  source = "./tool";
  name = "tool";
  content_hash = "h2";
  declared_capabilities = [];
  install_hooks = [];
  root = some "/q/tool";
  version = none;
}

exit_code-pass_example :
    (Model.exit_code (verdict_of tool hooks []) ≡ 0)
    ↔ ((any is_gap hooks ≡ false) × (all is_low hooks ≡ true) × (length hooks ≤ 3))
exit_code-pass_example = exit_code-pass tool hooks []

abbrev checks : Checks
checks = record {
  fetch_local = λ s. s;
  build = λ kind source root. tool;
  scan_tree = λ root. hooks;
  manifest_flags = λ root. [];
  import_scans = λ ss. [];
  run_behavioral = λ a. record { flags = []; summary = "nothing" };
}

abbrev grown : Lists
grown = record { hashes = "h2" ∷ []; names = []; domains = [] }

inspect_source-denylisted_example :
    2 ≤ Model.exit_code (inspect_source checks shipped grown "./tool" none true [])
unfolding merged contains
inspect_source-denylisted_example =
    inspect_source-denylisted checks shipped grown "./tool" none true [] refl

abbrev files : Files
files = record {
  resolve = λ p. p;
  parent = λ p. "/srv/apps";
  join = λ d n. "/srv/apps/tool";
  expand_user = λ d. d;
  name_of = λ n. n;
  exists = λ p. false;
  links = λ p. [];
}

abbrev passed : Verdict
passed = record {
  artifact = tool;
  risk_level = RiskLevel.low;
  risk_score = 1;
  flags = hooks;
  notes = [];
  inspection = InspectionStatus.complete;
}

passed-copied : promote_if_low files passed "/srv/apps" ≡ copied "/q/tool" "/srv/apps/tool"
unfolding promote_if_low
passed-copied = refl

promote_if_low-IsSafeCopy_example : IsSafeCopy files passed "/srv/apps" "/q/tool" "/srv/apps/tool"
promote_if_low-IsSafeCopy_example =
    promote_if_low-IsSafeCopy files passed "/srv/apps" "/q/tool" "/srv/apps/tool" passed-copied

abbrev pinned : Pin
pinned = record {
  name = "tool";
  kind = "package";
  source = "./tool";
  content_hash = "h1";
  install_dir = "/srv/apps/tool";
  pinned_at = noon;
}

abbrev registry : List Pin
registry = record pinned { content_hash = "h0" } ∷ pinned ∷ []

all_pins-latest_example :
    ((d : String) → find d (all_pins registry) ≡ last_pin d registry)
    × OncePerDir (all_pins registry)
all_pins-latest_example = all_pins-latest registry

abbrev disk : Disk
disk = record { tree_hash = λ d. some "h2"; rescan = λ local p. none }

audit_pins-denylists_example :
    contains "h2" (merged shipped (audit_pins disk shipped false registry overlay).1).hashes ≡ (
      contains "h2" (merged shipped overlay).hashes
      || any (drifts_to disk shipped false "h2") (all_pins registry))
audit_pins-denylists_example = audit_pins-denylists disk shipped false "h2" registry overlay

rug_pull_blocked_example :
    2
    ≤ Model.exit_code (
        inspect_source checks shipped
          (audit_pins disk shipped false registry overlay).1
          "./tool"
          none
          true
          [])
unfolding all_pins truthy
rug_pull_blocked_example =
    rug_pull_blocked disk shipped false checks registry overlay "./tool" none true [] refl
