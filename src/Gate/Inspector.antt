-- ===== src/Gate/Inspector.antt =====
-- src/zee/gate/inspector.py, `inspect_source`: one verdict from the checks of an artifact.
-- The checks themselves (fetch, adapters, static checks, imports, sandbox) are a parameter.
pub mod Verdicts
use zee.Prelude.{
  String, Bool, true, false, not, Option, none, some, List, [], ◌∷◌, ◌++◌, map, any, keep, ◌<>◌,
  if◌then◌else◌,
}
use zee.Gate.Model.{Flag, Artifact, Verdict, Severity, InspectionStatus, is_gap}
use zee.Gate.Scorer.{score}
use zee.Gate.Denylist.{Lists, check}

pub record SandboxResult : Type 0 where
  pub flags : List Flag
  pub summary : String

-- What the other modules of the gate report of a source.
pub record Checks : Type 0 where
  pub fetch_local : String → String
  pub build : Option String → String → String → Artifact
  pub scan_tree : String → List Flag
  pub manifest_flags : String → List Flag
  pub import_scans : List String → List Flag
  pub run_behavioral : Artifact → SandboxResult

hook_flag : String → Flag
hook_flag hook = record {
  severity = Severity.medium;
  code = "G101";
  message = "declares an install / post-install hook";
  evidence = hook;
}

abbrev not_gap : Flag → Bool
not_gap f = not (is_gap f)

-- the level of what is no gap, and PARTIAL if there is a gap
unfoldable pub verdict_of : Artifact → List Flag → List String → Verdict
verdict_of artifact flags notes =
    let (level, total) = score (keep not_gap flags) in
    record {
      artifact = artifact;
      risk_level = level;
      risk_score = total;
      flags = flags;
      notes = notes;
      inspection = if any is_gap flags then InspectionStatus.partial else InspectionStatus.complete;
    }

module _ (checks : Checks) (repo local : Lists) where
  -- `if import_scans:`
  imported : List String → List Flag
  imported [] = []
  imported (s ∷ ss) = checks.import_scans (s ∷ ss)

  -- the findings, in the order of the code
  static_flags : Artifact → String → List String → List Flag
  unfolding hook_flag imported
  static_flags artifact root imports =
      checks.scan_tree root
      ++ (checks.manifest_flags root
          ++ (check repo local artifact
              ++ (map hook_flag artifact.install_hooks ++ imported imports)))

  inspect_fetched : Artifact → String → Bool → List String → Verdict
  unfolding verdict_of static_flags
  inspect_fetched artifact root behavioral imports =
      if behavioral
      then (let result = checks.run_behavioral artifact in
          verdict_of artifact (static_flags artifact root imports ++ result.flags)
            (("behavioural: " <> result.summary) ∷ []))
      else verdict_of artifact (static_flags artifact root imports) []

  pub inspect_source : String → Option String → Bool → List String → Verdict
  unfolding inspect_fetched
  inspect_source source kind behavioral imports =
      let root = checks.fetch_local source in
      inspect_fetched (checks.build kind source root) root behavioral imports
