-- ===== src/Tests/Telemetry.antt =====
-- The ledger of cuts on two recorded cuts and a line that is no record.
use zee.Prelude.{
  String, true, ◌||◌, ◌≡◌, refl, none, some, List, [], ◌∷◌, ◌++◌, ◌==◌, contains, truthy, is_some,
  if◌then◌else◌,
}
use zee.Telemetry.CutState.{Kind, CutRecord, entries, with_backend}
use zee.Telemetry.CutState.Ledger.{
  Line, whole, breaks, cut_texts, value, malformed, lines, cut_json, record_cut, mark_resolved,
  unresolved_for, has_pair, platform_differs,
}
use zee.Telemetry.CutState.Outstanding.{
  history, outstanding, unresolved-iff-outstanding, any_malformed, malformed-damages_all,
}
use zee.Telemetry.CutState.RoundTrip.{IsWritable, cut_of, unresolved-mark_resolved}
use zee.Telemetry.CutState.Merge.{names_before, pairs_before, unresolved-record_cut}
use zee.Tests.Data.{clock, noon}

abbrev en0 : List String
en0 = "en0" ∷ []

abbrev past : List Line
past = value (cut_json clock "laptop" "full" "darwin" en0 none noon) ∷ []

writable : IsWritable "laptop" "full" "darwin" ("en1" ∷ [])
unfolding truthy
writable = record {
  asset_named = refl;
  method_known = refl;
  platform_known = refl;
  some_modified = λ e. absurd (cc e);
  all_named = refl;
}

unresolved-record_cut_example :
    let before = unresolved_for clock "laptop" (lines past) in
    let r = cut_of clock "laptop" "full" "darwin" ("en1" ∷ []) noon in
    let ledger = record_cut clock "laptop" "full" "darwin" ("en1" ∷ []) none noon (lines past) in
    (c : CutRecord) × ((b : String)
      → unresolved_for clock b ledger ≡ (
          if "laptop" == b
          then (some c, before.1 || platform_differs before.0 r)
          else unresolved_for clock b (lines past)))
    × ((m : String)
        → contains m c.modified
          ≡ (contains m (names_before before.0) || contains m (with_backend ("en1" ∷ []))))
    × ((p : Kind × String)
        → has_pair p (entries c) ≡ (has_pair p (pairs_before before.0) || has_pair p (entries r)))
unfolding breaks cut_texts
unresolved-record_cut_example =
    unresolved-record_cut clock "laptop" "full" "darwin" ("en1" ∷ []) none noon past writable refl

unresolved-mark_resolved_example :
    unresolved_for clock "laptop" (mark_resolved clock whole "laptop" noon (lines past))
    ≡ (none, (unresolved_for clock "laptop" (lines past)).1)
unfolding truthy breaks
unresolved-mark_resolved_example = unresolved-mark_resolved clock "laptop" noon past refl refl refl

unresolved-iff-outstanding_example :
    is_some (unresolved_for clock "laptop" (lines past)).0
    ≡ outstanding "laptop" (history clock past)
unresolved-iff-outstanding_example = unresolved-iff-outstanding clock "laptop" past

malformed-damages_all_example :
    (unresolved_for clock "laptop" (lines (malformed ∷ [] ++ past))).1 ≡ true
unfolding any_malformed
malformed-damages_all_example = malformed-damages_all clock "laptop" (malformed ∷ []) past refl
