-- ===== src/Gate/Inspector/Verdicts.antt =====
-- What a verdict of src/zee/gate/inspector.py says of the findings behind it.
use zee.Prelude.{
  ◌≤◌, String, Bool, true, false, ◌||◌, ◌≡◌, ◌↔◌, refl, Option, List, [], ◌∷◌, ◌++◌, arith, any,
  all, keep, length, contains, Bool-cases, inl, inr,
}
use zee.Gate.Model.{Flag, Artifact, is_gap, exit_code}
use zee.Gate.Scorer.{score, is_high, level_of}
use zee.Gate.Scorer.Laws.{is_low, score-low}
use zee.Gate.Denylist.{Lists, check, merged}
use zee.Gate.Denylist.Laws.{check-high}
use zee.Gate.Inspector.{Checks, verdict_of, inspect_source, inspect_fetched, static_flags, not_gap}

-- Without gaps nothing is kept out of the score.
keep_all : (fs : List Flag) → any is_gap fs ≡ false → keep not_gap fs ≡ fs
keep_all [] h = refl
keep_all (f ∷ fs) h = ground (arith, keep_all fs)

-- The exit code is 0 exactly if nothing was left uninspected, no finding is medium or high, and there
-- are at most three findings.
pub exit_code-pass :
    (a : Artifact) (fs : List Flag) (notes : List String)
    → (exit_code (verdict_of a fs notes) ≡ 0)
      ↔ ((any is_gap fs ≡ false) × (all is_low fs ≡ true) × (length fs ≤ 3))
unfolding exit_code verdict_of
exit_code-pass a fs notes = elim (Bool-cases (any is_gap fs)) [
  | inl gap ↦ rw gap (ground arith)
  | inr whole ↦ rw (whole, keep_all fs whole) (ground (arith, score-low fs))
]

-- A high finding that is no gap makes the exit code 2 or 3, whatever else was found.
high-fails :
    (a : Artifact) (fs : List Flag) (notes : List String)
    → any is_high (keep not_gap fs) ≡ true
    → 2 ≤ exit_code (verdict_of a fs notes)
unfolding exit_code verdict_of score level_of
high-fails a fs notes h = ground (arith)

any-keep-append :
    (fs gs : List Flag)
    → any is_high (keep not_gap (fs ++ gs))
      ≡ (any is_high (keep not_gap fs) || any is_high (keep not_gap gs))
any-keep-append [] gs = refl
any-keep-append (f ∷ fs) gs = ground (arith, any-keep-append fs gs)

-- The findings of the denylist are no gaps.
keep-check :
    (repo local : Lists) (a : Artifact) → keep not_gap (check repo local a) ≡ check repo local a
unfolding check is_gap contains
keep-check repo local a = elim (Bool-cases (contains a.content_hash (merged repo local).hashes)) [
  | inl h ↦ elim (Bool-cases (contains a.name (merged repo local).names)) [
    | inl n ↦ rw (h, n)
    | inr n ↦ rw (h, n)
  ]
  | inr h ↦ elim (Bool-cases (contains a.name (merged repo local).names)) [
    | inl n ↦ rw (h, n)
    | inr n ↦ rw (h, n)
  ]
]

module _ (checks : Checks) (repo local : Lists) where
  static-high :
      (a : Artifact) (root : String) (imports : List String)
      → any is_high (check repo local a) ≡ true
      → any is_high (keep not_gap (static_flags checks repo local a root imports)) ≡ true
  unfolding static_flags
  static-high a root imports h = simp (any-keep-append, keep-check, h) (ground arith)

  fetched-high :
      (a : Artifact) (root : String) (behavioral : Bool) (imports : List String)
      → any is_high (check repo local a) ≡ true
      → 2 ≤ exit_code (inspect_fetched checks repo local a root behavioral imports)
  unfolding inspect_fetched
  fetched-high a root true imports h =
      high-fails _ _ _ (rw (any-keep-append, static-high a root imports h))
  fetched-high a root false imports h = high-fails _ _ _ (static-high a root imports h)

  -- An artifact whose content hash is on the merged list never passes: the exit code of its
  -- inspection is 2 or more, whatever the other checks report.
  pub inspect_source-denylisted :
      (source : String) (kind : Option String) (behavioral : Bool) (imports : List String)
      → contains
          (checks.build kind source (checks.fetch_local source)).content_hash
          (merged repo local).hashes
        ≡ true
      → 2 ≤ exit_code (inspect_source checks repo local source kind behavioral imports)
  unfolding inspect_source
  inspect_source-denylisted source kind behavioral imports h =
      fetched-high _ _ behavioral imports (rw (check-high, h))
