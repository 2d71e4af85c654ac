-- ===== src/Gate/Audit/Drift.antt =====
-- Drift found by src/zee/gate/audit.py, and what it does to later inspections.
use mathlib.Core.Path.{ap₂}
use zee.Prelude.{
  ◌≤◌, String, Bool, true, false, not, ◌&&◌, ◌||◌, ◌≡◌, refl, ap, ◌∙◌, Option, none, some, List, [],
  ◌∷◌, arith, any, ◌==◌, eq_iff, contains, truthy, if◌then◌else◌,
}
use zee.Gate.Model
use zee.Gate.Model.{Artifact}
use zee.Gate.Denylist.{Lists, merged}
use zee.Gate.Denylist.Laws.{contains-add_local}
use zee.Gate.Inspector.{Checks, inspect_source}
use zee.Gate.Inspector.Verdicts.{inspect_source-denylisted}
use zee.Gate.Pins.{Pin, all_pins}
use zee.Gate.Audit.{is_drifted, is_missing, exit_code, Disk, audit_hash, audit_list, audit_pins}

-- A hash that is neither empty nor the pinned one stands in the install directory.
abbrev pub hash_drifted : Pin → Option String → Bool
hash_drifted p none = false
hash_drifted p (some h) = not (h == p.content_hash)

abbrev pub hash_missing : Option String → Bool
hash_missing none = true
hash_missing (some h) = false

-- The hash is `s`, which is not empty and not the pinned one.
abbrev pub hash_is : String → Pin → Option String → Bool
hash_is s p none = false
hash_is s p (some h) = not (h == p.content_hash) && s == h && truthy s

contains_one : (s h : String) → contains s (h ∷ []) ≡ (s == h)
unfolding contains
contains_one s h = ground arith

or_assoc : (a b c : Bool) → ((a || b) || c) ≡ (a || (b || c))
or_assoc a b c = ground arith

module _ (disk : Disk) (repo : Lists) (rescan : Bool) where
  abbrev pub pin_drifted : Pin → Bool
  pin_drifted p = hash_drifted p (disk.tree_hash p.install_dir)

  abbrev pub pin_missing : Pin → Bool
  pin_missing p = hash_missing (disk.tree_hash p.install_dir)

  audit_hash-flags :
      (p : Pin) (o : Option String) (local : Lists)
      → (is_drifted (audit_hash disk repo rescan p o local).0 ≡ hash_drifted p o)
        × (is_missing (audit_hash disk repo rescan p o local).0 ≡ hash_missing o)
  unfolding audit_hash
  audit_hash-flags p none local = (refl, refl)
  audit_hash-flags p (some h) local = ground arith

  audit_list-flags :
      (ps : List Pin) (local : Lists)
      → (any is_drifted (audit_list disk repo rescan ps local).0 ≡ any pin_drifted ps)
        × (any is_missing (audit_list disk repo rescan ps local).0 ≡ any pin_missing ps)
  unfolding audit_list
  audit_list-flags [] local = (refl, refl)
  audit_list-flags (p ∷ ps) local =
      let o = disk.tree_hash p.install_dir in
      let (d, m) = audit_hash-flags p o local in
      let (ds, ms) = audit_list-flags ps (audit_hash disk repo rescan p o local).1 in
      (ap₂ (λ a b. a || b) d ds, ap₂ (λ a b. a || b) m ms)

  -- The audit exits with 2 exactly if the tree of some pinned install directory hashes to something
  -- other than its latest pin, with 1 if none does but some directory is gone, and else with 0.
  pub audit_pins-exit_code :
      (recs : List Pin) (local : Lists)
      → exit_code (audit_pins disk repo rescan recs local).0 ≡ (
          if any pin_drifted (all_pins recs)
          then 2
          else if any pin_missing (all_pins recs)
          then 1
          else 0)
  unfolding exit_code audit_pins
  audit_pins-exit_code recs local = let (d, m) = audit_list-flags (all_pins recs) local in rw (d, m)

  -- The pin's install directory hashes to `s`, which is not empty and not the pinned hash.
  abbrev pub drifts_to : String → Pin → Bool
  drifts_to s p = hash_is s p (disk.tree_hash p.install_dir)

  audit_hash-grows :
      (s : String) (p : Pin) (o : Option String) (local : Lists)
      → contains s (merged repo (audit_hash disk repo rescan p o local).1).hashes
        ≡ (contains s (merged repo local).hashes || hash_is s p o)
  unfolding audit_hash
  audit_hash-grows s p none local = ground arith
  audit_hash-grows s p (some h) local = ground (
    arith,
    contains-add_local s repo local (h ∷ []) [],
    contains_one s h,
    eq_iff h p.content_hash,
  )

  audit_list-grows :
      (s : String) (ps : List Pin) (local : Lists)
      → contains s (merged repo (audit_list disk repo rescan ps local).1).hashes
        ≡ (contains s (merged repo local).hashes || any (drifts_to s) ps)
  unfolding audit_list
  audit_list-grows s [] local = ground arith
  audit_list-grows s (p ∷ ps) local =
      let o = disk.tree_hash p.install_dir in
      let here = audit_hash-grows s p o local in
      let rest = audit_list-grows s ps (audit_hash disk repo rescan p o local).1 in
      rest
      ∙ (ap (λ b. b || any (drifts_to s) ps) here
          ∙ or_assoc (contains s (merged repo local).hashes) (drifts_to s p) (any (drifts_to s) ps))

  -- After an audit the merged list of hashes holds what it held before and the hash of every drifted
  -- install directory, and nothing else.
  pub audit_pins-denylists :
      (s : String) (recs : List Pin) (local : Lists)
      → contains s (merged repo (audit_pins disk repo rescan recs local).1).hashes
        ≡ (contains s (merged repo local).hashes || any (drifts_to s) (all_pins recs))
  unfolding audit_pins
  audit_pins-denylists s recs local = audit_list-grows s (all_pins recs) local

  -- Once an audit has found a pinned install that drifted to some bytes, no artifact with the hash
  -- of those bytes passes the gate on this machine: its inspection exits with 2 or more.
  pub rug_pull_blocked :
      (checks : Checks) (recs : List Pin) (local : Lists) (source : String) (kind : Option String)
      (behavioral : Bool) (imports : List String)
      → any
          (drifts_to (checks.build kind source (checks.fetch_local source)).content_hash)
          (all_pins recs)
        ≡ true
      → 2
        ≤ Model.exit_code (
            inspect_source checks repo
              (audit_pins disk repo rescan recs local).1
              source
              kind
              behavioral
              imports)
  rug_pull_blocked checks recs local source kind behavioral imports h =
      inspect_source-denylisted checks repo (audit_pins disk repo rescan recs local).1 source kind
        behavioral imports (audit_pins-denylists _ recs local ∙ ground (arith, h))
