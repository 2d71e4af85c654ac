-- ===== src/Gate/Promote.antt =====
-- src/zee/gate/inspector.py, `promote_if_low`: from quarantine into the install directory.
-- The file system answers through `Files`; the copy itself is the effect that is returned.
use zee.Prelude.{
  String, Bool, true, false, not, ◌&&◌, ◌||◌, ◌≡◌, refl, sym, ap, ◌∙◌, Option, none, some, List,
  ◌==◌, ◌<>◌, arith, all, eq_iff, starts_with, truthy, if◌then◌else◌,
}
use zee.Gate.Model.{Verdict, RiskLevel, InspectionStatus}

-- What `pathlib` and the disk answer.
pub record Files : Type 0 where
  pub resolve : String → String
  pub parent : String → String
  pub join : String → String → String
  pub expand_user : String → String
  pub name_of : String → String
  pub exists : String → Bool
  -- for every link below the directory, where it resolves to; `none` is an OSError
  pub links : String → List (Option String)

pub data Outcome : Type 0 where
  incomplete not_low no_root unsafe_name link_escapes dest_escapes dest_exists : Outcome
  copied : String → String → Outcome  -- from the quarantine root, to the destination

abbrev is_complete : InspectionStatus → Bool
is_complete InspectionStatus.complete = true
is_complete _ = false

abbrev is_low : RiskLevel → Bool
is_low RiskLevel.low = true
is_low _ = false

complete_of : (s : InspectionStatus) → is_complete s ≡ true → s ≡ InspectionStatus.complete
complete_of s h = ground arith

low_of : (r : RiskLevel) → is_low r ≡ true → r ≡ RiskLevel.low
low_of r h = ground arith

module _ (fs : Files) where
  -- a link target inside the root
  unfoldable pub inside : String → Option String → Bool
  inside root none = false
  inside root (some target) = target == root || starts_with target (root <> "/")

  abbrev pub plain_name : String → Bool
  plain_name name = not (name == "" || name == "." || name == "..") && fs.name_of name == name

  copy_tree : String → String → String → Outcome
  copy_tree root base name =
      let dest = fs.join base name in
      if not (fs.parent (fs.resolve dest) == fs.resolve base)
      then dest_escapes
      else if fs.exists dest
      then dest_exists
      else copied root dest

  promote_from : String → String → String → Outcome
  unfolding copy_tree inside
  promote_from root name dest_dir =
      if not (plain_name name)
      then unsafe_name
      else if not (all (inside (fs.resolve root)) (fs.links root))
      then link_escapes
      else copy_tree root (fs.expand_user dest_dir) name

  -- `if not verdict.artifact.root`: None and the empty text alike
  promote_root : Option String → String → String → Outcome
  unfolding promote_from truthy
  promote_root none name dest_dir = no_root
  promote_root (some root) name dest_dir =
      if truthy root then promote_from root name dest_dir else no_root

  unfoldable pub promote_if_low : Verdict → String → Outcome
  unfolding promote_root
  promote_if_low v dest_dir =
      if not (is_complete v.inspection)
      then incomplete
      else if not (is_low v.risk_level)
      then not_low
      else promote_root v.artifact.root v.artifact.name dest_dir

  -- What stands behind a copy from `root` to `dest`.
  pub record IsSafeCopy (v : Verdict) (dest_dir root dest : String) : Type 0 where
    pub fully_inspected : v.inspection ≡ InspectionStatus.complete
    pub low_risk : v.risk_level ≡ RiskLevel.low
    pub from_quarantine : v.artifact.root ≡ some root
    pub one_component : plain_name v.artifact.name ≡ true
    pub links_inside : all (inside (fs.resolve root)) (fs.links root) ≡ true
    pub named_dest : dest ≡ fs.join (fs.expand_user dest_dir) v.artifact.name
    pub direct_child : fs.parent (fs.resolve dest) ≡ fs.resolve (fs.expand_user dest_dir)
    pub fresh : fs.exists dest ≡ false

  promote_from-copied :
      (root name dest_dir r d : String)
      → promote_from root name dest_dir ≡ copied r d
      → (r ≡ root)
        × (plain_name name ≡ true)
        × (all (inside (fs.resolve root)) (fs.links root) ≡ true)
        × (d ≡ fs.join (fs.expand_user dest_dir) name)
        × ((fs.parent (fs.resolve d) == fs.resolve (fs.expand_user dest_dir)) ≡ true)
        × (fs.exists d ≡ false)
  unfolding promote_from
  promote_from-copied root name dest_dir r d h = ground arith

  promote_root-copied :
      (root : Option String) (name dest_dir r d : String)
      → promote_root root name dest_dir ≡ copied r d
      → (q : String) × (root ≡ some q) × (promote_from q name dest_dir ≡ copied r d)
  unfolding promote_root
  promote_root-copied none name dest_dir r d h = absurd (cc h)
  promote_root-copied (some q) name dest_dir r d h = (q, refl, ground arith)

  -- A tree is copied into the install directory only if the inspection was complete and the verdict
  -- LOW, from the verdict's own quarantine root, under the artifact's name, which is one plain path
  -- component, with no link that leaves the tree, to a direct child of the install directory that
  -- does not exist yet.
  pub promote_if_low-IsSafeCopy :
      (v : Verdict) (dest_dir root dest : String)
      → promote_if_low v dest_dir ≡ copied root dest
      → IsSafeCopy v dest_dir root dest
  unfolding promote_if_low
  promote_if_low-IsSafeCopy v dest_dir root dest h =
      let low : (is_complete v.inspection ≡ true)
          × (is_low v.risk_level ≡ true)
          × (promote_root v.artifact.root v.artifact.name dest_dir ≡ copied root dest) =
        (ground arith, ground arith, ground arith) in
      let (q, e, from) =
        promote_root-copied v.artifact.root v.artifact.name dest_dir root dest low.2 in
      let (same, plain, links, named, child, fresh) =
        promote_from-copied q v.artifact.name dest_dir root dest from in
      record {
        fully_inspected = complete_of v.inspection low.0;
        low_risk = low_of v.risk_level low.1;
        from_quarantine = e ∙ ap some (sym same);
        one_component = plain;
        links_inside = rw same links;
        named_dest = named;
        direct_child = (eq_iff _ _).0 child;
        fresh = fresh;
      }
