-- ===== src/Recovery/Firewall/Absent.antt =====
-- What confirmed firewall steps of src/zee/recovery/restore.py say of the tools on the host.
use zee.Prelude.{
  String, Bool, true, false, not, ◌&&◌, ◌||◌, ◌==◌, ◌≡◌, refl, inl, inr, Option, some, List, [],
  ◌∷◌, ◌++◌, arith, all, All, Option-cases, if◌then◌else◌,
}
use zee.Recovery.Host.{Command, Host, Step, is_confirmed, run}
use zee.Recovery.Firewall.{
  Backend, Group, groups_of, judge_absent, run_all, verify_backend, verify_backends, installed,
  is_empty, absent_step, group_steps, coverage_steps, token_steps, steps_of, firewall_steps,
}

abbrev pub confirmed : List Step → Bool
confirmed = all (λ step. is_confirmed step.1)

both : (a b : Bool) → (a && b) ≡ true → (a ≡ true) × (b ≡ true)
both a b h = (ground arith, ground arith)

pub confirmed-split :
    (ss ts : List Step)
    → confirmed (ss ++ ts) ≡ true
    → (confirmed ss ≡ true) × (confirmed ts ≡ true)
confirmed-split [] ts h = (refl, h)
confirmed-split (s ∷ ss) ts h = ground (arith, confirmed-split ss ts)

confirmed_of : (o : Option Bool) → is_confirmed o ≡ true → o ≡ some true
confirmed_of o h = ground (arith, h)

module _ (host : Host) where
  -- The listing of the tool, read after its removals, was no list of rules (pfctl lists an anchor even
  -- where it is empty), and its answer was judged to say that there is no rule of Zee.
  abbrev pub Absent : Backend → Type 0
  Absent b =
      (cs : List Command) × (let said =
          (run host b.tool b.listing (run_all host b.tool b.removals cs)).0 in
        ((b.tool == "pfctl" || not said.0) ≡ true) × (judge_absent host b.tool said ≡ some true))

  judge_absent-unlisted :
      (tool : String) (said : Bool × String)
      → judge_absent host tool said ≡ some true
      → (tool == "pfctl" || not said.0) ≡ true
  unfolding judge_absent
  judge_absent-unlisted tool (true, msg) h = ground (arith, h)
  judge_absent-unlisted tool (false, msg) h = ground arith

  verify_backends-Absent :
      (bs : List Backend) (cs : List Command)
      → confirmed (verify_backends host bs cs).0 ≡ true
      → All Absent bs
  unfolding verify_backends verify_backend
  verify_backends-Absent [] cs h = tt
  verify_backends-Absent (b ∷ bs) cs h =
      let (first, rest) = both _ _ h in
      let absent = confirmed_of _ first in
      (
        (cs, (judge_absent-unlisted b.tool _ absent, absent)),
        verify_backends-Absent bs (verify_backend host b cs).1 rest,
      )

  -- Every installed tool of the groups.
  abbrev pub AllAbsent : List Group → Type 0
  AllAbsent gs = All (λ g. All Absent (installed host g)) gs

  group_steps-Absent :
      (platform : String) (recorded : List String) (none_at_all : Bool) (gs : List Group)
      (cs : List Command)
      → confirmed (group_steps host platform recorded none_at_all gs cs).0 ≡ true
      → AllAbsent gs
  unfolding group_steps
  group_steps-Absent platform recorded none_at_all [] cs h = tt
  group_steps-Absent platform recorded none_at_all (g ∷ gs) cs h =
      let step = absent_step host platform recorded none_at_all g in
      let r : List Step × List Command =
        (if is_empty (installed host g)
          then (step ∷ [], cs)
          else verify_backends host (installed host g) cs) in
      let (first, rest) =
        confirmed-split r.0 (group_steps host platform recorded none_at_all gs r.1).0 h in
      (
        by_installed (installed host g) step cs first,
        group_steps-Absent platform recorded none_at_all gs r.1 rest,
      )
    where
      by_installed :
          (bs : List Backend) (s : Step) (cs : List Command)
          → confirmed (if is_empty bs then (s ∷ [], cs) else verify_backends host bs cs).0 ≡ true
          → All Absent bs
      by_installed [] s cs h = tt
      by_installed (b ∷ bs) s cs h = verify_backends-Absent (b ∷ bs) cs h

  steps_of-Absent :
      (platform : String) (recorded : List String) (gs : List Group) (cs : List Command)
      → confirmed (steps_of host platform recorded gs cs).0 ≡ true
      → AllAbsent gs
  unfolding steps_of
  steps_of-Absent platform recorded gs cs h =
      let none_at_all = all (λ g. is_empty (installed host g)) gs in
      let r = group_steps host platform recorded none_at_all gs cs in
      let c = coverage_steps host platform recorded r.1 in
      let t = token_steps host platform recorded c.1 in
      group_steps-Absent platform recorded none_at_all gs cs (confirmed-split r.0 (c.0 ++ t.0) h).0

  -- The steps can only all be confirmed on a platform that is supported, and where each of its
  -- firewall tools that is installed answered, after the removals, that there is no rule of Zee.
  pub firewall_steps-Absent :
      (platform : String) (recorded : List String) (cs : List Command)
      → confirmed (firewall_steps host platform recorded cs).0 ≡ true
      → (gs : List Group) × (groups_of platform ≡ some gs) × AllAbsent gs
  unfolding firewall_steps
  firewall_steps-Absent platform recorded cs h = elim (Option-cases (groups_of platform)) [
    | inl unsupported ↦ absurd (cc (rw (unsupported, firewall_steps) at h))
    | inr (gs, e) ↦ (gs, e, steps_of-Absent platform recorded gs cs (rw (e, firewall_steps) at h))
  ]
