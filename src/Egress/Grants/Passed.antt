-- ===== src/Egress/Grants/Passed.antt =====
-- The volume that src/zee/egress/engine.py lets go on is at most the volume that was signed.
use zee.Prelude.{
  ◌≡◌, refl, subst, ◌≤◌, ◌+◌, ◌-◌, inl, inr, ℕ, String, Bool, true, false, not, ◌&&◌, ◌||◌, nat_eq,
  Option, none, some, List, [], ◌∷◌, ◌==◌, arith, is_some, all, eq_iff, eq_refl, Bool-cases,
  Option-cases, if◌then◌else◌, Dict.lookup, Dict.lookup-put,
}
use zee.Prelude.Exec.{give, ◌>>=◌, resume}
use zee.Egress.World.{World, Env, Flow, Grant, edit, log}
use zee.Egress.Watch.{classify, observe, judged, switched, decide_flow, covers_flow, meter, prune}
use zee.Egress.Watch.Reports.{observe-pass, observe-notify}
use zee.Egress.Step.{Method, step, is_submit, passed, goes_on, submits, observes}
use zee.Egress.Grants.{at_most}
use zee.Egress.Moves.Enabled.{may_switch_off, step-StaysOn}
use zee.Egress.Grants.Volume.{step-Shrinks}

abbrev pub left : Option Grant → ℕ
left none = 0
left (some g) = g.remaining

-- a shaped flow to `d` that went on: passed, or only notified
abbrev went_on : Env → Flow → String → World → Bool
went_on env f d w = (f.dest == d) && is_some (classify env f w) && goes_on (observe env f w).0

unfoldable pub bytes_now : Env → String → Method → World → ℕ
bytes_now env d (observes f) w = if went_on env f d w then f.bytes_out else 0
bytes_now env d m w = 0

unfoldable pub flows_now : Env → String → Method → World → ℕ
flows_now env d (observes f) w = if went_on env f d w then 1 else 0
flows_now env d m w = 0

-- the bytes of the shaped flows to `d` that went on in the calls
unfoldable pub passed_bytes : Env → String → List Method → World → ℕ
passed_bytes env d [] w = 0
passed_bytes env d (m ∷ ms) w = bytes_now env d m w + passed_bytes env d ms (step env m w)

-- and their number
unfoldable pub passed_flows : Env → String → List Method → World → ℕ
passed_flows env d [] w = 0
passed_flows env d (m ∷ ms) w = flows_now env d m w + passed_flows env d ms (step env m w)

at_most-left : (h g : Option Grant) → at_most h g ≡ true → left h ≤ left g
at_most-left none g p = omega arith
at_most-left (some h) none p = absurd (cc p)
at_most-left (some h) (some g) p = ground arith

switched-left :
    (env : Env) (f : Flow) (w : World)
    → (w.state.enabled && covers_flow w f (lookup f.dest w.grants)) ≡ true
    → f.bytes_out + left (lookup f.dest (switched env f w).1.grants) ≤ left (lookup f.dest w.grants)
unfolding switched decide_flow meter covers_flow ◌>>=◌ resume edit give
switched-left env f w h = elim (Option-cases (lookup f.dest w.grants)) [
  | inl e ↦ ground (arith, e)
  | inr (g, e) ↦ ground (
    arith,
    e,
    lookup-put f.dest f.dest (record g { remaining = g.remaining - f.bytes_out }) w.grants,
    eq_refl f.dest,
  )
]

metered-observe :
    (env : Env) (f : Flow) (w : World)
    → (is_some (classify env f w) && passed (observe env f w).0) ≡ true
    → f.bytes_out + left (lookup f.dest (observe env f w).1.grants) ≤ left (lookup f.dest w.grants)
unfolding observe judged ◌>>=◌ resume edit give log prune covers_flow
metered-observe env f w h = elim (Option-cases (classify env f w)) [
  | inl e ↦ ground (arith, e)
  | inr (reason, e) ↦ rw (e) (switched-left env f _ (ground (arith, e, observe-pass env f w)))
]

shrunk-left :
    (env : Env) (d : String) (m : Method) (w : World)
    → is_submit m ≡ false
    → left (lookup d (step env m w).grants) ≤ left (lookup d w.grants)
shrunk-left env d m w h =
    at_most-left (lookup d (step env m w).grants) (lookup d w.grants) (step-Shrinks env m w h d)

only_passed :
    (env : Env) (f : Flow) (w : World)
    → w.state.enabled ≡ true
    → goes_on (observe env f w).0 ≡ passed (observe env f w).0
only_passed env f w on = ground (arith, observe-notify env f w, on)

observed-left :
    (env : Env) (d : String) (f : Flow) (w : World)
    → w.state.enabled ≡ true
    → bytes_now env d (observes f) w + left (lookup d (step env (observes f) w).grants)
      ≤ left (lookup d w.grants)
unfolding bytes_now step
observed-left env d f w on = elim (Bool-cases (went_on env f d w)) [
  | inl e ↦
      let same : f.dest ≡ d = ground (arith, e, eq_iff f.dest d) in
      rw (e) (
        subst
          (λ k. f.bytes_out + left (lookup k (observe env f w).1.grants) ≤ left (lookup k w.grants))
          same (metered-observe env f w (ground (arith, e, only_passed env f w on))))
  | inr e ↦ rw (e) (omega (arith, shrunk-left env d (observes f) w refl))
]

step-left :
    (env : Env) (d : String) (m : Method) (w : World)
    → may_switch_off m ≡ false
    → w.state.enabled ≡ true
    → bytes_now env d m w + left (lookup d (step env m w).grants) ≤ left (lookup d w.grants)
unfolding bytes_now
step-left env d (observes f) w h on = observed-left env d f w on
step-left env d (submits _ _ _ _) w h on = absurd (cc h)
step-left env d m w h on = omega (arith, shrunk-left env d m w refl)

no_grant : (h g : Option Grant) → at_most h g ≡ true → g ≡ none → h ≡ none
no_grant none g p e = refl
no_grant (some h) none p e = absurd (cc p)
no_grant (some h) (some g) p e = absurd (cc e)

observed-none :
    (env : Env) (d : String) (f : Flow) (w : World)
    → w.state.enabled ≡ true
    → lookup d w.grants ≡ none
    → flows_now env d (observes f) w ≡ 0
unfolding flows_now covers_flow
observed-none env d f w on e = elim (Bool-cases (went_on env f d w)) [
  | inr h ↦ rw (h) refl
  | inl h ↦
      let same : f.dest ≡ d = ground (arith, h, eq_iff f.dest d) in
      let free : lookup f.dest w.grants ≡ none = rw (same) e in
      absurd (ground (arith, h, only_passed env f w on, observe-pass env f w, free))
]

step-none :
    (env : Env) (d : String) (m : Method) (w : World)
    → may_switch_off m ≡ false
    → w.state.enabled ≡ true
    → lookup d w.grants ≡ none
    → (flows_now env d m w ≡ 0) × (lookup d (step env m w).grants ≡ none)
unfolding flows_now
step-none env d (observes f) w h on e = (
  observed-none env d f w on e,
  no_grant _ (lookup d w.grants) (step-Shrinks env (observes f) w refl d) e,
)
step-none env d (submits _ _ _ _) w h on e = absurd (cc h)
step-none env d m w h on e = (refl, no_grant _ (lookup d w.grants) (step-Shrinks env m w refl d) e)

-- at most what was left
bytes-le-left :
    (env : Env) (d : String) (ms : List Method) (w : World)
    → w.state.enabled ≡ true
    → all (λ m. not (may_switch_off m)) ms ≡ true
    → passed_bytes env d ms w ≤ left (lookup d w.grants)
unfolding passed_bytes
bytes-le-left env d [] w on h = omega arith
bytes-le-left env d (m ∷ ms) w on h = omega (
  arith,
  step-left env d m w (ground arith) on,
  bytes-le-left env d ms (step env m w) (step-StaysOn env m w (ground arith) on) (ground arith),
)

-- and nothing where there was no grant
passed_flows-none :
    (env : Env) (d : String) (ms : List Method) (w : World)
    → w.state.enabled ≡ true
    → all (λ m. not (may_switch_off m)) ms ≡ true
    → lookup d w.grants ≡ none
    → passed_flows env d ms w ≡ 0
unfolding passed_flows
passed_flows-none env d [] w on h e = refl
passed_flows-none env d (m ∷ ms) w on h e =
    let (here, still) = step-none env d m w (ground arith) on e in
    let later =
      passed_flows-none env d ms (step env m w) (step-StaysOn env m w (ground arith) on)
        (ground arith) still in
    rw (here, later) refl

-- While approval is on, no answer is submitted and no recovery is completed, the shaped flows to a
-- destination that go on, passed or notified, have together at most the bytes that its grant had left;
-- where there is no grant, none goes on, not even one of no bytes.
pub passed_bytes-le-left :
    (env : Env) (d : String) (ms : List Method) (w : World)
    → w.state.enabled ≡ true
    → all (λ m. not (may_switch_off m)) ms ≡ true
    → (passed_bytes env d ms w ≤ left (lookup d w.grants))
      × ((is_some (lookup d w.grants) || nat_eq (passed_flows env d ms w) 0) ≡ true)
passed_bytes-le-left env d ms w on h = (
  bytes-le-left env d ms w on h,
  elim (Option-cases (lookup d w.grants)) [
    | inl e ↦ rw (e, passed_flows-none env d ms w on h e) refl
    | inr (g, e) ↦ rw (e) refl
  ],
)
