-- ===== src/Egress/Watch/Reports.antt =====
-- What src/zee/egress/engine.py, `observe`, lets through, and that it reports every shaped flow first.
use zee.Prelude.{
  ◌≡◌, refl, false, ◌&&◌, ◌||◌, not, is_some, arith, true, Bool, contains, Option-cases, inl, inr,
}
use zee.Prelude.Dict.{lookup}
use zee.Prelude.Exec.{Outcome, returned, raised, resume, give, ◌>>=◌}
use zee.Egress.World.{World, Env, Flow, Verdict, edit, log}
use zee.Egress.Watch.{
  classify, observe, judged, prune, switched, decide_flow, hold_flow, drop_grant, covers_flow,
}
use zee.Egress.Step.{passed, notified, is_held, has_failed}

-- what holds or raises passes nothing
resume-hold :
    (f : Flow) (r : Outcome (Unit {0}) × World) → passed (resume (λ _. drop_grant f) r).0 ≡ false
unfolding resume ◌>>=◌ edit give drop_grant
resume-hold f (returned _, v) = refl
resume-hold f (raised e, v) = refl

switched-pass :
    (env : Env) (f : Flow) (w : World)
    → passed (switched env f w).0 ≡ (w.state.enabled && covers_flow w f (lookup f.dest w.grants))
unfolding switched decide_flow resume ◌>>=◌ edit give
switched-pass env f w = ground (arith, resume-hold f (hold_flow env f w))

-- a flow passes exactly where its shape is harmless or a grant covers it
pub observe-pass :
    (env : Env) (f : Flow) (w : World)
    → passed (observe env f w).0 ≡ (
        not (is_some (classify env f w))
        || (w.state.enabled && covers_flow w f (lookup f.dest w.grants)))
unfolding observe judged ◌>>=◌ resume edit give log prune covers_flow
observe-pass env f w = elim (Option-cases (classify env f w)) [
  | inl e ↦ rw (e) refl
  | inr (reason, e) ↦ rw (e) (switched-pass env f _)
]

-- what closing a destination and the rest of a hold come to
resume-notify :
    (f : Flow) (r : Outcome (Unit {0}) × World) → notified (resume (λ _. drop_grant f) r).0 ≡ false
unfolding resume ◌>>=◌ edit give drop_grant
resume-notify f (returned _, v) = refl
resume-notify f (raised e, v) = refl

switched-notify :
    (env : Env) (f : Flow) (w : World) → notified (switched env f w).0 ≡ not w.state.enabled
unfolding switched decide_flow resume ◌>>=◌ edit give
switched-notify env f w = ground (arith, resume-notify f (hold_flow env f w))

pub observe-notify :
    (env : Env) (f : Flow) (w : World)
    → notified (observe env f w).0 ≡ (is_some (classify env f w) && not w.state.enabled)
unfolding observe judged ◌>>=◌ resume edit give log prune
observe-notify env f w = elim (Option-cases (classify env f w)) [
  | inl e ↦ rw (e) refl
  | inr (reason, e) ↦ rw (e) (switched-notify env f _)
]

-- where a flow is held, its destination is
abbrev is_shut : Flow → Outcome Verdict × World → Bool
is_shut f r = not (is_held r.0) || contains f.dest r.1.held

abbrev has_returned : Outcome (Unit {0}) → Bool
has_returned (returned _) = true
has_returned (raised _) = false

-- the answer of `observe`, whatever it is
pub record IsJudged (env : Env) (f : Flow) (w : World) : Type 0 where
  pub pass : passed (observe env f w).0 ≡ (
      not (is_some (classify env f w))
      || (w.state.enabled && covers_flow w f (lookup f.dest w.grants)))
  pub notify : notified (observe env f w).0 ≡ (is_some (classify env f w) && not w.state.enabled)
  pub hold : (is_held (observe env f w).0 || has_failed (observe env f w).0) ≡ (
      is_some (classify env f w)
      && w.state.enabled
      && not (covers_flow w f (lookup f.dest w.grants)))
  pub shut : (not (is_held (observe env f w).0) || contains f.dest (observe env f w).1.held) ≡ true
