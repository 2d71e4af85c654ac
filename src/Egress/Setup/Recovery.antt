-- ===== src/Egress/Setup/Recovery.antt =====
-- The recovery of src/zee/egress/engine.py when every key is lost: it waits, and it reopens everything.
use zee.Prelude.{
  ◌≡◌, refl, ◌≤◌, ◌+◌, ℕ, String, true, false, not, some, List, [], ◌∷◌, arith, ltb, Bool-cases,
  Option-cases, inl, inr,
}
use zee.Prelude.Exec.{Outcome, returned, raised, give, ◌>>=◌, resume}
use zee.Egress.World.{World, Env, Answer, edit, log, save}
use zee.Egress.Release.{closed, release}
use zee.Egress.Release.Reopened.{is_closed, release-nothing}
use zee.Egress.Setup.{recovery_complete, finish_recovery, recovery_wait, recovered, is_due}

pub record Recovered (w v : World) : Type 0 where
  pub started : ℕ
  pub is_start : w.state.recovery_start ≡ some started
  pub waited : started + recovery_wait ≤ w.now
  pub off : v.state.enabled ≡ false
  pub keyless : v.state.keys ≡ []
  pub reopened : (d : String) → is_closed d v ≡ false

-- Success is reported only after a release without a failure, and after the state was saved.
finished :
    (env : Env) (r : Outcome (List String) × World) (a : Answer)
    → (resume (finish_recovery env) r).0 ≡ returned a
    → a.ok ≡ true
    → (r.0 ≡ returned [])
      × ((resume (finish_recovery env) r).1.state ≡ recovered r.1.state)
      × (closed (resume (finish_recovery env) r).1 ≡ closed r.1)
unfolding finish_recovery give edit save log ◌>>=◌ resume closed
finished env (raised e, v) a h k = absurd (cc h)
finished env (returned (d ∷ ds), v) a h k = absurd (ground (arith, h))
finished env (returned [], v) a h k = elim (Bool-cases (env.save_fails v.saves)) [
  | inl e ↦ absurd (ground (arith, e))
  | inr e ↦ rw (e) (refl, refl, refl)
]

-- A recovery that reports success was started at least 72 hours before; it leaves approval off, no key,
-- and no destination held, waiting to be held or metered by a grant.
pub recovery_complete-Recovered :
    (env : Env) (w : World) (a : Answer)
    → (recovery_complete env w).0 ≡ returned a
    → a.ok ≡ true
    → Recovered w (recovery_complete env w).1
unfolding recovery_complete give ◌>>=◌
recovery_complete-Recovered env w a h k = elim (Option-cases w.state.recovery_start) [
  | inl e ↦ absurd (ground (arith, e))
  | inr (t, e) ↦ elim (Bool-cases (ltb w.now (t + recovery_wait))) [
    | inl b ↦ absurd (ground (arith, e, b))
    | inr b ↦
        let due : not (is_due w.now w.state.recovery_start) ≡ false = ground (arith, e, b) in
        let ran = rw (due) at h in
        let (released, state, same) = finished env (release env (closed w) w) a ran k in
        record {
          started = t;
          is_start = e;
          waited = ground (arith, b);
          off = rw (due) (ground (arith, state));
          keyless = rw (due) (ground (arith, state));
          reopened = λ d. rw (due, same) (release-nothing env d w released);
        }
  ]
]
