-- ===== src/Egress/Grants.antt =====
-- No method of src/zee/egress/engine.py but `submit` opens a destination or gives a grant more volume
-- or more time.
pub mod Submitted
pub mod Volume
pub mod Passed
pub mod Opened
use zee.Prelude.{
  ◌≡◌, refl, ◌≤◌, ℕ, String, Bool, true, false, not, ◌&&◌, Option, none, some, List, [], ◌∷◌, ◌==◌,
  arith, nat_eq, leb, is_some, eq_iff, if◌then◌else◌, Bool-cases, Option-cases, inl, inr, ◌-◌,
}
use zee.Prelude.Dict.{Dict, lookup, put, pop, lookup-put, lookup-pop}
use zee.Prelude.Exec.{
  Exec, Order, Moves, give, throw, attempt, ◌>>=◌, ◌>>◌, bind-Moves, attempt-Moves, give-Moves,
  throw-Moves, if-Moves,
}
use zee.Prelude.Json.{Fields, end}
use zee.Egress.Payload.{Request, Body}
use zee.Egress.World.{World, Env, Flow, Grant, Call, Entry, edit, log, save, enforce}
use zee.Egress.Release.{forget, release, release_closed}
use zee.Egress.Release.Moves.{edit-Moves}
use zee.Egress.Setup.{
  setup, setup_allow, setup_protect, bootstrap_key, ack_single_key, enable, recovery_start,
  recovery_complete, finish_recovery,
}
use zee.Egress.Watch.{meter}
use zee.Egress.Moves.{Primitives, guarded, release-Moves}

-- A grant beside the one that the destination had before: the same deadline, and no more volume.
abbrev pub at_most : Option Grant → Option Grant → Bool
at_most none _ = true
at_most (some h) none = false
at_most (some h) (some g) = nat_eq h.until g.until && leb h.remaining g.remaining

abbrev pub Shrinks : World → World → Type 0
Shrinks w v = (d : String) → at_most (lookup d v.grants) (lookup d w.grants) ≡ true

at_most_refl : (g : Option Grant) → at_most g g ≡ true
at_most_refl none = refl
at_most_refl (some g) = ground arith

pub at_most_trans :
    (f g h : Option Grant) → at_most f g ≡ true → at_most g h ≡ true → at_most f h ≡ true
at_most_trans none g h p q = refl
at_most_trans (some f) none h p q = absurd (cc p)
at_most_trans (some f) (some g) none p q = absurd (cc q)
at_most_trans (some f) (some g) (some h) p q = ground arith

pub shrinking : Order Shrinks
shrinking = record {
  stays = λ w d. at_most_refl (lookup d w.grants);
  compose = λ u v w p q d. at_most_trans _ (lookup d v.grants) _ (q d) (p d);
}

pub pop-Shrinks : (d : String) (w : World) → Shrinks w (record w { grants = pop d w.grants })
pop-Shrinks d w k = ground (arith, lookup-pop k d w.grants, at_most_refl (lookup k w.grants))

meter-Shrinks : (f : Flow) (w : World) → Shrinks w (meter f (lookup f.dest w.grants) w)
unfolding meter
meter-Shrinks f w k = elim (Option-cases (lookup f.dest w.grants)) [
  | inl e ↦ rw (e) (at_most_refl (lookup k w.grants))
  | inr (g, e) ↦ ground (
    arith,
    e,
    lookup-put k f.dest (record g { remaining = g.remaining - f.bytes_out }) w.grants,
    at_most_refl (lookup k w.grants),
    eq_iff k f.dest,
  )
]

module _ (env : Env) where
  pub enforce-Shrinks : (c : Call) → Moves Shrinks (enforce env c)
  unfolding enforce
  enforce-Shrinks c = record { along = λ w k. ground (arith, at_most_refl (lookup k w.grants)) }

  pub log-Shrinks : (e : Entry) → Moves Shrinks (log e)
  unfolding log
  log-Shrinks e = record { along = λ w. shrinking.stays w }

  pub save-Shrinks : Moves Shrinks (save env)
  unfolding save
  save-Shrinks = record { along = λ w k. ground (arith, at_most_refl (lookup k w.grants)) }

  -- an edit that leaves the grants
  pub frame : (f : World → World) → ((w : World) → (f w).grants ≡ w.grants) → Moves Shrinks (edit f)
  frame f h = edit-Moves f (λ w k. ground (arith, h w, at_most_refl (lookup k w.grants)))

  -- an edit that leaves the grants, and the rest of a block
  pub then_frame :
      {B : Type 0} (f : World → World) (m : Exec World B)
      → ((w : World) → (f w).grants ≡ w.grants)
      → Moves Shrinks m
      → Moves Shrinks (edit f >> m)
  then_frame f m h hm = bind-Moves shrinking _ _ (frame f h) (λ _. hm)

  save-log-Shrinks : (e : Entry) → Moves Shrinks (save env >> log e)
  save-log-Shrinks e = bind-Moves shrinking _ _ save-Shrinks (λ _. log-Shrinks e)

  pub forget-Shrinks : (d : String) (w : World) → Shrinks w (forget d w)
  unfolding forget
  forget-Shrinks d w = pop-Shrinks d w

  pub Shrinks-prims : Primitives Shrinks env
  Shrinks-prims = record {
    calls = enforce-Shrinks;
    logs = log-Shrinks;
    forgets = forget-Shrinks;
    meters = meter-Shrinks;
    pops = pop-Shrinks;
    loose = λ w v h k. ground (arith, h.grants, at_most_refl (lookup k w.grants));
  }

  pub setup-Shrinks : (change : _) → Moves Shrinks (setup env change)
  unfolding setup
  setup-Shrinks change =
      guarded _ _ _ (λ w. throw-Moves shrinking _) (λ w. then_frame _ _ (λ v. refl) save-Shrinks)

  pub bootstrap_key-Shrinks : (k p : String) → Moves Shrinks (bootstrap_key env k p)
  unfolding bootstrap_key
  bootstrap_key-Shrinks k p =
      guarded _ _ _ (λ w. throw-Moves shrinking _)
        (λ w. then_frame _ _ (λ v. refl) (save-log-Shrinks _))

  pub enable-Shrinks : Moves Shrinks (enable env)
  unfolding enable
  enable-Shrinks =
      guarded _ _ _ (λ w. throw-Moves shrinking _)
        (λ w. then_frame _ _ (λ v. refl) (save-log-Shrinks _))

  pub recovery_start-Shrinks : Moves Shrinks (recovery_start env)
  unfolding recovery_start
  recovery_start-Shrinks =
      then_frame _ _ (λ v. refl)
        (bind-Moves shrinking _ _ save-Shrinks (λ _. then_frame _ _ (λ v. refl) (log-Shrinks _)))

  finish_recovery-Shrinks : (ds : List String) → Moves Shrinks (finish_recovery env ds)
  unfolding finish_recovery
  finish_recovery-Shrinks [] =
      then_frame _ _ (λ v. refl)
        (bind-Moves shrinking _ _ save-Shrinks
          (λ _. bind-Moves shrinking _ _ (log-Shrinks _) (λ _. give-Moves shrinking _)))
  finish_recovery-Shrinks (d ∷ ds) = give-Moves shrinking _

  pub recovery_complete-Shrinks : Moves Shrinks (recovery_complete env)
  unfolding recovery_complete
  recovery_complete-Shrinks =
      guarded _ _ _ (λ w. give-Moves shrinking _)
        (λ w.
          bind-Moves shrinking _ _ (release-Moves shrinking env Shrinks-prims _)
            finish_recovery-Shrinks)
