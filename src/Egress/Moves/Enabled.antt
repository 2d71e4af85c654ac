-- ===== src/Egress/Moves/Enabled.antt =====
-- Which methods of src/zee/egress/engine.py leave approval on.
use zee.Prelude.{◌≡◌, refl, String, Bool, true, false, arith}
use zee.Prelude.Exec.{Order, Moves, throw, bind-Moves, throw-Moves}
use zee.Egress.State.{State}
use zee.Egress.World.{World, Env, log, save}
use zee.Egress.Release.Moves.{edit-Moves}
use zee.Egress.Setup.{
  setup, setup_allow, setup_protect, ack_single_key, bootstrap_key, enable, recovery_start,
}
use zee.Egress.Submit.{request_config}
use zee.Egress.Step.{
  Method, step, allows_at_setup, protects_at_setup, bootstraps, acks_single_key, enables, requests,
  submits, starts_recovery, completes_recovery, touches, observes, ticks, waits,
}
use zee.Egress.Moves.{request_valid-Moves, observe-Moves, touch-Moves, guarded}
use zee.Egress.Moves.Ticks.{tick-Moves}
use zee.Egress.Moves.State.{SameState, same_state, SameState-prims}

-- approval stays on
abbrev StaysOn : World → World → Type 0
StaysOn w v = w.state.enabled ≡ true → v.state.enabled ≡ true

stays_on : Order StaysOn
stays_on = record { stays = λ w h. h; compose = λ u v w p q h. q (p h) }

-- the two calls that may switch approval off
abbrev pub may_switch_off : Method → Bool
may_switch_off (submits _ _ _ _) = true
may_switch_off completes_recovery = true
may_switch_off _ = false

module _ (env : Env) where
  save-StaysOn : Moves StaysOn (save env)
  unfolding save
  save-StaysOn = record { along = λ w h. ground (arith, h) }

  setup-StaysOn : (change : State → State) (w : World) → StaysOn w (setup env change w).1
  unfolding setup throw
  setup-StaysOn change w h = rw (h) refl

  bootstrap_key-StaysOn : (k p : String) → Moves StaysOn (bootstrap_key env k p)
  unfolding bootstrap_key log
  bootstrap_key-StaysOn k p =
      guarded _ _ _ (λ w. throw-Moves stays_on _)
        (λ w.
          bind-Moves stays_on _ _ (edit-Moves _ (λ v h. h))
            (λ _. bind-Moves stays_on _ _ save-StaysOn (λ _. record { along = λ v h. h })))

  enable-StaysOn : Moves StaysOn (enable env)
  unfolding enable log
  enable-StaysOn =
      guarded _ _ _ (λ w. throw-Moves stays_on _)
        (λ w.
          bind-Moves stays_on _ _ (edit-Moves _ (λ v h. refl))
            (λ _. bind-Moves stays_on _ _ save-StaysOn (λ _. record { along = λ v h. h })))

  recovery_start-StaysOn : Moves StaysOn (recovery_start env)
  unfolding recovery_start log
  recovery_start-StaysOn = bind-Moves stays_on _ _ (edit-Moves _ (λ v h. h)) (λ _.
      bind-Moves stays_on _ _ save-StaysOn
        (λ _. bind-Moves stays_on _ _ (edit-Moves _ (λ v h. h)) (λ _. record { along = λ v h. h })))

  same-StaysOn : (w v : World) → SameState w v → StaysOn w v
  same-StaysOn w v s h = ground (arith, s.state, h)

  pub step-StaysOn : (m : Method) (w : World) → may_switch_off m ≡ false → StaysOn w (step env m w)
  unfolding step setup_allow setup_protect ack_single_key request_config
  step-StaysOn (allows_at_setup dest) w r = setup-StaysOn _ w
  step-StaysOn (protects_at_setup data_id) w r = setup-StaysOn _ w
  step-StaysOn (bootstraps k p) w r = (bootstrap_key-StaysOn k p).along w
  step-StaysOn acks_single_key w r = setup-StaysOn _ w
  step-StaysOn enables w r = enable-StaysOn.along w
  step-StaysOn (requests op args) w r =
      same-StaysOn w _ ((request_valid-Moves same_state env (SameState-prims env) _ op _).along w)
  step-StaysOn (submits p e k s) w r = absurd (cc r)
  step-StaysOn starts_recovery w r = recovery_start-StaysOn.along w
  step-StaysOn completes_recovery w r = absurd (cc r)
  step-StaysOn (touches data_id) w r =
      same-StaysOn w _ (touch-Moves same_state env (SameState-prims env) data_id w)
  step-StaysOn (observes f) w r =
      same-StaysOn w _ ((observe-Moves same_state env (SameState-prims env) f).along w)
  step-StaysOn ticks w r =
      same-StaysOn w _ ((tick-Moves same_state env (SameState-prims env)).along w)
  step-StaysOn (waits n) w r = λ h. h
