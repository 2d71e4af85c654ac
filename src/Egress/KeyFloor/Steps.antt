-- ===== src/Egress/KeyFloor/Steps.antt =====
-- The key floor of src/zee/egress/engine.py along any calls.
use zee.Prelude.{◌≡◌, true, List, [], ◌∷◌}
use zee.Egress.World.{World, Env}
use zee.Egress.Submit.{request_config}
use zee.Egress.Step.{
  Method, step, run, allows_at_setup, protects_at_setup, bootstraps, acks_single_key, enables,
  requests, submits, starts_recovery, completes_recovery, touches, observes, ticks, waits,
}
use zee.Egress.Moves.{request_valid-Moves, observe-Moves, touch-Moves}
use zee.Egress.Moves.Ticks.{tick-Moves}
use zee.Egress.Moves.State.{same_state, SameState-prims}
use zee.Egress.KeyFloor.{
  spared, same-spared, setup_allow-spared, setup_protect-spared, ack_single_key-spared,
  bootstrap_key-spared, enable-spared, recovery_start-spared, recovery_complete-spared,
}
use zee.Egress.KeyFloor.Submitted.{submit-spared}

pub step-spared :
    (env : Env) (m : Method) (w : World) → spared w ≡ true → spared (step env m w) ≡ true
unfolding step request_config
step-spared env (allows_at_setup dest) w h = setup_allow-spared env dest w h
step-spared env (protects_at_setup data_id) w h = setup_protect-spared env data_id w h
step-spared env (bootstraps key_id public_key) w h = bootstrap_key-spared env key_id public_key w h
step-spared env acks_single_key w h = ack_single_key-spared env w h
step-spared env enables w h = enable-spared env w h
step-spared env (requests op args) w h =
    same-spared w _ ((request_valid-Moves same_state env (SameState-prims env) _ op _).along w) h
step-spared env (submits p e k s) w h = submit-spared env p e k s w h
step-spared env starts_recovery w h = recovery_start-spared env w h
step-spared env completes_recovery w h = recovery_complete-spared env w h
step-spared env (touches data_id) w h =
    same-spared w _ (touch-Moves same_state env (SameState-prims env) data_id w) h
step-spared env (observes f) w h =
    same-spared w _ ((observe-Moves same_state env (SameState-prims env) f).along w) h
step-spared env ticks w h =
    same-spared w _ ((tick-Moves same_state env (SameState-prims env)).along w) h
step-spared env (waits n) w h = h

-- Whatever is called, in whatever order and with whatever failures of the enforcer and of the disk:
-- where approval is on, at least two approver keys are registered or a single one was acknowledged, in
-- memory and in every state that was written to the file; this holds after the calls if it held before.
pub run-spared :
    (env : Env) (ms : List Method) (w : World) → spared w ≡ true → spared (run env ms w) ≡ true
unfolding run
run-spared env [] w h = h
run-spared env (m ∷ ms) w h = run-spared env ms (step env m w) (step-spared env m w h)
