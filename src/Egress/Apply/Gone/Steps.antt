-- ===== src/Egress/Apply/Gone/Steps.antt =====
-- The same for `observe`, `tick` and any sequence of calls of src/zee/egress/engine.py.
use zee.Prelude.{◌≡◌, refl, ◌≤◌, ℕ, String, false, Option, none, some, List, [], ◌∷◌, ◌==◌, arith}
use zee.Prelude.Dict.{Dict}
use zee.Prelude.Exec.{Order, Moves, give, bind-Moves, give-Moves, attempt-Moves}
use zee.Egress.Payload.{Request}
use zee.Egress.World.{World, Env, Flow, Grant, Batch, edit}
use zee.Egress.Release.Moves.{edit-Moves}
use zee.Egress.Setup.{setup_allow, setup_protect, ack_single_key}
use zee.Egress.Submit.{request_config}
use zee.Egress.Watch.{
  observe, judged, switched, decide_flow, hold_flow, note_flow, drop_grant, close_dest, meter, look,
  prune, note_protected_touch,
}
use zee.Egress.Tick.{
  tick, seal, seal_batch, issue, expire_one, expire_each, close_one, close_each, remind, remind_of,
}
use zee.Egress.Step.{
  Method, step, run, allows_at_setup, protects_at_setup, bootstraps, acks_single_key, enables,
  requests, submits, starts_recovery, completes_recovery, touches, observes, ticks, waits,
}
use zee.Egress.Moves.{guarded}
use zee.Egress.Apply.Gone.{
  IsGone, Stays, staying, same, plain, calls, logs, popped, new_request-Stays, closed-Stays,
  setup-Stays, bootstrap_key-Stays, enable-Stays, recovery_start-Stays, recovery_complete-Stays,
  request_valid-Stays, submit-Stays,
}

module _ (env : Env) (rid : String) (n : ℕ)
    (fresh : (k : ℕ) → n ≤ k → (env.token k == rid) ≡ false) where
  stays : Order (Stays env rid n fresh)
  stays = staying env rid n fresh

  edits :
      (f : World → World)
      → ((w : World) → (f w).pending ≡ w.pending)
      → ((w : World) → (f w).issued ≡ w.issued)
      → Moves (Stays env rid n fresh) (edit f)
  edits = plain env rid n fresh

  hold_flow-Stays : (f : Flow) → Moves (Stays env rid n fresh) (hold_flow env f)
  unfolding hold_flow close_dest note_flow
  hold_flow-Stays f =
      bind-Moves stays _ _
        (guarded _ _ _ (λ w. give-Moves stays _)
          (λ w. bind-Moves stays _ _ (edits _ (λ v. refl) (λ v. refl)) (λ _.
            bind-Moves stays _ _ (calls env rid n fresh _) (λ _.
              bind-Moves stays _ _ (edits _ (λ v. refl) (λ v. refl))
                (λ _. logs env rid n fresh _)))))
        (λ _. edits _ (λ v. refl) (λ v. refl))

  decide_flow-Stays : (f : Flow) → Moves (Stays env rid n fresh) (decide_flow env f)
  unfolding decide_flow drop_grant meter
  decide_flow-Stays f =
      guarded _ _ _
        (λ w.
          bind-Moves stays _ _ (edits _ (λ v. ground arith) (λ v. ground arith))
            (λ _. give-Moves stays _))
        (λ w.
          bind-Moves stays _ _ (hold_flow-Stays f)
            (λ _. bind-Moves stays _ _ (edits _ (λ v. refl) (λ v. refl)) (λ _. give-Moves stays _)))

  judged-Stays :
      (f : Flow) (ids : List String) (o : _) → Moves (Stays env rid n fresh) (judged env f ids o)
  unfolding judged look prune switched
  judged-Stays f ids none =
      bind-Moves stays _ _ (edits _ (λ v. ground arith) (λ v. ground arith))
        (λ _. give-Moves stays _)
  judged-Stays f ids (some reason) = bind-Moves stays _ _ (edits _ (λ v. refl) (λ v. refl)) (λ _.
      bind-Moves stays _ _ (logs env rid n fresh _)
        (λ _. guarded _ _ _ (λ w. decide_flow-Stays f) (λ w. give-Moves stays _)))

  seal_batch-Stays : (o : Option Batch) → Moves (Stays env rid n fresh) (seal_batch env o)
  unfolding seal_batch issue give
  seal_batch-Stays none = record { along = λ w h. h }
  seal_batch-Stays (some b) =
      guarded _ _ _
        (λ w. bind-Moves stays _ _ (edits _ (λ v. refl) (λ v. refl)) (λ _.
          bind-Moves stays _ _ (new_request-Stays env rid n fresh _) (λ _. logs env rid n fresh _)))
        (λ w. give-Moves stays _)

  expire_each-Stays : (rs : Dict Request) → Moves (Stays env rid n fresh) (expire_each rs)
  unfolding expire_each expire_one
  expire_each-Stays [] = give-Moves stays _
  expire_each-Stays ((id, r) ∷ rs) =
      bind-Moves stays _ _
        (guarded _ _ _
          (λ w.
            bind-Moves stays _ _ (edit-Moves _ (popped env rid n fresh id))
              (λ _. logs env rid n fresh _))
          (λ w. give-Moves stays _))
        (λ _. expire_each-Stays rs)

  close_each-Stays : (gs : Dict Grant) → Moves (Stays env rid n fresh) (close_each env gs)
  unfolding close_each close_one
  close_each-Stays [] = give-Moves stays _
  close_each-Stays ((d, g) ∷ gs) =
      bind-Moves stays _ _
        (guarded _ _ _
          (λ w.
            bind-Moves stays _ _ (attempt-Moves _ (calls env rid n fresh _))
              (λ done. edits _ (λ v. ground arith) (λ v. ground arith)))
          (λ w. give-Moves stays _))
        (λ _. close_each-Stays gs)

  remind_of-Stays : (o : Option ℕ) → Moves (Stays env rid n fresh) (remind_of o)
  unfolding remind_of give
  remind_of-Stays none = record { along = λ w h. h }
  remind_of-Stays (some t) =
      guarded _ _ _
        (λ w. bind-Moves stays _ _ (edits _ (λ v. refl) (λ v. refl)) (λ _. logs env rid n fresh _))
        (λ w. give-Moves stays _)

  tick-Stays : Moves (Stays env rid n fresh) (tick env)
  unfolding tick seal remind
  tick-Stays =
      bind-Moves stays _ _ (record { along = λ w. (seal_batch-Stays w.batch).along w })
        (λ _.
          bind-Moves stays _ _ (record { along = λ w. (expire_each-Stays w.pending).along w })
            (λ _. bind-Moves stays _ _ (closed-Stays env rid n fresh _) (λ _.
              bind-Moves stays _ _ (record { along = λ w. (close_each-Stays w.grants).along w })
                (λ _. record { along = λ w. (remind_of-Stays w.state.recovery_start).along w }))))

  step-Stays : (m : Method) (w : World) → Stays env rid n fresh w (step env m w)
  unfolding step setup_allow setup_protect ack_single_key request_config observe
      note_protected_touch
  step-Stays (allows_at_setup dest) w = (setup-Stays env rid n fresh _).along w
  step-Stays (protects_at_setup data_id) w = (setup-Stays env rid n fresh _).along w
  step-Stays (bootstraps k p) w = (bootstrap_key-Stays env rid n fresh k p).along w
  step-Stays acks_single_key w = (setup-Stays env rid n fresh _).along w
  step-Stays enables w = (enable-Stays env rid n fresh).along w
  step-Stays (requests op args) w = (request_valid-Stays env rid n fresh _ op _).along w
  step-Stays (submits p e k s) w = (submit-Stays env rid n fresh p e k s).along w
  step-Stays starts_recovery w = (recovery_start-Stays env rid n fresh).along w
  step-Stays completes_recovery w = (recovery_complete-Stays env rid n fresh).along w
  step-Stays (touches data_id) w = same env rid n fresh w _ (ground arith) (ground arith)
  step-Stays (observes f) w = (judged-Stays f _ _).along w
  step-Stays ticks w = tick-Stays.along w
  step-Stays (waits s) w = same env rid n fresh w _ refl refl

  pub run-Stays : (ms : List Method) (w : World) → IsGone rid n w → IsGone rid n (run env ms w)
  unfolding run
  run-Stays [] w h = h
  run-Stays (m ∷ ms) w h = run-Stays ms (step env m w) (step-Stays m w h)
