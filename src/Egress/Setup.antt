-- ===== src/Egress/Setup.antt =====
-- src/zee/egress/engine.py: the unsigned operations of the host, and the recovery when every key is lost.
pub mod Recovery
use zee.Prelude.{
  ℕ, ◌+◌, ◌*◌, String, Bool, true, false, not, ◌&&◌, ◌||◌, Option, none, some, List, [], ◌∷◌, ◌++◌,
  length, contains, ltb, nat_eq, if◌then◌else◌,
}
use zee.Prelude.Dict.{Dict, put}
use zee.Prelude.Exec.{Exec, permission_error, give, throw, ◌>>=◌, ◌>>◌, resume}
use zee.Egress.State.{State}
use zee.Egress.World.{
  World, Env, Answer, edit, set_state, log, save, config_applied, switched_on, recovery_started,
  recovery_completed,
}
use zee.Egress.Release.{closed, release, release_closed}

abbrev pub recovery_wait : ℕ
recovery_wait = 72 * 3600

abbrev pub is_empty {ℓ} : {A : Type ℓ} → List A → Bool
is_empty [] = true
is_empty (_ ∷ _) = false

-- the state that a completed recovery leaves
abbrev pub recovered : State → State
recovered s = record s { keys = []; enabled = false; recovery_start = none; single_key_ack = false }

abbrev pub is_due : ℕ → Option ℕ → Bool
is_due now none = false
is_due now (some t) = not (ltb now (t + recovery_wait))

module _ (env : Env) where
  -- `_setup_only`, and a change that is saved
  unfoldable pub setup : (State → State) → Exec World (Unit {0})
  setup change w =
      (if w.state.enabled
          then throw permission_error
          else do edit (λ v. set_state (change v.state) v); save env)
        w

  unfoldable pub setup_allow : String → Exec World (Unit {0})
  setup_allow dest = setup (λ s. record s { allow = s.allow ++ dest ∷ [] })

  unfoldable pub setup_protect : String → Exec World (Unit {0})
  setup_protect data_id = setup (λ s. record s { protect = s.protect ++ data_id ∷ [] })

  unfoldable pub ack_single_key : Exec World (Unit {0})
  ack_single_key = setup (λ s. record s { single_key_ack = true })

  unfoldable pub bootstrap_key : String → String → Exec World (Unit {0})
  bootstrap_key key_id public_key w =
      (if not (is_empty w.state.keys) || w.state_invalid then throw permission_error else do
        edit (λ v. set_state (record v.state { keys = put key_id public_key v.state.keys }) v)
        save env
        log (config_applied "key_add" key_id))
        w

  unfoldable pub enable : Exec World (Unit {0})
  enable w =
      (let n = length w.state.keys in
          if nat_eq n 0 || (ltb n 2 && not w.state.single_key_ack)
          then throw permission_error
          else do
            edit (λ v. set_state (record v.state { enabled = true }) v)
            save env
            log switched_on)
        w

  unfoldable pub recovery_start : Exec World (Unit {0})
  recovery_start = do
    edit (λ w. set_state (record w.state { recovery_start = some w.now }) w)
    save env
    edit (λ w. record w { last_recovery_notice = w.now })
    log recovery_started

  unfoldable pub finish_recovery : List String → Exec World Answer
  finish_recovery (_ ∷ _) = give (record { ok = false; reason = "release_failed" })
  finish_recovery [] = do
    edit (λ w. set_state (recovered w.state) w)
    save env
    log recovery_completed
    give (record { ok = true; reason = "" })

  unfoldable pub recovery_complete : Exec World Answer
  recovery_complete w =
      (if not (is_due w.now w.state.recovery_start)
          then give (record { ok = false; reason = "waiting" })
          else do failed ← release env (closed w); finish_recovery failed)
        w
