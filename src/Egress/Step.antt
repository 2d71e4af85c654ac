-- ===== src/Egress/Step.antt =====
-- src/zee/egress/engine.py: the calls that an engine takes, one after the other, and the passing of time.
use zee.Prelude.{ℕ, ◌+◌, String, Bool, true, false, not, ◌||◌, Option, List, [], ◌∷◌}
use zee.Prelude.Exec.{Outcome, returned, raised}
use zee.Prelude.Json.{Json, Fields, end}
use zee.Egress.World.{World, Env, Flow, Verdict, Action}
use zee.Egress.Setup.{
  setup_allow, setup_protect, bootstrap_key, ack_single_key, enable, recovery_start,
  recovery_complete,
}
use zee.Egress.Submit.{config_ops, request_config}
use zee.Egress.Apply.{submit}
use zee.Egress.Watch.{note_protected_touch, observe}
use zee.Egress.Tick.{tick}

pub data Method : Type 0 where
  allows_at_setup : (dest : String) → Method
  protects_at_setup : (data_id : String) → Method
  bootstraps : (key_id public_key : String) → Method
  acks_single_key : Method
  enables : Method
  requests : (op : String) (args : Fields) → Method
  submits : (payload entered key_id : Json) (signature : Option String) → Method
  starts_recovery : Method
  completes_recovery : Method
  touches : (data_id : String) → Method
  observes : Flow → Method
  ticks : Method
  waits : (seconds : ℕ) → Method

unfoldable pub step : Env → Method → World → World
step env (allows_at_setup dest) w = (setup_allow env dest w).1
step env (protects_at_setup data_id) w = (setup_protect env data_id w).1
step env (bootstraps key_id public_key) w = (bootstrap_key env key_id public_key w).1
step env acks_single_key w = (ack_single_key env w).1
step env enables w = (enable env w).1
step env (requests op args) w = (request_config env config_ops end op args w).1
step env (submits payload entered key_id signature) w =
    (submit env payload entered key_id signature w).1
step env starts_recovery w = (recovery_start env w).1
step env completes_recovery w = (recovery_complete env w).1
step env (touches data_id) w = note_protected_touch data_id w
step env (observes f) w = (observe env f w).1
step env ticks w = (tick env w).1
step env (waits n) w = record w { now = w.now + n }

unfoldable pub run : Env → List Method → World → World
run env [] w = w
run env (m ∷ ms) w = run env ms (step env m w)

abbrev pub is_submit : Method → Bool
is_submit (submits _ _ _ _) = true
is_submit _ = false

abbrev pub is_recovery_start : Method → Bool
is_recovery_start starts_recovery = true
is_recovery_start _ = false

-- what `observe` answered
abbrev is_pass : Action → Bool
is_pass Action.pass = true
is_pass _ = false

abbrev is_notify : Action → Bool
is_notify Action.notify = true
is_notify _ = false

abbrev pub passed : Outcome Verdict → Bool
passed (returned v) = is_pass v.action
passed (raised _) = false

abbrev pub notified : Outcome Verdict → Bool
notified (returned v) = is_notify v.action
notified (raised _) = false

abbrev pub is_held : Outcome Verdict → Bool
is_held (returned v) = not (is_pass v.action || is_notify v.action)
is_held (raised _) = false

abbrev pub has_failed : Outcome Verdict → Bool
has_failed (returned v) = false
has_failed (raised _) = true

-- The flow goes on: it passed, or somebody is only told of it.
abbrev pub goes_on : Outcome Verdict → Bool
goes_on r = passed r || notified r
