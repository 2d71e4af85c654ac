-- ===== src/Egress/World.antt =====
-- src/zee/egress/engine.py: an engine's attributes, the machine around it, and the effects that its
-- methods are made of. The clock stands still within one method; times are in whole seconds.
use zee.Prelude.{
  ℕ, suc, String, Bool, false, Option, none, some, List, [], ◌∷◌, ◌++◌, if◌then◌else◌,
}
use zee.Prelude.Dict.{Dict}
use zee.Prelude.Exec.{Exec, os_error, other_error, returned, raised}
use zee.Prelude.Json.{Fields}
use zee.Egress.Destination.{Addresses}
use zee.Egress.State.{State, Floats, StateFile, load}
use zee.Egress.Payload.{Request}

pub record Flow : Type 0 where
  pub proc : String
  pub dest : String
  pub bytes_out : ℕ

pub data Action : Type 0 where
  pass notify hold : Action

pub record Verdict : Type 0 where
  pub action : Action
  pub reason : String

pub record Grant : Type 0 where
  pub until : ℕ
  pub remaining : ℕ

-- `Result`
pub record Answer : Type 0 where
  pub ok : Bool
  pub reason : String

-- the calls of `Enforcer`
pub data Call : Type 0 where
  holds : String → Call
  allows : String → ℕ → Call
  releases : String → Call

-- the records that `_log` is given, without their time stamp
pub data Entry : Type 0 where
  egress_shape :
      (proc dest : String) (bytes_out : ℕ) (reason : String) (tainted : List String) → Entry
  held_flow : (dest proc : String) → Entry
  requested : Request → Entry
  denied : (req reason : String) → Entry
  approved : (req key_id : String) (dests : List String) (max_bytes until : ℕ) → Entry
  config_applied : (op key_id : String) → Entry
  switched_on : Entry
  recovery_started : Entry
  recovery_completed : Entry
  recovery_pending : (completes_at : ℕ) → Entry
  timed_out : (req : String) → Entry

pub record Batch : Type 0 where
  pub opened : ℕ
  pub dests : Dict ℕ
  pub procs : List String
  pub data_ids : List String

-- What the engine is made with, and how the machine answers: the enforcer may refuse a call, in a
-- way that depends on every earlier one, and a write of the state may fail.
pub record Env : Type 1 where
  pub net : Addresses
  pub floats : Floats
  pub digest : Fields → String
  pub verify : (public_key digest signature : String) → Bool
  pub refuses : Option (List Call → Call → Bool)  -- `none`: no enforcer
  pub save_fails : ℕ → Bool
  pub token : ℕ → String  -- the n-th `secrets.token_hex(8)`
  pub nonce : ℕ → String
  pub random_code : ℕ → String
  pub hostname : String
  pub server_form : Bool

pub record World : Type 0 where
  pub now : ℕ
  pub state : State
  pub state_invalid : Bool
  pub pending : Dict Request
  pub grants : Dict Grant
  pub held : List String
  pub unheld : List String
  pub taint : Dict ℕ
  pub batch : Option Batch
  pub last_batch : Option ℕ
  pub last_recovery_notice : ℕ
  pub issued : ℕ
  pub saves : ℕ
  pub saved : List State  -- what was written to the file, oldest first
  pub calls : List Call
  pub entries : List Entry

-- `Engine.__init__`, at the time `now`
unfoldable pub start : Floats → ℕ → StateFile → World
start floats now file =
    let (state, invalid) = load floats file in
    record {
      now = now;
      state = state;
      state_invalid = invalid;
      pending = [];
      grants = [];
      held = [];
      unheld = [];
      taint = [];
      batch = none;
      last_batch = none;
      last_recovery_notice = 0;
      issued = 0;
      saves = 0;
      saved = [];
      calls = [];
      entries = [];
    }

unfoldable pub edit : (World → World) → Exec World (Unit {0})
edit f w = (returned tt, f w)

abbrev pub set_state : State → World → World
set_state s w = record w { state = s }

-- `_log`: neither a notifier nor a write that fails stops the caller
unfoldable pub log : Entry → Exec World (Unit {0})
log e w = (returned tt, record w { entries = w.entries ++ e ∷ [] })

module _ (env : Env) where
  -- `_save`
  unfoldable pub save : Exec World (Unit {0})
  save w =
      let n = w.saves in
      if env.save_fails n then (raised os_error, record w { saves = suc n }) else (
        returned tt,
        record w { saves = suc n; saved = w.saved ++ w.state ∷ []; state_invalid = false },
      )

  -- a call of the enforcer, where there is one
  unfoldable pub enforce : Call → Exec World (Unit {0})
  enforce c w = elim env.refuses [
    | none ↦ (returned tt, w)
    | some refuses ↦
        let done = record w { calls = w.calls ++ c ∷ [] } in
        if refuses w.calls c then (raised other_error, done) else (returned tt, done)
  ]
