-- ===== src/Egress/FailClosed.antt =====
-- A state file that src/zee/egress/engine.py cannot use: approval is on and nobody can approve.
pub mod Steps
use zee.Prelude.{
  ◌≡◌, ◌≢◌, refl, ◌∙◌, ℕ, String, Bool, true, false, not, ◌&&◌, ◌||◌, Option, none, some, List, [],
  ◌∷◌, arith, is_some, all, Option-cases, inl, inr, if◌then◌else◌, Dict.lookup,
}
use zee.Prelude.Exec.{Exec, Exn, Outcome, Moves, returned, raised, give, throw, ◌>>=◌, ◌>>◌, resume}
use zee.Prelude.Json
use zee.Prelude.Json.{Json, Fields, obj, str}
use zee.Egress.State.{State, StateFile, load, not_found, unreadable, content, state_of}
use zee.Egress.Payload.{Request}
use zee.Egress.World.{World, Env, Flow, start, edit, log}
use zee.Egress.Setup.{
  is_empty, setup, setup_allow, setup_protect, ack_single_key, bootstrap_key, enable,
  recovery_complete,
}
use zee.Egress.Submit.{
  Checked, Judgement, deny, expire, accept, refused, accepted, settle, check_named, check_answer,
  request_config,
}
use zee.Egress.Submit.Approved.{judged_accept, check_answer-Accepted}
use zee.Egress.Apply.{act, submit, text_of}
use zee.Egress.Watch.{classify, observe, covers_flow}
use zee.Egress.Watch.Reports.{observe-pass}
use zee.Egress.Step.{
  Method, step, run, passed, is_recovery_start, allows_at_setup, protects_at_setup, bootstraps,
  acks_single_key, enables, requests, submits, starts_recovery, completes_recovery, touches,
  observes, ticks, waits,
}
use zee.Egress.Moves.{request_valid-Moves, observe-Moves, touch-Moves}
use zee.Egress.Moves.Ticks.{tick-Moves}
use zee.Egress.Moves.State.{SameState, alike, same_state, SameState-prims}
use zee.Egress.Grants.{at_most, Shrinks, shrinking}

-- Approval is on, nobody can approve, and the file was not replaced.
abbrev pub is_locked : World → Bool
is_locked w =
    w.state.enabled
    && is_empty w.state.keys
    && w.state_invalid
    && not (is_some w.state.recovery_start)

pub same-locked : (w v : World) → SameState w v → is_locked w ≡ true → is_locked v ≡ true
same-locked w v s h = ground (arith, s.state, s.state_invalid)

settle-SameState :
    (env : Env) (rid : String) (j : Judgement) (w : World)
    → ((req : Request) (digest : String) → j ≢ accept req digest)
    → SameState w (settle env rid j w).1
unfolding settle edit log give ◌>>=◌ resume
settle-SameState env rid (deny reason) w h = alike refl refl refl
settle-SameState env rid expire w h = alike refl refl refl
settle-SameState env rid (accept req digest) w h = absurd (h req digest refl)

module _ (env : Env) (w : World) (locked : is_locked w ≡ true) where
  -- an answer that no key can have signed
  pub no_key : (key_id : String) → lookup key_id w.state.keys ≡ none
  unfolding lookup
  no_key key_id = ground arith

  check_named-SameState :
      (payload : Fields) (entered key_id signature : String) (o : Option Json)
      → Json.get "req" payload ≡ o
      → SameState w (check_named env payload entered key_id signature o w).1
  unfolding check_named
  check_named-SameState payload entered key_id signature (some (str rid)) n =
      settle-SameState env rid _ w (λ req digest e.
        let found =
          judged_accept env w payload entered key_id signature rid (lookup rid w.pending) req digest
            n refl e in
        ground (arith, found.registered, no_key key_id))
  check_named-SameState payload entered key_id signature _ n =
      settle-SameState env "" _ w (λ req digest e. cc e)

  check_answer-SameState :
      (payload entered key_id : Json) (signature : Option String)
      → SameState w (check_answer env payload entered key_id signature w).1
  unfolding check_answer
  check_answer-SameState (obj p) (str e) (str k) (some s) =
      check_named-SameState p e k s (Json.get "req" p) refl
  check_answer-SameState _ _ _ _ = settle-SameState env "" _ w (λ req digest e. cc e)

  pub unaccepted :
      (payload entered key_id : Json) (signature : Option String) (req : Request)
      → (check_answer env payload entered key_id signature w).0 ≢ returned (accepted req)
  unaccepted payload entered key_id signature req e =
      let found = check_answer-Accepted env w payload entered key_id signature req e in
      ground (arith, found.approved.registered, no_key found.key)

  resumed_act :
      (key : String) (r : Outcome Checked × World)
      → ((req : Request) → r.0 ≢ returned (accepted req))
      → SameState w r.1
      → SameState w (resume (act env key) r).1
  unfolding resume act give
  resumed_act key (raised e, v) h s = s
  resumed_act key (returned (refused reason), v) h s = s
  resumed_act key (returned (accepted req), v) h s = absurd (h req refl)

  pub submit-SameState :
      (payload entered key_id : Json) (signature : Option String)
      → SameState w (submit env payload entered key_id signature w).1
  unfolding submit ◌>>=◌
  submit-SameState payload entered key_id signature =
      resumed_act (text_of key_id) (check_answer env payload entered key_id signature w)
        (unaccepted payload entered key_id signature)
        (check_answer-SameState payload entered key_id signature)

-- a guard that stops a method
pub stopped :
    {B : Type 0} (b : Bool) (m : Exec World B) (e : Exn) (w : World)
    → b ≡ true
    → SameState w ((if b then throw e else m) w).1
unfolding throw
stopped true m e w h = alike refl refl refl
stopped false m e w h = absurd (cc h)
