-- ===== src/Egress/Apply.antt =====
-- src/zee/egress/engine.py, `_apply` and `submit`: what a signed approval changes.
pub mod Once
pub mod Gone
use zee.Prelude.{
  ℕ, String, Bool, true, false, ◌≡◌, Option, none, some, List, [], ◌∷◌, ◌++◌, ◌==◌, ltb, length,
  contains, if◌then◌else◌,
}
use zee.Prelude.Dict.{Dict, put, pop, discard}
use zee.Prelude.Exec.{Exec, give, ◌>>=◌, ◌>>◌, resume}
use zee.Prelude.Json.{Json, str}
use zee.Egress.Destination.{match_dest}
use zee.Egress.State.{State}
use zee.Egress.Payload.{Body, Request, egress, config}
use zee.Egress.World.{
  World, Env, Answer, allows, edit, set_state, log, save, enforce, approved, config_applied,
}
use zee.Egress.Release.{closed, release, release_closed, allow_listed}
use zee.Egress.Setup.{is_empty}
use zee.Egress.Submit.{arg, remove_first, Checked, refused, accepted, check_answer}

-- what a config operation writes into the state
unfoldable pub changed_state : String → Dict String → State → State
changed_state op a s =
    if op == "allow_add"
    then (if contains (arg "dest" a) s.allow
        then s
        else record s { allow = s.allow ++ arg "dest" a ∷ [] })
    else if op == "allow_remove"
    then record s { allow = remove_first (arg "dest" a) s.allow }
    else if op == "protect_add"
    then (if contains (arg "id" a) s.protect
        then s
        else record s { protect = s.protect ++ arg "id" a ∷ [] })
    else if op == "protect_remove"
    then record s { protect = remove_first (arg "id" a) s.protect }
    else if op == "key_add"
    then record s { keys = put (arg "key_id" a) (arg "public_key" a) s.keys }
    else if op == "key_remove"
    then (if ltb 1 (length s.keys) then record s { keys = pop (arg "key_id" a) s.keys } else s)
    else if op == "disable"
    then record s { enabled = false }
    else s

abbrev pub text_of : Json → String
text_of (str s) = s
text_of _ = ""

abbrev pub answer_of : List String → Answer
answer_of failed = record { ok = true; reason = if is_empty failed then "" else "release_pending" }

module _ (env : Env) where
  -- the destinations that a config operation reopens
  unfoldable pub reopens : String → Dict String → String → Bool
  reopens op a d =
      if op == "allow_add" then match_dest env.net d (arg "dest" a ∷ []) else op == "disable"

  -- the end of a config operation
  unfoldable pub conclude : (op key_id : String) → List String → Exec World (List String)
  conclude op key_id failed = do
    edit (λ w. set_state (record w.state { recovery_start = none }) w)
    save env
    log (config_applied op key_id)
    give failed

  unfoldable pub apply_config : (op key_id : String) → Dict String → Exec World (List String)
  apply_config op key_id a = do
    edit (λ w. set_state (changed_state op a w.state) w)
    failed ← release_closed env (λ _. reopens op a)
    conclude op key_id failed

  unfoldable pub grant_one : ℕ → ℕ → String → Exec World (List String)
  grant_one until max_bytes d = do
    edit (λ v. record v {
      grants = put d (record { until = until; remaining = max_bytes }) v.grants;
    })
    enforce env (allows d until)
    edit (λ v. record v { held = discard d v.held })
    give []

  -- one destination of an approved request
  unfoldable pub open_one : ℕ → ℕ → String → Exec World (List String)
  open_one until max_bytes d w =
      (if allow_listed env w d
          then release env (if contains d (closed w) then d ∷ [] else [])
          else grant_one until max_bytes d)
        w

  unfoldable pub open_each : ℕ → ℕ → List String → Exec World (List String)
  open_each until max_bytes [] = give []
  open_each until max_bytes (d ∷ ds) = do
    failed ← open_one until max_bytes d
    rest ← open_each until max_bytes ds
    give (failed ++ rest)

  unfoldable pub apply_body : String → String → Body → Exec World (List String)
  apply_body rid key_id (egress host dests procs max_bytes ids until) = do
    failed ← open_each until max_bytes dests
    log (approved rid key_id dests max_bytes until)
    give failed
  apply_body rid key_id (config context op a) = apply_config op key_id a

  -- `_apply`
  unfoldable pub apply : Request → String → Exec World (List String)
  apply req key_id = apply_body req.id key_id req.body

  -- `submit` after the check
  unfoldable pub act : String → Checked → Exec World Answer
  act key_id (refused reason) = give (record { ok = false; reason = reason })
  act key_id (accepted req) = do failed ← apply req key_id; give (answer_of failed)

  unfoldable pub submit :
      (payload entered key_id : Json) (signature : Option String) → Exec World Answer
  submit payload entered key_id signature = do
    checked ← check_answer env payload entered key_id signature
    act (text_of key_id) checked
