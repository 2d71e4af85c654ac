-- ===== src/Egress/Submit.antt =====
-- src/zee/egress/engine.py: requests, the check of a signed answer, and what an approval changes.
pub mod Approved
use zee.Prelude.{
  ℕ, suc, ◌+◌, String, Bool, true, false, not, ◌&&◌, Option, none, some, List, [], ◌∷◌, ◌++◌, ◌==◌,
  all, length, contains, truthy, is_some, ltb, leb, if◌then◌else◌,
}
use zee.Prelude.Dict.{Dict, lookup, put, pop, keep_values, discard}
use zee.Prelude.Exec.{
  Exec, permission_error, value_error, give, throw, returned, ◌>>=◌, ◌>>◌, resume,
}
use zee.Prelude.Json
use zee.Prelude.Json.{Json, Fields, end, obj, str}
use zee.Egress.Destination.{match_dest}
use zee.Egress.State.{State, has_keys, text_values}
use zee.Egress.Payload.{Body, Request, egress, config, payload_of, fields_eq, with_entered}
use zee.Egress.World.{
  World, Env, Answer, allows, edit, set_state, log, save, enforce, requested, denied, approved,
  config_applied,
}
use zee.Egress.Release.{closed, release, release_closed, allow_listed}

abbrev pub response_ttl : ℕ
response_ttl = 300

-- `CONFIG_OPS`: each operation with its arguments
abbrev pub config_ops : Dict (List String)
config_ops =
    ("allow_add", "dest" ∷ [])
    ∷ ("allow_remove", "dest" ∷ [])
    ∷ ("protect_add", "id" ∷ [])
    ∷ ("protect_remove", "id" ∷ [])
    ∷ ("key_add", "key_id" ∷ "public_key" ∷ [])
    ∷ ("key_remove", "key_id" ∷ [])
    ∷ ("disable", [])
    ∷ []

-- `_key_floor`
unfoldable pub key_floor : State → Bool
key_floor s = s.enabled && not s.single_key_ack && leb (length s.keys) 2

-- `all(type(v) is str and v for v in args.values())`, and the texts themselves
abbrev filled : Dict String → Bool
filled d = all (λ e. truthy e.1) d

filled_args : Option (Dict String) → Option (Dict String)
filled_args none = none
filled_args (some d) = if filled d then some d else none

-- the arguments of a request, where they are those of the operation
unfoldable pub valid_args : Dict (List String) → String → Fields → Option (Dict String)
unfolding filled_args
valid_args ops op args = elim (lookup op ops) [
  | none ↦ none
  | some required ↦ if has_keys required args then filled_args (text_values args) else none
]

-- `a[k]`: no request is issued that lacks an argument of its operation
unfoldable pub arg : String → Dict String → String
arg k a = elim (lookup k a) [ none ↦ "" | some v ↦ v ]

-- `xs.remove(x)`, where `x` is in `xs`
unfoldable pub remove_first : String → List String → List String
remove_first x [] = []
remove_first x (y ∷ ys) = let rest = remove_first x ys in if x == y then ys else y ∷ rest

abbrev pub removes_key : Body → Bool
removes_key (egress _ _ _ _ _ _) = false
removes_key (config _ op _) = op == "key_remove"

-- What `submit` decides before it changes anything.
pub data Judgement : Type 0 where
  deny : String → Judgement
  expire : Judgement
  accept : Request → String → Judgement  -- with the digest

-- What `submit` was given and `_apply` goes on with.
pub data Checked : Type 0 where
  refused : String → Checked
  accepted : Request → Checked

-- the replay ledger without what has expired, and with a new digest
unfoldable pub spend : String → ℕ → World → World
spend digest exp w =
    set_state
      (record w.state { used = put digest exp (keep_values (λ e. leb w.now e) w.state.used) }) w

module _ (env : Env) where
  -- `_new_request`
  unfoldable pub new_request : Body → Exec World Request
  new_request body w =
      let req : Request = record {
        id = env.token w.issued;
        nonce = env.nonce w.issued;
        exp = w.now + response_ttl;
        body = body;
        code = env.random_code w.issued;
      } in
      (returned req, record w { issued = suc w.issued; pending = put req.id req w.pending })

  unfoldable pub request_valid : Fields → String → Option (Dict String) → Exec World Request
  request_valid context op none = throw value_error
  request_valid context op (some a) = λ w.
      (if op == "key_remove" && key_floor w.state
          then throw permission_error
          else do req ← new_request (config context op a); log (requested req); give req)
        w

  -- `request_config`, for the operations `ops`; `context` is what a subclass adds to a payload
  unfoldable pub request_config : Dict (List String) → Fields → String → Fields → Exec World Request
  request_config ops context op args = request_valid context op (valid_args ops op args)

  -- the part of `submit` that decides, for a request that is pending
  unfoldable pub judge_request :
      World → Fields → (entered key_id signature : String) → Request → Judgement
  judge_request w payload entered key_id signature req =
      let digest = env.digest (with_entered entered payload) in
      if ltb req.exp w.now
      then expire
      else if not (fields_eq payload (payload_of req))
      then deny "payload_mismatch"
      else elim (lookup key_id w.state.keys) [
        | none ↦ deny "unknown_key"
        | some public_key ↦
            if is_some (lookup digest w.state.used)
            then deny "replay"
            else if not (env.verify public_key digest signature)
            then deny "bad_signature"
            else if not (entered == req.code)
            then deny "code_mismatch"
            else if removes_key req.body && key_floor w.state
            then deny "would_leave_one_key"
            else accept req digest
      ]

  -- the part of `submit` that keeps the books
  unfoldable pub settle : String → Judgement → Exec World Checked
  settle rid (deny reason) = do log (denied rid reason); give (refused reason)
  settle rid expire = do
    edit (λ w. record w { pending = pop rid w.pending })
    log (denied rid "expired")
    give (refused "expired")
  settle rid (accept req digest) = do
    edit (λ w. spend digest req.exp (record w { pending = pop req.id w.pending }))
    save env
    give (accepted req)

  -- the request that an answer names
  unfoldable pub judge_pending :
      World → Fields → (entered key_id signature : String) → Option Request → Judgement
  judge_pending w payload entered key_id signature none = deny "unknown_request"
  judge_pending w payload entered key_id signature (some req) =
      judge_request w payload entered key_id signature req

  unfoldable pub check_named :
      Fields → (entered key_id signature : String) → Option Json → Exec World Checked
  check_named payload entered key_id signature (some (str rid)) w =
      settle rid (judge_pending w payload entered key_id signature (lookup rid w.pending)) w
  check_named payload entered key_id signature _ w = settle "" (deny "malformed") w

  -- `submit`, up to `_apply`
  unfoldable pub check_answer :
      (payload entered key_id : Json) (signature : Option String) → Exec World Checked
  check_answer (obj payload) (str entered) (str key_id) (some signature) =
      check_named payload entered key_id signature (Json.get "req" payload)
  check_answer _ _ _ _ = settle "" (deny "malformed")
