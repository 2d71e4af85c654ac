-- ===== src/Privsep/Requests.antt =====
-- src/zee/privsep/daemon.py: challenges and signed answers, each uid within its own limits, and the
-- dispatch of a request line.
pub mod Limit
use zee.Prelude.{
  ℕ, zero, suc, ◌+◌, ◌-◌, String, Bool, true, false, not, ◌&&◌, ◌||◌, Option, none, some, List, [],
  ◌∷◌, ◌++◌, ◌==◌, nat_eq, leb, ltb, all, any, keep, map, length, contains, is_some, truthy,
  if◌then◌else◌,
}
use zee.Prelude.Dict.{Dict, lookup, put, pop, keys}
use zee.Prelude.Exec.{
  Exec, Outcome, returned, raised, Exn, zee_error, permission_error, value_error, give, throw,
  ◌>>=◌, ◌>>◌, resume,
}
use zee.Prelude.Json
use zee.Prelude.Json.{Json, Fields, obj, str, field, end}
use zee.Egress.State.{has_keys, text_values}
use zee.Egress.Payload.{Request}
use zee.Egress.World.{World, Answer}
use zee.Egress.Setup.{bootstrap_key}
use zee.Egress.Submit.{request_config}
use zee.Privsep.World.{Env, Daemon, edit, on_engine}
use zee.Privsep.Reply.{Reply, bare, failed_with, refuse, result, reply_code}
use zee.Privsep.Files.{bindings}
use zee.Privsep.Admin.{admin_ops, admin_context, check_args, submit}
use zee.Privsep.Handle.{cut, status, uid_in}

abbrev pub challenges_per_min : ℕ
challenges_per_min = 10

abbrev pub pending_per_uid : ℕ
pending_per_uid = 4

abbrev pub Asked : Type 0
Asked = List ((ℕ × String) × List ℕ)

abbrev pub same_key : ℕ × String → ℕ × String → Bool
same_key (u, op) (v, other) = nat_eq u v && (op == other)

-- `self._asked.get((uid, op), [])`
unfoldable pub asked_at : ℕ → String → Asked → List ℕ
asked_at uid op [] = []
asked_at uid op ((k, ts) ∷ rest) =
    let later = asked_at uid op rest in if same_key (uid, op) k then ts else later

unfoldable pub set_asked : ℕ → String → List ℕ → Asked → Asked
set_asked uid op ts [] = ((uid, op), ts) ∷ []
set_asked uid op ts ((k, us) ∷ rest) =
    let later = set_asked uid op ts rest in
    if same_key (uid, op) k then (k, ts) ∷ rest else (k, us) ∷ later

-- the requests of the last minute
unfoldable pub recent : ℕ → List ℕ → List ℕ
recent now ts = keep (λ t. ltb now (t + 60)) ts

-- `_rate_limited`
unfoldable pub rate_limited : ℕ → String → Exec Daemon Bool
rate_limited uid op d =
    let before = recent d.engine.now (asked_at uid op d.asked) in
    if leb challenges_per_min (length before) then (returned true, d) else (
      returned false,
      record d { asked = set_asked uid op (before ++ d.engine.now ∷ []) d.asked },
    )

-- the requests of a uid that still wait, oldest first
unfoldable pub waiting : ℕ → Dict ℕ → Dict Request → List String
waiting uid [] pending = []
waiting uid ((r, u) ∷ rest) pending =
    let later = waiting uid rest pending in
    if nat_eq u uid && is_some (lookup r pending) then r ∷ later else later

-- `{r: u for r, u in self._owner.items() if r in self.engine.pending}`
unfoldable pub still_owned : Dict Request → Dict ℕ → Dict ℕ
still_owned pending [] = []
still_owned pending ((r, u) ∷ rest) =
    let later = still_owned pending rest in
    if is_some (lookup r pending) then (r, u) ∷ later else later

-- the oldest requests go until fewer than the limit are left
unfoldable pub displace : List String → Dict Request → Dict Request
displace [] pending = pending
displace (r ∷ mine) pending =
    let fewer = displace mine (pop r pending) in
    if leb pending_per_uid (length (r ∷ mine)) then fewer else pending

unfoldable pub make_room : ℕ → Daemon → Daemon
make_room uid d =
    let pending = d.engine.pending in
    record d {
      owner = still_owned pending d.owner;
      engine = record d.engine { pending = displace (waiting uid d.owner pending) pending };
    }

-- `{**args, **bindings}`
unfoldable pub with_bound : Fields → Dict String → Fields
with_bound args [] = args
with_bound args ((k, v) ∷ bs) = with_bound (Json.set k (str v) args) bs

-- a `ValueError` or a `PermissionError` of the engine is a refusal
unfoldable pub issued : ℕ → Outcome Request × World → Daemon → Outcome Reply × Daemon
issued uid (returned r, w) d = (
  returned (record (bare true) { challenge = some r }),
  record d { engine = w; owner = put r.id uid d.owner },
)
issued uid (raised permission_error, w) d =
    (returned (refuse "bad_request"), record d { engine = w })
issued uid (raised value_error, w) d = (returned (refuse "bad_request"), record d { engine = w })
issued uid (raised e, w) d = (raised e, record d { engine = w })

unfoldable pub issue : Env → ℕ → String → Fields → Exec Daemon Reply
issue env uid op args d =
    issued uid (request_config env.egress admin_ops (admin_context env) op args d.engine) d

unfoldable pub challenge_within : Env → ℕ → String → Fields → Bool → Exec Daemon Reply
challenge_within env uid op args true = give (refuse "rate_limited")
challenge_within env uid op args false = do edit (make_room uid); issue env uid op args

unfoldable pub challenge_allowed : Env → ℕ → String → Fields → Option String → Exec Daemon Reply
challenge_allowed env uid op args (some why) = give (refuse why)
challenge_allowed env uid op args none = do
  now ← bindings env op
  limited ← rate_limited uid "challenge"
  challenge_within env uid op (with_bound args now) limited

abbrev only_keys : List String → Fields → Bool
only_keys ks end = true
only_keys ks (field k v fs) = contains k ks && only_keys ks fs

unfoldable pub challenge_of : Env → ℕ → Option Json → Json → Exec Daemon Reply
challenge_of env uid (some (str op)) (obj args) d =
    challenge_allowed env uid op args (check_args env op args d) d
challenge_of env uid _ _ d = give (failed_with "malformed") d

-- `_challenge`
unfoldable pub challenge : Env → Fields → ℕ → Exec Daemon Reply
challenge env req uid =
    if not (only_keys ("op" ∷ "admin_op" ∷ "args" ∷ []) req)
    then give (failed_with "malformed")
    else challenge_of env uid (Json.get "admin_op" req) (Json.get_or "args" (obj end) req)

unfoldable pub answered : Answer → Exec Daemon Reply
answered a d = (if a.ok then give (result d.outcome) else give (refuse a.reason)) d

unfoldable pub submit_decoded : Env → Fields → Option String → Exec Daemon Reply
submit_decoded env req none = give (failed_with "malformed")
submit_decoded env req (some signature) = do
  a ←
      submit env (Json.get_or "payload" Json.null req) (Json.get_or "entered" Json.null req)
        (Json.get_or "key_id" Json.null req) (some signature)
  answered a

unfoldable pub submit_signed : Env → Fields → Option Json → Exec Daemon Reply
submit_signed env req (some (str s)) = submit_decoded env req (env.b64decode s)
submit_signed env req _ = give (failed_with "malformed")

abbrev submit_keys : List String
submit_keys = "op" ∷ "payload" ∷ "entered" ∷ "key_id" ∷ "signature" ∷ []

unfoldable pub submit_within : Env → Fields → Bool → Exec Daemon Reply
submit_within env req true = give (refuse "rate_limited")
submit_within env req false =
    if not (has_keys submit_keys req)
    then give (failed_with "malformed")
    else submit_signed env req (Json.get "signature" req)

-- `_submit`
unfoldable pub submit_request : Env → Fields → ℕ → Exec Daemon Reply
submit_request env req uid = do limited ← rate_limited uid "submit"; submit_within env req limited

unfoldable pub boot : Outcome (Unit {0}) × World → Daemon → Outcome Reply × Daemon
boot (returned _, w) d = (returned (bare true), record d { engine = w })
boot (raised permission_error, w) d =
    (returned (refuse "no unsigned registration"), record d { engine = w })
boot (raised e, w) d = (raised e, record d { engine = w })

unfoldable pub bootstrap_keys : Env → Option Json → Option Json → Exec Daemon Reply
bootstrap_keys env (some (str key_id)) (some (str public_key)) d =
    if truthy key_id && truthy public_key
    then boot (bootstrap_key env.egress key_id public_key d.engine) d
    else give (failed_with "malformed") d
bootstrap_keys env _ _ d = give (failed_with "malformed") d

-- `_bootstrap`
unfoldable pub bootstrap : Env → Fields → Exec Daemon Reply
bootstrap env req =
    if not (has_keys ("op" ∷ "key_id" ∷ "public_key" ∷ []) req)
    then give (failed_with "malformed")
    else bootstrap_keys env (Json.get "key_id" req) (Json.get "public_key" req)
