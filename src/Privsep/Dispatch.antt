-- ===== src/Privsep/Dispatch.antt =====
-- src/zee/privsep/daemon.py, `handle_line` and `_handle`: the trust boundary of the daemon.
pub mod Peers
pub mod Cuts
pub mod Boundary
use zee.Prelude.{
  ℕ, String, Bool, true, false, not, ◌&&◌, ◌≡◌, refl, ◌⊎◌, inl, inr, Option, none, some, List, [],
  ◌∷◌, ◌==◌, arith, nat_eq, contains, if◌then◌else◌, Bool-cases,
}
use zee.Prelude.Exec.{Exec, Outcome, returned, raised, Exn, zee_error}
use zee.Prelude.Json
use zee.Prelude.Json.{Json, Fields, obj, str}
use zee.Privsep.World.{Env, Daemon}
use zee.Privsep.Reply.{Reply, failed_with, reply_code}
use zee.Privsep.Handle.{cut, status, uid_in}
use zee.Privsep.Requests.{challenge, submit_request, bootstrap}

-- who may ask for what: the error, or `none`
unfoldable pub peer_fault : Env → String → ℕ → Option String
peer_fault env op uid =
    if op == "bootstrap_key"
    then (if nat_eq uid 0 then none else some "root_only")
    else if contains op ("cut" ∷ "status" ∷ "challenge" ∷ "submit" ∷ [])
    then (if not (uid_in uid env.allow) && not (nat_eq uid 0)
        then some "peer_not_allowed"
        else none)
    else some "unknown_op"

unfoldable pub perform : Env → String → Fields → ℕ → Exec Daemon Reply
perform env op req uid =
    if op == "status"
    then status env uid
    else if op == "cut"
    then cut env req
    else if op == "challenge"
    then challenge env req uid
    else if op == "submit"
    then submit_request env req uid
    else bootstrap env req

-- an exception becomes a reply: a bad request never kills the daemon
unfoldable pub settled : Outcome Reply × Daemon → Reply × Daemon
settled (returned r, d) = (r, d)
settled (raised zee_error, d) = (failed_with "zee error", d)
settled (raised e, d) = (failed_with "internal", d)

unfoldable pub admitted : Env → String → Fields → ℕ → Daemon → Option String → Reply × Daemon
admitted env op req uid d (some e) = (failed_with e, d)
admitted env op req uid d none = settled (perform env op req uid d)

unfoldable pub handle_op : Env → Fields → ℕ → Daemon → Option Json → Reply × Daemon
handle_op env req uid d (some (str op)) = admitted env op req uid d (peer_fault env op uid)
handle_op env req uid d _ = (failed_with "malformed", d)

-- `_handle`; `none` is a line that is no JSON
unfoldable pub handle : Env → Option Json → ℕ → Daemon → Reply × Daemon
handle env (some (obj req)) uid d = handle_op env req uid d (Json.get "op" req)
handle env _ uid d = (failed_with "malformed", d)

-- `handle_line`: the reply, with its code where it is not ok
unfoldable pub handle_line : Env → Option Json → ℕ → Daemon → (Reply × Option String) × Daemon
handle_line env line uid d =
    let (r, e) = handle env line uid d in ((r, (if r.ok then none else some (reply_code r))), e)
