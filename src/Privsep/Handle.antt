-- ===== src/Privsep/Handle.antt =====
-- src/zee/privsep/daemon.py: one request line, one reply; who may ask what, and what is done.
use Prim.Native.String
use zee.Prelude.{
  ℕ, ◌-◌, String, Bool, true, not, ◌&&◌, Option, none, some, List, [], ◌∷◌, ◌++◌, ◌==◌, nat_eq, leb,
  ltb, all, any, keep, length, is_some, if◌then◌else◌,
}
use zee.Prelude.Sort.{sorted_set}
use zee.Prelude.Exec.{Exec, returned, give, ◌>>=◌}
use zee.Prelude.Json.{Fields}
use zee.Config.{Config, AssetProfile, find}
use zee.Policy.{resolve}
use zee.Responder.Blocker.{CutRequest, refusal}
use zee.Responder.Permission.{Loaded, permission, invalid, absent, load, decide_on, policy_hash}
use zee.Telemetry.CutState.Ledger.{latest_unresolved_for}
use zee.Egress.State.{has_keys, text_values}
use zee.Egress.Submit.{arg}
use zee.Privsep.World.{Env, Daemon, CutCall}
use zee.Privsep.Reply.{Reply, bare, failed_with, refuse, result}
use zee.Privsep.Files.{config_of, config_or_none, tamper_action, restorable}

abbrev cut_keys : List String
cut_keys = "op" ∷ "asset_id" ∷ "op_class" ∷ "confidence" ∷ []

abbrev short_text : String → Bool
short_text s = ltb 0 (String.count s) && leb (String.count s) 128

-- the request that the boundary sees, where each field is a text of 1 to 128 characters
unfoldable pub cut_request : Fields → Option CutRequest
cut_request req = if not (has_keys cut_keys req) then none else elim (text_values req) [
  | none ↦ none
  | some a ↦
      if all (λ k. short_text (arg k a)) ("asset_id" ∷ "op_class" ∷ "confidence" ∷ [])
      then some (record {
        asset_id = arg "asset_id" a;
        op_class = arg "op_class" a;
        confidence = arg "confidence" a;
      })
      else none
]

abbrev pub or_else : Option String → Option String → Option String
or_else none b = b
or_else (some a) b = some a

-- why a request for `asset` is refused
unfoldable pub cut_fault : Env → CutRequest → AssetProfile → Config → Loaded → Option String
cut_fault env cr asset cfg perm =
    let (allowed, why) = decide_on env.policy_digest cr.confidence cr.op_class asset cfg perm in
    let reason = or_else why (refusal cr asset cfg.dry_run) in
    if allowed then reason else or_else reason (some "")

abbrev pub method_of : Option String → String
method_of none = ""
method_of (some m) = m

unfoldable pub do_cut : Env → CutCall → Exec Daemon (Bool × String)
do_cut env c d =
    let (r, ledger) = env.cut c d.ledger in
    (r, record d { ledger = ledger; cuts = d.cuts ++ c ∷ [] })

unfoldable pub cut_asset : Env → AssetProfile → Option String → Exec Daemon Reply
cut_asset env asset (some why) = give (refuse why)
cut_asset env asset none = do
  done ← do_cut env (record { method = method_of (resolve asset).cut_method; asset_id = asset.id })
  give (result done)

abbrev pub find_in : Option Config → String → Option AssetProfile
find_in none asset_id = none
find_in (some c) asset_id = find c asset_id

unfoldable pub cut_found :
    Env → CutRequest → Option Config → Option AssetProfile → Exec Daemon Reply
cut_found env cr (some cfg) (some asset) d =
    cut_asset env asset
      (cut_fault env cr asset cfg (load env.iso env.instance_id d.permission_file)) d
cut_found env cr _ _ d = give (refuse "unknown_asset") d

unfoldable pub cut_checked : Env → Option CutRequest → Exec Daemon Reply
cut_checked env none = give (failed_with "malformed")
cut_checked env (some cr) =
    λ d. (do cfg ← config_of env d.config_file; cut_found env cr cfg (find_in cfg cr.asset_id)) d

-- `_cut`
unfoldable pub cut : Env → Fields → Exec Daemon Reply
cut env req = cut_checked env (cut_request req)

-- the state of the automatic cut, as `_status` words it
unfoldable pub auto_text : Env → Loaded → Option Config → String
auto_text env absent cfg = "off (never set)"
auto_text env invalid cfg = "invalid"
auto_text env (permission p) none = if p.enabled then "policy_mismatch" else "off"
auto_text env (permission p) (some c) =
    if not p.enabled
    then "off"
    else if p.policy_hash == policy_hash env.policy_digest c
    then "on"
    else "policy_mismatch"

abbrev dry_run_of : Option Config → Option Bool
dry_run_of none = none
dry_run_of (some c) = some c.dry_run

abbrev ago : ℕ → Option ℕ → Option ℕ
ago now none = none
ago now (some t) = some (now - t)

unfoldable pub status_of : Env → Option Config → Daemon → Reply
status_of env cfg d = record (bare true) {
  status = some (record {
    dry_run = dry_run_of cfg;
    auto = auto_text env (load env.iso env.instance_id d.permission_file) cfg;
    tamper_action = tamper_action d.tamper_file;
    findings = d.findings;
    unresolved =
        sorted_set
          (keep (λ a. is_some (latest_unresolved_for env.iso a d.ledger)) (restorable env d));
    keys = length d.engine.state.keys;
    watch_seen_s_ago = ago d.engine.now d.last_seen;
  });
}

abbrev pub uid_in : ℕ → List ℕ → Bool
uid_in uid uids = any (nat_eq uid) uids

-- `_status`: the call of an allowed uid is the heartbeat of its watch
unfoldable pub status : Env → ℕ → Exec Daemon Reply
status env uid d =
    let seen = if uid_in uid env.allow then record d { last_seen = some d.engine.now } else d in
    (returned (status_of env (config_or_none env d.config_file) seen), seen)
