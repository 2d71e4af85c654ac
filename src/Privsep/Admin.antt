-- ===== src/Privsep/Admin.antt =====
-- src/zee/privsep/daemon.py: the signed operations, from the check of their arguments to their effect.
pub mod Cuts
use Prim.Native.String
use zee.Prelude.{
  ℕ, suc, ◌+◌, String, Bool, true, false, not, ◌&&◌, ◌||◌, Option, none, some, List, [], ◌∷◌, ◌++◌,
  ◌==◌, nat_eq, leb, ltb, all, keep, contains, is_hex64, if◌then◌else◌,
}
use zee.Prelude.Dict.{Dict, lookup, keys}
use zee.Prelude.Exec.{
  Exec, Outcome, returned, raised, zee_error, other_error, Exn, give, throw, ◌>>=◌, ◌>>◌, resume,
}
use zee.Prelude.Json.{Json, Fields, obj, str, field, end}
use zee.Egress.State.{has_keys, text_values}
use zee.Egress.Payload.{Body, Request, egress, config}
use zee.Egress.World.{Answer}
use zee.Egress.Submit.{Checked, refused, accepted, check_answer, arg}
use zee.Egress.Apply.{apply_config, text_of, answer_of}
use zee.Privsep.World.{Env, Daemon, FileRead, edit, log, write, on_engine, stale_request, applied}
use zee.Privsep.Files.{bindings, bump_gen, auto_set, config_set, tamper_actions, restorable}

-- `ADMIN_OPS`
abbrev pub admin_ops : Dict (List String)
admin_ops =
    ("restore", "asset_id" ∷ "scope" ∷ "ledger_sha256" ∷ "gen" ∷ [])
    ∷ ("config_set", "path" ∷ "sha256" ∷ "gen" ∷ [])
    ∷ ("auto_set", "state" ∷ "config_sha256" ∷ "gen" ∷ [])
    ∷ ("tamper_set", "action" ∷ "gen" ∷ [])
    ∷ ("stop", "gen" ∷ [])
    ∷ ("key_add", "key_id" ∷ "public_key" ∷ "gen" ∷ [])
    ∷ ("key_remove", "key_id" ∷ "gen" ∷ [])
    ∷ []

abbrev pub bound : List String
bound = "gen" ∷ "config_sha256" ∷ "ledger_sha256" ∷ []

abbrev unbound : List String → List String
unbound ks = keep (λ k. not (contains k bound)) ks

-- what `AdminEngine._new_request` adds to a payload
abbrev pub admin_context : Env → Fields
admin_context env =
    field "aud" (str "zee-cutd-admin-v1") (field "host" (str env.egress.hostname) end)

-- the bound fields that differ from what they are now
unfoldable pub stale : Dict String → Dict String → List String
stale [] args = []
stale ((k, v) ∷ bs) args =
    let rest = stale bs args in
    elim (lookup k args) [ none ↦ k ∷ rest | some u ↦ if u == v then rest else k ∷ rest ]

-- `try: … except ZeeError as e: return False, str(e)`
abbrev pub caught : Outcome (Bool × String) → Outcome (Bool × String)
caught (returned r) = returned r
caught (raised zee_error) = returned (false, "restore failed")
caught (raised e) = raised e

unfoldable pub restore_asset : Env → String → Bool → Exec Daemon (Bool × String)
restore_asset env asset_id all_interfaces d =
    let (r, ledger) = env.restore asset_id all_interfaces d.ledger in
    (
      caught r,
      record d { ledger = ledger; restores = d.restores ++ (asset_id, all_interfaces) ∷ [] },
    )

-- `_apply_admin`
unfoldable pub apply_admin : Env → String → Dict String → Exec Daemon (Bool × String)
apply_admin env op a =
    if op == "restore"
    then restore_asset env (arg "asset_id" a) (arg "scope" a == "all")
    else if op == "config_set"
    then config_set env (env.read_bounded (arg "path" a)) (arg "sha256" a)
    else if op == "auto_set"
    then auto_set env (arg "state" a == "on")
    else if op == "tamper_set"
    then (do
      write env (λ d. record d {
        tamper_file = some (obj (field "action" (str (arg "action" a)) end));
        tamper_acted = false;
      })
      give (true, arg "action" a))
    else if op == "stop"
    then (do edit (λ d. record d { stopping = true }); give (true, "stopping"))
    else give (false, "unknown op")

-- the registry of approver keys
unfoldable pub change_keys : Env → (op key_id : String) → Dict String → Exec Daemon (List String)
change_keys env op key_id a d =
    (do
      failed ← on_engine (apply_config env.egress op key_id a)
      edit (λ e. record e {
        outcome =
            if (op == "key_remove")
              && same_keys (keys e.engine.state.keys) (keys d.engine.state.keys)
            then (false, "key_remove: nothing removed")
            else (true, op);
      })
      give failed)
      d
  where
    same_keys : List String → List String → Bool
    same_keys [] [] = true
    same_keys (k ∷ ks) (j ∷ js) = (k == j) && same_keys ks js
    same_keys _ _ = false

unfoldable pub run_admin : Env → (rid op : String) → Dict String → Exec Daemon (List String)
run_admin env rid op a = do
  outcome ← apply_admin env op a
  edit (λ d. record d { outcome = outcome })
  log (applied rid op outcome.0)
  give []

-- what `AdminEngine._apply` does with a request that is not stale
unfoldable pub apply_fresh :
    Env → (rid op key_id : String) → Dict String → Exec Daemon (List String)
apply_fresh env rid op key_id a = do
  bump_gen env
  (if (op == "key_add") || (op == "key_remove")
      then change_keys env op key_id a
      else run_admin env rid op a)

unfoldable pub apply_unless :
    Env → (rid op key_id : String) → Dict String → List String → Exec Daemon (List String)
apply_unless env rid op key_id a [] = apply_fresh env rid op key_id a
apply_unless env rid op key_id a (_ ∷ _) = do
  edit (λ d. record d { outcome = (false, "refused: state changed since this request was issued") })
  log (stale_request rid op)
  give []

-- `AdminEngine._apply`
unfoldable pub apply_bound :
    Env → (rid op key_id : String) → Dict String → Exec Daemon (List String)
apply_bound env rid op key_id a = do
  now ← bindings env op
  apply_unless env rid op key_id a (stale now a)

unfoldable pub apply_body : Env → (rid key_id : String) → Body → Exec Daemon (List String)
apply_body env rid key_id (egress host dests procs max_bytes ids until) = throw other_error
apply_body env rid key_id (config context op a) = apply_bound env rid op key_id a

unfoldable pub act : Env → String → Checked → Exec Daemon Answer
act env key_id (refused reason) = give (record { ok = false; reason = reason })
act env key_id (accepted req) = do
  failed ← apply_body env req.id key_id req.body
  give (answer_of failed)

-- `Engine.submit`, with `AdminEngine._apply`
unfoldable pub submit :
    Env → (payload entered key_id : Json) (signature : Option String) → Exec Daemon Answer
submit env payload entered key_id signature = do
  checked ← on_engine (check_answer env.egress payload entered key_id signature)
  act env (text_of key_id) checked

-- `_CHOICES`
abbrev choices : Dict (List String)
choices =
    ("scope", "recorded" ∷ "all" ∷ [])
    ∷ ("state", "on" ∷ "off" ∷ [])
    ∷ ("action", tamper_actions)
    ∷ []

bad_choice : Dict (List String) → Dict String → Option String
bad_choice [] a = none
bad_choice ((k, cs) ∷ rest) a =
    let later = bad_choice rest a in
    elim (lookup k a) [
      | none ↦ later
      | some v ↦ if contains v cs then later else some (String.◌++◌ "bad_" k)
    ]

abbrev short_texts : Dict String → Bool
short_texts d = all (λ e. ltb 0 (String.count e.1) && leb (String.count e.1) 4096) d

arg_fault : Env → String → Dict String → Daemon → Option String
arg_fault env op a d =
    if op == "restore"
    then (if contains (arg "asset_id" a) (restorable env d) then none else some "unknown_asset")
    else if op == "config_set"
    then (if not (env.is_abs (arg "path" a))
        then some "path_not_absolute"
        else if is_hex64 (arg "sha256" a)
        then none
        else some "bad_sha256")
    else none

checked_args : Env → String → Option (Dict String) → Daemon → Option String
unfolding bad_choice arg_fault
checked_args env op none d = some "bad_args"
checked_args env op (some a) d =
    if not (short_texts a)
    then some "bad_args"
    else elim (bad_choice choices a) [ some why ↦ some why | none ↦ arg_fault env op a d ]

-- `_check_args`
unfoldable pub check_args : Env → String → Fields → Daemon → Option String
unfolding checked_args
check_args env op args d = elim (lookup op admin_ops) [
  | none ↦ some "bad_args"
  | some required ↦
      if has_keys (unbound required) args
      then checked_args env op (text_values args) d
      else some "bad_args"
]
