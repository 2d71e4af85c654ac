-- ===== src/Privsep/Admin/Cuts.antt =====
-- Signed operations of src/zee/privsep/daemon.py never cut.
use zee.Prelude.{
  ◌≡◌, refl, ◌∙◌, suc, String, Bool, false, ◌==◌, Option, none, some, List, [], ◌∷◌, arith,
}
use zee.Prelude.Dict.{Dict}
use zee.Prelude.Exec.{Exec, Order, Moves, bind-Moves, give-Moves, throw-Moves, if-Moves}
use zee.Prelude.Json.{Json}
use zee.Errors.{Result, ok, err}
use zee.Config.{Config, load_file}
use zee.Responder.Permission.{Permission, FileView}
use zee.Telemetry.CutState.Ledger.{LedgerFile, missing, unreadable}
use zee.Egress.Payload.{Body, egress, config}
use zee.Egress.World.{World}
use zee.Egress.Submit.{Checked, refused, accepted}
use zee.Privsep.World.{
  Env, Daemon, GenFile, no_file, number, bad_file, FileRead, unread, read, AdminEntry, edit, log,
  write, on_engine,
}
use zee.Privsep.Files.{
  gen_of, ledger_sha, bindings, bump_gen, config_of, write_auto, auto_set, raise_zee,
  store_permission, save_permission, config_set, replace_config,
}
use zee.Privsep.Admin.{
  restore_asset, apply_admin, change_keys, run_admin, apply_fresh, apply_unless, apply_bound,
  apply_body, act, submit, stale,
}

abbrev pub SameCuts : Daemon → Daemon → Type 0
SameCuts d e = e.cuts ≡ d.cuts

pub same_cuts : Order SameCuts
same_cuts = record { stays = λ d. refl; compose = λ c d e p q. q ∙ p }

pub edit-SameCuts :
    (f : Daemon → Daemon) → ((d : Daemon) → SameCuts d (f d)) → Moves SameCuts (edit f)
unfolding edit
edit-SameCuts f h = record { along = h }

log-SameCuts : (e : AdminEntry) → Moves SameCuts (log e)
unfolding log
log-SameCuts e = record { along = λ d. refl }

write-SameCuts :
    (env : Env) (f : Daemon → Daemon)
    → ((d : Daemon) → SameCuts d (f d))
    → Moves SameCuts (write env f)
unfolding write
write-SameCuts env f h = record {
  along = λ d. ground (arith, h (record d { writes = suc d.writes }));
}

pub on_engine-SameCuts : {A : Type 0} (m : Exec World A) → Moves SameCuts (on_engine m)
unfolding on_engine
on_engine-SameCuts m = record { along = λ d. refl }

gen_of-SameCuts : (g : GenFile) → Moves SameCuts (gen_of g)
unfolding gen_of
gen_of-SameCuts no_file = give-Moves same_cuts 0
gen_of-SameCuts (number n) = give-Moves same_cuts n
gen_of-SameCuts bad_file = throw-Moves same_cuts _

ledger_sha-SameCuts : (env : Env) (l : LedgerFile) → Moves SameCuts (ledger_sha env l)
unfolding ledger_sha
ledger_sha-SameCuts env missing = give-Moves same_cuts _
ledger_sha-SameCuts env unreadable = throw-Moves same_cuts _
ledger_sha-SameCuts env _ = give-Moves same_cuts _

pub bindings-SameCuts : (env : Env) (op : String) → Moves SameCuts (bindings env op)
unfolding bindings
bindings-SameCuts env op = record {
  along = λ d.
      (bind-Moves same_cuts _ _ (gen_of-SameCuts d.gen) (λ n.
          bind-Moves same_cuts _ _
            (if-Moves (op == "restore") _ _ (ledger_sha-SameCuts env d.ledger)
              (give-Moves same_cuts _))
            (λ l. give-Moves same_cuts _))).along
        d;
}

pub config_of-SameCuts : (env : Env) (t : Option String) → Moves SameCuts (config_of env t)
unfolding config_of
config_of-SameCuts env none = give-Moves same_cuts _
config_of-SameCuts env (some text) = loaded (load_file (env.toml text))
  where
    loaded : (r : Result Config) → Moves SameCuts (raise_zee r)
    loaded (ok c) = give-Moves same_cuts _
    loaded (err e) = throw-Moves same_cuts _

bump_gen-SameCuts : (env : Env) → Moves SameCuts (bump_gen env)
unfolding bump_gen
bump_gen-SameCuts env = record {
  along = λ d.
      (bind-Moves same_cuts _ _ (gen_of-SameCuts d.gen)
          (λ n. write-SameCuts env _ (λ e. refl))).along
        d;
}

store_permission-SameCuts :
    (env : Env) (r : Result FileView) → Moves SameCuts (store_permission env r)
unfolding store_permission
store_permission-SameCuts env (ok v) = write-SameCuts env _ (λ e. refl)
store_permission-SameCuts env (err e) = throw-Moves same_cuts _

save_permission-SameCuts : (env : Env) (p : Permission) → Moves SameCuts (save_permission env p)
unfolding save_permission
save_permission-SameCuts env p = record { along = λ d. (store_permission-SameCuts env _).along d }

auto_set-SameCuts : (env : Env) (on : Bool) → Moves SameCuts (auto_set env on)
unfolding auto_set write_auto
auto_set-SameCuts env on = record {
  along = λ d.
      (bind-Moves same_cuts _ _ (config_of-SameCuts env d.config_file) (λ c. record {
        along = λ e.
            (if-Moves _ _ _ (give-Moves same_cuts _) (
                bind-Moves same_cuts _ _ (save_permission-SameCuts env _)
                  (λ _. give-Moves same_cuts _))).along
              e;
      })).along
        d;
}

replace_config-SameCuts :
    (env : Env) (t : String) (why : Option String) → Moves SameCuts (replace_config env t why)
unfolding replace_config
replace_config-SameCuts env t (some why) = give-Moves same_cuts _
replace_config-SameCuts env t none =
    bind-Moves same_cuts _ _ (write-SameCuts env _ (λ e. refl))
      (λ _. bind-Moves same_cuts _ _ (auto_set-SameCuts env false) (λ _. give-Moves same_cuts _))

config_set-SameCuts : (env : Env) (f : FileRead) (h : String) → Moves SameCuts (config_set env f h)
unfolding config_set
config_set-SameCuts env unread h = give-Moves same_cuts _
config_set-SameCuts env (read none digest) h =
    if-Moves _ _ _ (give-Moves same_cuts _) (give-Moves same_cuts _)
config_set-SameCuts env (read (some t) digest) h =
    if-Moves _ _ _ (give-Moves same_cuts _) (replace_config-SameCuts env t _)

restore_asset-SameCuts :
    (env : Env) (a : String) (b : Bool) → Moves SameCuts (restore_asset env a b)
unfolding restore_asset
restore_asset-SameCuts env a b = record { along = λ d. refl }

apply_admin-SameCuts :
    (env : Env) (op : String) (a : Dict String) → Moves SameCuts (apply_admin env op a)
unfolding apply_admin
apply_admin-SameCuts env op a = if-Moves _ _ _ (restore_asset-SameCuts env _ _) (
    if-Moves _ _ _ (config_set-SameCuts env _ _) (
      if-Moves _ _ _ (auto_set-SameCuts env _) (
        if-Moves _ _ _
          (bind-Moves same_cuts _ _ (write-SameCuts env _ (λ d. refl))
            (λ _. give-Moves same_cuts _))
          (if-Moves _ _ _
            (bind-Moves same_cuts _ _ (edit-SameCuts _ (λ d. refl)) (λ _. give-Moves same_cuts _))
            (give-Moves same_cuts _)))))

change_keys-SameCuts :
    (env : Env) (op key_id : String) (a : Dict String)
    → Moves SameCuts (change_keys env op key_id a)
unfolding change_keys
change_keys-SameCuts env op key_id a = record {
  along = λ d.
      (bind-Moves same_cuts _ _ (on_engine-SameCuts _) (λ failed.
          bind-Moves same_cuts _ _ (edit-SameCuts _ (λ e. refl))
            (λ _. give-Moves same_cuts failed))).along
        d;
}

run_admin-SameCuts :
    (env : Env) (rid op : String) (a : Dict String) → Moves SameCuts (run_admin env rid op a)
unfolding run_admin
run_admin-SameCuts env rid op a =
    bind-Moves same_cuts _ _ (apply_admin-SameCuts env op a) (λ outcome.
      bind-Moves same_cuts _ _ (edit-SameCuts _ (λ d. refl))
        (λ _. bind-Moves same_cuts _ _ (log-SameCuts _) (λ _. give-Moves same_cuts _)))

apply_unless-SameCuts :
    (env : Env) (rid op key_id : String) (a : Dict String) (ks : List String)
    → Moves SameCuts (apply_unless env rid op key_id a ks)
unfolding apply_unless apply_fresh
apply_unless-SameCuts env rid op key_id a [] =
    bind-Moves same_cuts _ _ (bump_gen-SameCuts env)
      (λ _. if-Moves _ _ _ (change_keys-SameCuts env op key_id a) (run_admin-SameCuts env rid op a))
apply_unless-SameCuts env rid op key_id a (k ∷ ks) =
    bind-Moves same_cuts _ _ (edit-SameCuts _ (λ d. refl))
      (λ _. bind-Moves same_cuts _ _ (log-SameCuts _) (λ _. give-Moves same_cuts _))

apply_body-SameCuts :
    (env : Env) (rid key_id : String) (b : Body) → Moves SameCuts (apply_body env rid key_id b)
unfolding apply_body apply_bound
apply_body-SameCuts env rid key_id (egress host dests procs max_bytes ids until) =
    throw-Moves same_cuts _
apply_body-SameCuts env rid key_id (config context op a) =
    bind-Moves same_cuts _ _ (bindings-SameCuts env op)
      (λ now. apply_unless-SameCuts env rid op key_id a (stale now a))

act-SameCuts : (env : Env) (key_id : String) (c : Checked) → Moves SameCuts (act env key_id c)
unfolding act
act-SameCuts env key_id (refused reason) = give-Moves same_cuts _
act-SameCuts env key_id (accepted req) =
    bind-Moves same_cuts _ _ (apply_body-SameCuts env req.id key_id req.body)
      (λ _. give-Moves same_cuts _)

pub submit-SameCuts :
    (env : Env) (payload entered key_id : Json) (signature : Option String)
    → Moves SameCuts (submit env payload entered key_id signature)
unfolding submit
submit-SameCuts env payload entered key_id signature =
    bind-Moves same_cuts _ _ (on_engine-SameCuts _) (λ c. act-SameCuts env _ c)
