-- ===== src/Privsep/Files.antt =====
-- src/zee/privsep/daemon.py: what the daemon reads from its files, and the operations that replace them.
use Prim.Native.Char.{code}
use Prim.Native.String
use zee.Prelude.{
  ℕ, zero, suc, ◌+◌, String, Bool, true, false, not, ◌&&◌, ◌||◌, Option, none, some, List, [], ◌∷◌,
  ◌++◌, ◌==◌, nat_eq, leb, ltb, all, map, contains, if◌then◌else◌,
}
use zee.Prelude.Dict.{Dict}
use zee.Prelude.Exec.{Exec, zee_error, value_error, os_error, give, throw, ◌>>=◌, ◌>>◌}
use zee.Prelude.Json
use zee.Prelude.Json.{Json, Fields, obj, str, decimal, pos, negsuc, ℤ}
use zee.Errors
use zee.Errors.{Result}
use zee.Config.{Config, load_file}
use zee.Responder.Permission.{Permission, FileView, Loaded, permission, policy_hash, load, save}
use zee.Telemetry.CutState.Ledger.{
  Line, LedgerFile, missing, unreadable, lines, unended, blank, malformed, value,
}
use zee.Privsep.World.{
  Env, Daemon, GenFile, no_file, number, bad_file, FileRead, unread, read, write,
}

abbrev pub tamper_asset : String
tamper_asset = "zee-tamper"

-- `_gen`
unfoldable pub gen_of : GenFile → Exec Daemon ℕ
gen_of no_file = give 0
gen_of (number n) = give n
gen_of bad_file = throw value_error

unfoldable pub config_sha : Env → Option String → String
config_sha env none = "absent"
config_sha env (some text) = env.sha256 text

unfoldable pub ledger_sha : Env → LedgerFile → Exec Daemon String
ledger_sha env missing = give "absent"
ledger_sha env unreadable = throw os_error
ledger_sha env file = give (env.ledger_sha256 file)

-- `bindings`: the fields that the daemon fills in, as they are now
unfoldable pub bindings : Env → String → Exec Daemon (Dict String)
bindings env op d =
    (do
      n ← gen_of d.gen
      ledger ← (if op == "restore" then ledger_sha env d.ledger else give "")
      give (
          ("gen", decimal n)
          ∷ ((if op == "auto_set" then ("config_sha256", config_sha env d.config_file) ∷ [] else [])
              ++ (if op == "restore" then ("ledger_sha256", ledger) ∷ [] else []))))
      d

-- `bump_gen`
unfoldable pub bump_gen : Env → Exec Daemon (Unit {0})
bump_gen env d = (do n ← gen_of d.gen; write env (λ e. record e { gen = number (n + 1) })) d

abbrev pub raise_zee : Result Config → Exec Daemon (Option Config)
raise_zee (Errors.ok c) = give (some c)
raise_zee (Errors.err e) = throw zee_error

-- `config`
unfoldable pub config_of : Env → Option String → Exec Daemon (Option Config)
config_of env none = give none
config_of env (some text) = raise_zee (load_file (env.toml text))

-- the same where a `ZeeError` counts as no config
unfoldable pub config_or_none : Env → Option String → Option Config
config_or_none env none = none
config_or_none env (some text) = elim (load_file (env.toml text)) [
  | Errors.ok c ↦ some c
  | Errors.err e ↦ none
]

abbrev pub tamper_actions : List String
tamper_actions = "off" ∷ "egress" ∷ "full" ∷ []

known_action : Option Json → String
known_action (some (str a)) = if contains a tamper_actions then a else "off"
known_action _ = "off"

-- `tamper_action`: anything unreadable or unknown is off
unfoldable pub tamper_action : Option Json → String
unfolding known_action
tamper_action (some (obj fs)) = known_action (Json.get "action" fs)
tamper_action _ = "off"

asset_of : Json → List String
asset_of (obj fs) = elim (Json.get "asset_id" fs) [ some (str a) ↦ a ∷ [] | _ ↦ [] ]
asset_of _ = []

-- the ids in a ledger, up to the first line that is no JSON
ledger_ids : List Line → List String
unfolding asset_of
ledger_ids [] = []
ledger_ids (blank ∷ ls) = ledger_ids ls
ledger_ids (malformed ∷ ls) = []
ledger_ids (value v ∷ ls) = asset_of v ++ ledger_ids ls

abbrev ids_in : LedgerFile → List String
ids_in (lines ls) = ledger_ids ls
ids_in (unended ls l) = ledger_ids (ls ++ l ∷ [])
ids_in _ = []

abbrev assets_of : Option Config → List String
assets_of none = []
assets_of (some c) = map (λ a. a.id) c.assets

-- `_restorable`
unfoldable pub restorable : Env → Daemon → List String
unfolding ledger_ids
restorable env d = tamper_asset ∷ (assets_of (config_or_none env d.config_file) ++ ids_in d.ledger)

-- `n + 1`
after : ℤ → ℤ
after (pos n) = pos (n + 1)
after (negsuc zero) = pos 0
after (negsuc (suc n)) = negsuc n

next_revision : Loaded → ℤ
unfolding after
next_revision (permission p) = after p.revision
next_revision _ = pos 1

abbrev or_empty : Option Config → Config
or_empty none = record { assets = []; dry_run = true; privsep_socket = none }
or_empty (some c) = c

-- the permission that `_auto_set` writes
unfoldable pub auto_permission : Env → Bool → Option Config → Daemon → Permission
unfolding next_revision
auto_permission env on config d = record {
  schema_version = pos 1;
  enabled = on;
  revision = next_revision (load env.iso env.instance_id d.permission_file);
  instance_id = env.instance_id;
  policy_hash = policy_hash env.policy_digest (or_empty config);
  disclosure_version = "1";
  changed_by = "signed";
  changed_at = env.changed_at d.engine.now;
}

abbrev pub is_none_config : Option Config → Bool
is_none_config none = true
is_none_config (some c) = false

unfoldable pub store_permission : Env → Result FileView → Exec Daemon (Unit {0})
store_permission env (Errors.ok v) = write env (λ e. record e { permission_file = v })
store_permission env (Errors.err e) = throw value_error

unfoldable pub save_permission : Env → Permission → Exec Daemon (Unit {0})
save_permission env p d = store_permission env (save env.iso env.instance_id p d.permission_file) d

unfoldable pub write_auto : Env → Bool → Option Config → Exec Daemon (Bool × String)
write_auto env on config d =
    (if on && is_none_config config then give (false, "no config") else do
      save_permission env (auto_permission env on config d)
      give (true, (if on then "auto-cut on" else "auto-cut off")))
      d

-- `_auto_set`
unfoldable pub auto_set : Env → Bool → Exec Daemon (Bool × String)
auto_set env on d = (do config ← config_of env d.config_file; write_auto env on config) d

is_plain_char : ℕ → Bool
is_plain_char c =
    (leb b'0' c && leb c b'9')
    || (leb b'A' c && leb c b'Z')
    || (leb b'a' c && leb c b'z')
    || nat_eq c b'.'
    || nat_eq c b'_'
    || nat_eq c b'-'

all_plain : String → Bool
unfolding is_plain_char
all_plain String.[] = true
all_plain (String.◌∷◌ c s) = is_plain_char (code c) && all_plain s

-- `_ASSET_ID.fullmatch`
unfoldable pub is_plain_id : String → Bool
unfolding all_plain
is_plain_id s = ltb 0 (String.count s) && leb (String.count s) 64 && all_plain s

-- the checks of `_config_set` on the text, once its hash is the signed one
unfoldable pub config_fault : Env → String → Option String
config_fault env text = elim (load_file (env.toml text)) [
  | Errors.err e ↦ some "invalid config"
  | Errors.ok c ↦ if all (λ a. is_plain_id a.id) c.assets then none else some "asset ids"
]

unfoldable pub replace_config : Env → String → Option String → Exec Daemon (Bool × String)
replace_config env text (some why) = give (false, why)
replace_config env text none = do
  write env (λ e. record e { config_file = some text })
  done ← auto_set env false
  give (true, "config replaced; auto-cut is now OFF until a new signed auto_set on")

-- `_config_set`
unfoldable pub config_set : Env → FileRead → String → Exec Daemon (Bool × String)
config_set env unread sha256 = give (false, "unreadable")
config_set env (read text digest) sha256 =
    if not (digest == sha256)
    then give (false, "sha256 differs from the signed value")
    else elim text [
      | none ↦ give (false, "not UTF-8")
      | some t ↦ replace_config env t (config_fault env t)
    ]
