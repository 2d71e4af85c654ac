-- ===== src/Privsep/World.antt =====
-- src/zee/privsep/daemon.py: the daemon's attributes and files, and the machine around it. Its engine is
-- the one of egress approval, whose clock it shares.
use zee.Prelude.{ℕ, suc, String, Bool, Option, List, [], ◌∷◌, ◌++◌, if◌then◌else◌}
use zee.Prelude.Dict.{Dict}
use zee.Prelude.Time.{Instant, IsoTime}
use zee.Prelude.Exec.{Exec, Outcome, returned, raised, os_error}
use zee.Prelude.Json.{Json}
use zee.Responder.Permission.{FileView}
use zee.Responder.Permission.Policy.{PolicyEntry}
use zee.Telemetry.CutState.Ledger.{LedgerFile}
use zee.Egress.World
use zee.Egress.World.{World}

-- a file that holds one number
pub data GenFile : Type 0 where
  no_file : GenFile
  number : ℕ → GenFile
  bad_file : GenFile

-- what reading a bounded regular file gives
pub data FileRead : Type 0 where
  unread : FileRead
  read : (text : Option String) (sha256 : String) → FileRead  -- `none`: no UTF-8

pub record CutCall : Type 0 where
  pub method : String
  pub asset_id : String

-- what the daemon's own log is given through `_log`
pub data AdminEntry : Type 0 where
  stale_request : (req op : String) → AdminEntry
  applied : (req op : String) (ok : Bool) → AdminEntry
  tamper_found : (findings : List String) (strikes : ℕ) → AdminEntry
  tamper_cut : (method : String) (result : Option Bool) → AdminEntry  -- `none`: a dry run

-- A cut and a restore may write the ledger, and raise; a write of the daemon's own files may fail.
pub record Env : Type 1 where
  pub egress : World.Env
  pub iso : IsoTime
  pub instance_id : String
  pub policy_digest : List PolicyEntry → String
  pub toml : String → Option Json
  pub sha256 : String → String
  pub ledger_sha256 : LedgerFile → String
  pub cut : CutCall → LedgerFile → Outcome (Bool × String) × LedgerFile
  pub restore :
      (asset_id : String) (all_interfaces : Bool)
      → LedgerFile
      → Outcome (Bool × String) × LedgerFile
  pub b64decode : String → Option String
  pub read_bounded : String → FileRead
  pub is_abs : String → Bool
  pub changed_at : ℕ → Instant
  pub write_fails : ℕ → Bool
  pub allow : List ℕ
  pub grace : ℕ

pub record Daemon : Type 0 where
  pub engine : World
  pub outcome : Bool × String
  pub gen : GenFile
  pub config_file : Option String
  pub permission_file : FileView
  pub tamper_file : Option Json
  pub ledger : LedgerFile
  pub cuts : List CutCall
  pub restores : List (String × Bool)
  pub stopping : Bool
  pub last_seen : Option ℕ
  pub findings : List String
  pub strikes : ℕ
  pub tamper_acted : Bool
  pub asked : List ((ℕ × String) × List ℕ)
  pub owner : Dict ℕ
  pub writes : ℕ
  pub entries : List AdminEntry

-- a method of the engine
unfoldable pub on_engine : {A : Type 0} → Exec World A → Exec Daemon A
on_engine m d = let (r, w) = m d.engine in (r, record d { engine = w })

unfoldable pub edit : (Daemon → Daemon) → Exec Daemon (Unit {0})
edit f d = (returned tt, f d)

unfoldable pub log : AdminEntry → Exec Daemon (Unit {0})
log e d = (returned tt, record d { entries = d.entries ++ e ∷ [] })

-- `os.replace` of a file written before: the whole change or none of it
unfoldable pub write : Env → (Daemon → Daemon) → Exec Daemon (Unit {0})
write env f d =
    let n = d.writes in
    if env.write_fails n
    then (raised os_error, record d { writes = suc n })
    else (returned tt, f (record d { writes = suc n }))
