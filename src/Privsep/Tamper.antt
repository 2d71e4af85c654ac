-- ===== src/Privsep/Tamper.antt =====
-- src/zee/privsep/daemon.py, `check_tamper`: the response to an unapproved configuration of the watch, or
-- to a watch that has gone silent.
pub mod Alarm
pub mod Once
use zee.Prelude.{
  ℕ, suc, ◌+◌, String, Bool, true, false, not, ◌&&◌, ◌||◌, Option, none, some, List, [], ◌∷◌, ◌++◌,
  ◌==◌, ltb, if◌then◌else◌,
}
use zee.Prelude.Exec.{Exec, give, ◌>>=◌, ◌>>◌, resume}
use zee.Config.{Config}
use zee.Privsep.World.{
  Env, Daemon, CutCall, FileRead, unread, read, edit, log, AdminEntry, tamper_found, tamper_cut,
}
use zee.Privsep.Files.{config_sha, config_or_none, tamper_action, tamper_asset}
use zee.Privsep.Handle.{do_cut}

-- what the watch's own configuration shows; `none` is a daemon that was given none to look at
unfoldable pub config_findings : Env → Option FileRead → Option String → List String
config_findings env none ours = []
config_findings env (some unread) ours = "watch_config_unreadable" ∷ []
config_findings env (some (read text theirs)) ours =
    if theirs == config_sha env ours then [] else "watch_config_unapproved" ∷ []

unfoldable pub silence_findings : Env → Option ℕ → ℕ → List String
silence_findings env none now = []
silence_findings env (some t) now = if ltb (t + env.grace) now then "watch_silent" ∷ [] else []

unfoldable pub found_by : Env → Option FileRead → Daemon → List String
found_by env theirs d =
    config_findings env theirs d.config_file ++ silence_findings env d.last_seen d.engine.now

-- the cut of the tamper response, in the log
unfoldable pub cut_tamper : Env → String → Exec Daemon (Unit {0})
cut_tamper env action = do
  done ← do_cut env (record { method = action; asset_id = tamper_asset })
  log (tamper_cut action (some done.0))

unfoldable pub respond_with : Env → String → Option Config → Exec Daemon (Unit {0})
respond_with env action none = log (tamper_cut action none)
respond_with env action (some cfg) =
    if cfg.dry_run then log (tamper_cut action none) else cut_tamper env action

unfoldable pub respond : Env → String → Exec Daemon (Unit {0})
respond env action d =
    respond_with env action (config_or_none env d.config_file) (record d { tamper_acted = true })

-- not before the second check in a row, and once
unfoldable pub act_on : Env → Exec Daemon (Unit {0})
act_on env d =
    let action = tamper_action d.tamper_file in
    (if (action == "off") || ltb d.strikes 2 || d.tamper_acted then give tt else respond env action)
      d

unfoldable pub log_found : List String → Exec Daemon (Unit {0})
log_found found d = log (tamper_found found d.strikes) d

unfoldable pub checked_for : Env → List String → Exec Daemon (Unit {0})
checked_for env [] = edit (λ d. record d { findings = []; strikes = 0; tamper_acted = false })
checked_for env (f ∷ fs) = do
  edit (λ d. record d { findings = f ∷ fs; strikes = suc d.strikes })
  log_found (f ∷ fs)
  act_on env

-- `check_tamper`
unfoldable pub check_tamper : Env → Option FileRead → Exec Daemon (Unit {0})
check_tamper env theirs d = checked_for env (found_by env theirs d) d
