-- ===== src/Recovery/Host.antt =====
-- src/zee/recovery/restore.py: running commands on the host, and the judgement of steps.
-- What a command answers may depend on every command that was run before it.
use zee.Prelude.{
  String, Bool, true, false, not, ◌||◌, Option, none, some, List, [], ◌∷◌, ◌++◌, ◌<>◌, nat_eq, any,
  map, or_else, starts_with, if◌then◌else◌,
}
use zee.Prelude.Json.{ℤ, pos, negsuc, show_int}
use zee.Prelude.Time.{Instant, IsoTime}
use zee.Telemetry.CutState.Ledger.{LedgerFile, Written}

abbrev pub Command : Type 0
Command = List String

-- What `subprocess.run` gives: an exception's text, or the return code, stdout and stderr.
pub data Process : Type 0 where
  not_started : String → Process
  exited : ℤ → String → String → Process

-- The operating system, and what Python's `str` and `re` answer on its texts.
pub record Host : Type 0 where
  pub iso : IsoTime
  pub now : Instant
  pub sys_platform : String
  pub which : String → Bool
  pub process : List Command → Command → Process
  pub interface_states : List Command → Option (List (String × String))
  pub kernel_ipv6_absent : Bool
  pub strip : String → String
  pub splitlines : String → List String
  pub is_digit : String → Bool
  pub ledger_write : Written  -- how the write of the ledger ends
  pub is_before_1_8 : String → Bool  -- the version in the answer of `iptables --version`

pub data Notice : Type 0 where
  refused restored unverified failed : String → Notice

pub record World : Type 0 where
  pub commands : List Command
  pub notices : List Notice
  pub ledger : LedgerFile

-- A part of the recovery that runs commands, given those that were run before.
abbrev pub Run : Type 0 → Type 0
Run A = List Command → A × List Command

-- done and confirmed, failed, or (`none`) not confirmed
abbrev pub Step : Type 0
Step = String × Option Bool

abbrev pub is_false : Option Bool → Bool
is_false (some false) = true
is_false _ = false

abbrev pub is_unconfirmed : Option Bool → Bool
is_unconfirmed none = true
is_unconfirmed (some _) = false

abbrev pub is_confirmed : Option Bool → Bool
is_confirmed (some true) = true
is_confirmed _ = false

-- `_combine`: nothing to judge is no success
unfoldable pub combine : List (Option Bool) → Option Bool
combine [] = none
combine (s ∷ ss) =
    if any is_false (s ∷ ss)
    then some false
    else if any is_unconfirmed (s ∷ ss)
    then none
    else some true

-- `_summary`, without its text
unfoldable pub summary : List Step → Option Bool
unfolding combine
summary [] = some false
summary (s ∷ ss) = combine (map (λ step. step.1) (s ∷ ss))

abbrev pub launch_failed : String
launch_failed = "launch failed: "

unfoldable pub is_code : ℤ → Bool
is_code (pos n) = nat_eq n 126 || nat_eq n 127
is_code (negsuc n) = false

unfoldable pub is_zero : ℤ → Bool
is_zero (pos n) = nat_eq n 0
is_zero (negsuc n) = false

module _ (host : Host) where
  unfoldable pub answer : Process → Bool × String
  unfolding is_code is_zero
  answer (not_started e) = (false, launch_failed <> e)
  answer (exited code out errors) =
      if is_code code
      then (
        false,
        launch_failed <> "exit " <> show_int code <> ": " <> host.strip (or_else errors out),
      )
      else if not (is_zero code)
      then (false, host.strip (or_else errors out))
      else (true, host.strip out)

  -- `_run`
  unfoldable pub run : String → List String → Run (Bool × String)
  unfolding answer
  run exe args cs =
      if host.which exe
      then (answer (host.process cs (exe ∷ args)), cs ++ (exe ∷ args) ∷ [])
      else ((false, launch_failed <> exe <> " not found"), cs)

  -- `_host_platform`
  unfoldable pub host_platform : String
  host_platform = if starts_with host.sys_platform "linux" then "linux" else host.sys_platform
