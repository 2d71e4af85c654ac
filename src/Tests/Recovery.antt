-- ===== src/Tests/Recovery.antt =====
-- A restore on a host that answers as expected.
use zee.Prelude.{◌==◌, is_solid, is_ascii}
use zee.Prelude.Exec.{returned}
use zee.Recovery.Token
use zee.Recovery.Token.{init_token, verify_token, verify_token-init_token}
use zee.Prelude.{
  List, true, false, ◌≡◌, refl, none, some, [], ◌∷◌, distinct, without, contains, truthy,
}
use zee.Prelude.Json
use zee.Prelude.Json.{pos, texts}
use zee.Errors.{◌>>=◌}
use zee.Telemetry.CutState
use zee.Telemetry.CutState.{CutRecord, entries}
use zee.Telemetry.CutState.Ledger.{lines, whole, value, cut_json, scan_line, unresolved_for}
use zee.Recovery.Host.{Host, World, exited, run, summary, combine, host_platform}
use zee.Recovery.Recorded.{release_pf_tokens}
use zee.Recovery.Firewall.Absent.{AllAbsent}
use zee.Recovery.Firewall.{Group, firewall_steps, groups_of, judge_absent}
use zee.Recovery.Restore.{restore, targets_of, recorded_firewall, readback}
use zee.Recovery.Restore.Outcome.{
  is_ok, IsUndone, restore-IsUndone, restore-AllAbsent, Effects, can_restore, restore-Effects,
}
use zee.Tests.Data.{clock, noon}

abbrev mac : Host
mac = record {
  iso = clock;
  now = noon;
  sys_platform = "darwin";
  which = λ tool. true;
  process = λ before command. exited (pos 0) "" "";
  interface_states = λ before. some (("en0", "enabled") ∷ []);
  kernel_ipv6_absent = false;
  strip = λ s. s;
  splitlines = λ s. s ∷ [];
  is_digit = λ s. false;
  ledger_write = whole;
  is_before_1_8 = λ s. false;
}

abbrev after_cut : World
after_cut = record {
  commands = [];
  notices = [];
  ledger = lines (value (cut_json clock "laptop" "full" "darwin" ("en0" ∷ []) none noon) ∷ []);
}

mac-restored : is_ok (restore mac "laptop" after_cut).0 ≡ true
unfolding restore unresolved_for ◌>>=◌ Json.get texts truthy run summary combine host_platform
    entries targets_of recorded_firewall readback firewall_steps groups_of judge_absent distinct
    without contains scan_line CutState.parse cut_json release_pf_tokens
mac-restored = refl

restore-IsUndone_example :
    (rec : CutRecord) × (unresolved_for clock "laptop" after_cut.ledger ≡ (some rec, false))
    × IsUndone mac rec []
restore-IsUndone_example = restore-IsUndone mac "laptop" after_cut mac-restored

restore-Effects_example :
    Effects mac "laptop" after_cut
      (can_restore (unresolved_for clock "laptop" after_cut.ledger))
      (restore mac "laptop" after_cut)
restore-Effects_example = restore-Effects mac "laptop" after_cut

restore-AllAbsent_example : (gs : List Group) × (groups_of "darwin" ≡ some gs) × AllAbsent mac gs
unfolding host_platform
restore-AllAbsent_example = restore-AllAbsent mac "laptop" after_cut mac-restored

abbrev laptop_host : Token.Host
laptop_host = record { windows = false; chmod_works = true; write_fails = false; new_mode = 0o644 }

verify_token-init_token_example :
    verify_token false "k7-Q_x" (init_token laptop_host "k7-Q_x" none).1
    ≡ returned ("k7-Q_x" == "k7-Q_x")
unfolding is_solid is_ascii
verify_token-init_token_example =
    verify_token-init_token laptop_host "k7-Q_x" "k7-Q_x" none refl refl refl refl refl
