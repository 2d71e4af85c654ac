-- ===== src/Tests/Privsep.antt =====
-- The daemon on a host that is out of dry run, with an automatic permission for one workstation.
use zee.Prelude.{◌≤◌, ◌+◌, String, true, false, ◌≡◌, refl, ◌⊎◌, some, List, [], ◌∷◌, length}
use zee.Prelude.Exec.{returned}
use zee.Prelude.Json.{Json, bool, str, arr, obj, nil, cons, field, end, pos}
use zee.Responder.Permission.{Permission, opened, file_mode, dir_mode, encode}
use zee.Telemetry.CutState.Ledger.{missing}
use zee.Egress.State.{unreadable}
use zee.Egress.World.{start}
use zee.Privsep.World.{Env, Daemon, no_file, unread}
use zee.Privsep.Requests.{recent}
use zee.Privsep.Requests.Limit.{Ask, in_order, let_through, let_through-le-ten}
use zee.Privsep.Dispatch.{handle_line}
use zee.Privsep.Dispatch.Peers.{IsRejected, stranger-IsRejected}
use zee.Privsep.Dispatch.Boundary.{IsPermittedCut, handle_line-cuts}
use zee.Privsep.Tamper.{check_tamper, found_by, config_findings}
use zee.Privsep.Tamper.Alarm.{IsAlarmCut, check_tamper-cuts}
use zee.Privsep.Tamper.Once.{Check, checks, checks-once, all_find}
use zee.Tests.Data.{clock, noon}
use zee.Tests.Egress

abbrev toml : Json
toml = obj (
    field "dry_run" (bool false) (
      field "assets"
        (arr (
          cons
            (obj (
              field "id" (str "laptop") (
                field "type" (str "workstation") (
                  field "response_mode" (str "auto")
                    (field "decoy_paths" (arr nil) (field "cut_method" (str "egress") end))))))
            nil))
        end))

abbrev hash : String
hash = "00000000000000000000000000000000000000000000000000000000000000aa"

abbrev env : Env
env = record {
  egress = Egress.env;
  iso = clock;
  instance_id = "/var/zee";
  policy_digest = λ ps. hash;
  toml = λ s. some toml;
  sha256 = λ s. hash;
  ledger_sha256 = λ l. hash;
  cut = λ c l. (returned (true, "cut"), l);
  restore = λ a b l. (returned (true, "restored"), l);
  b64decode = λ s. some s;
  read_bounded = λ s. unread;
  is_abs = λ s. true;
  changed_at = λ n. noon;
  write_fails = λ n. false;
  allow = 501 ∷ [];
  grace = 300;
}

abbrev permit : Permission
permit = record {
  schema_version = pos 1;
  enabled = true;
  revision = pos 1;
  instance_id = "/var/zee";
  policy_hash = hash;
  disclosure_version = "1";
  changed_by = "signed";
  changed_at = noon;
}

abbrev daemon : Daemon
daemon = record {
  engine = start Egress.env.floats 1000 unreadable;
  outcome = (false, "");
  gen = no_file;
  config_file = some "assets";
  permission_file = record {
    parent_is_link = false;
    is_link = false;
    posix = true;
    opening = opened (record {
      regular = true;
      mode = file_mode;
      parent_mode = dir_mode;
      content = some (obj (encode clock permit));
    });
  };
  tamper_file = some (obj (field "action" (str "full") end));
  ledger = missing;
  cuts = [];
  restores = [];
  stopping = false;
  last_seen = some 900;
  findings = [];
  strikes = 0;
  tamper_acted = false;
  asked = [];
  owner = [];
  writes = 0;
  entries = [];
}

abbrev cut_line : Json
cut_line = obj (
    field "op" (str "cut") (
      field "asset_id" (str "laptop")
        (field "op_class" (str "change") (field "confidence" (str "high") end))))

stranger-IsRejected_example : IsRejected env daemon (handle_line env (some cut_line) 7 daemon)
stranger-IsRejected_example = stranger-IsRejected env (some cut_line) 7 daemon refl refl

handle_line-cuts_example :
    ((handle_line env (some cut_line) 501 daemon).1.cuts ≡ daemon.cuts)
    ⊎ IsPermittedCut env (some cut_line) 501 daemon (handle_line env (some cut_line) 501 daemon).1
handle_line-cuts_example = handle_line-cuts env (some cut_line) 501 daemon

check_tamper-cuts_example :
    ((check_tamper env (some unread) daemon).1.cuts ≡ daemon.cuts)
    ⊎ IsAlarmCut env (some unread) daemon (check_tamper env (some unread) daemon).1
check_tamper-cuts_example = check_tamper-cuts env (some unread) daemon

abbrev alarm : List Check
alarm = (1000, some unread) ∷ (1001, some unread) ∷ (1002, some unread) ∷ []

checks-once_example : length (checks env alarm daemon).cuts ≤ 0 + 1
unfolding config_findings found_by all_find
checks-once_example = checks-once env alarm daemon refl

abbrev asks : List Ask
asks =
    record { at = 10; uid = 501; op = "challenge" }
    ∷ record { at = 20; uid = 502; op = "challenge" }
    ∷ record { at = 20; uid = 501; op = "challenge" }
    ∷ []

let_through-le-ten_example : length (recent 30 (let_through 501 "challenge" asks daemon)) ≤ 10
unfolding in_order
let_through-le-ten_example = let_through-le-ten 501 "challenge" asks 30 daemon refl refl
