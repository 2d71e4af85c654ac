-- ===== src/Recovery/Firewall.antt =====
-- src/zee/recovery/restore.py, `_firewall_steps`: Zee's own firewall rules, removed on every backend and read again.
pub mod Absent
use zee.Prelude.{
  String, Bool, true, false, not, ◌&&◌, ◌||◌, Option, none, some, List, [], ◌∷◌, ◌++◌, ◌==◌, ◌<>◌,
  all, keep, map, contains, truthy, starts_with, if◌then◌else◌,
}
use zee.Telemetry.CutState.{sentinel_linux_iptables_egress, sentinel_linux_ip6tables_egress}
use zee.Recovery.Names.{
  sentinel_linux_nft_egress, sentinel_macos_pfctl_egress, zee_rule_tag, iptables, ip6tables, within,
}
use zee.Recovery.Recorded.{backend_coverage, release_pf_tokens}
use zee.Recovery.Host.{Command, Host, Run, Step, launch_failed, run}

-- One tool: the arguments of its removals, and of the listing that is read again.
pub record Backend : Type 0 where
  pub name : String
  pub tool : String
  pub removals : List (List String)
  pub listing : List String

pub record Group : Type 0 where
  pub sentinel : Option String
  pub label : String
  pub backends : List Backend

-- `_remove_iptables_chain` and its listing; the answers of the removals are not looked at
abbrev chain_backend : String → Backend
chain_backend t = record {
  name = t;
  tool = t;
  removals =
      ("-D" ∷ "OUTPUT" ∷ "-j" ∷ "ZEE_EGRESS" ∷ [])
      ∷ ("-F" ∷ "ZEE_EGRESS" ∷ [])
      ∷ ("-X" ∷ "ZEE_EGRESS" ∷ [])
      ∷ [];
  listing = "-S" ∷ "ZEE_EGRESS" ∷ [];
}

abbrev nft_backend : Backend
nft_backend = record {
  name = "nft";
  tool = "nft";
  removals = ("delete" ∷ "table" ∷ "inet" ∷ "zee_egress" ∷ []) ∷ [];
  listing = "list" ∷ "table" ∷ "inet" ∷ "zee_egress" ∷ [];
}

abbrev pf_backend : String → Backend
pf_backend a = record {
  name = "pfctl " <> a;
  tool = "pfctl";
  removals = ("-a" ∷ a ∷ "-F" ∷ "all" ∷ []) ∷ [];
  listing = "-a" ∷ a ∷ "-s" ∷ "rules" ∷ [];
}

abbrev netsh_backend : String → Backend
netsh_backend r = record {
  name = "netsh rule " <> r;
  tool = "netsh";
  removals = ("advfirewall" ∷ "firewall" ∷ "delete" ∷ "rule" ∷ ("name=" <> r) ∷ []) ∷ [];
  listing = "advfirewall" ∷ "firewall" ∷ "show" ∷ "rule" ∷ ("name=" <> r) ∷ [];
}

-- the backends of each platform; `none` is an unsupported one
unfoldable pub groups_of : String → Option (List Group)
groups_of platform =
    if platform == "linux"
    then some (
        record {
          sentinel = some sentinel_linux_nft_egress;
          label = "nft";
          backends = nft_backend ∷ [];
        }
        ∷ record {
          sentinel = some sentinel_linux_iptables_egress;
          label = "iptables";
          backends = map chain_backend iptables;
        }
        ∷ record {
          sentinel = some sentinel_linux_ip6tables_egress;
          label = "ip6tables";
          backends = map chain_backend ip6tables;
        }
        ∷ [])
    else if platform == "darwin"
    then some (
        record {
          sentinel = some sentinel_macos_pfctl_egress;
          label = "pfctl";
          backends = map pf_backend (("com.apple/" <> zee_rule_tag) ∷ zee_rule_tag ∷ []);
        }
        ∷ [])
    else if platform == "win32"
    then some (
        record {
          sentinel = none;
          label = "netsh";
          backends =
              map netsh_backend
                ((zee_rule_tag <> "-block") ∷ (zee_rule_tag <> "-allow-local") ∷ []);
        }
        ∷ [])
    else none

abbrev recorded_in : Option String → List String → Bool
recorded_in none recorded = false
recorded_in (some s) recorded = contains s recorded

abbrev is_empty : {A : Type 0} → List A → Bool
is_empty [] = true
is_empty (_ ∷ _) = false

module _ (host : Host) where
  join_lines : List String → String
  join_lines [] = ""
  join_lines (l ∷ []) = l
  join_lines (l ∷ k ∷ ls) = l <> "\n" <> join_lines (k ∷ ls)

  -- the message behind the warnings of `iptables-nft`
  without_warnings : String → String
  unfolding join_lines
  without_warnings msg =
      host.strip (join_lines (keep (λ l. not (starts_with l "# Warning:")) (host.splitlines msg)))

  chain_absent : String → String → Bool
  chain_absent tool msg =
      (starts_with msg "iptables" || starts_with msg "ip6tables")
      && (within "No chain/target/match by that name" msg
          || within "Table does not exist" msg
          || (contains tool ip6tables
              && within "Address family not supported by protocol" msg
              && host.kernel_ipv6_absent))

  -- the backend itself says that there is nothing
  says_absent : String → String → Bool
  unfolding without_warnings chain_absent
  says_absent tool msg =
      if tool == "nft"
      then starts_with msg "Error:"
        && within "No such file or directory" msg
        && within "zee_egress" msg
      else if contains tool iptables || contains tool ip6tables
      then chain_absent tool (without_warnings msg)
      else if tool == "netsh"
      then within "No rules match the specified criteria" msg
      else false

  -- `_verify_absent`, on the answer of the listing
  unfoldable pub judge_absent : String → Bool × String → Option Bool
  unfolding says_absent
  judge_absent tool (true, msg) =
      if tool == "pfctl" then some (not (truthy (host.strip msg))) else some false
  judge_absent tool (false, msg) =
      if starts_with msg launch_failed
      then none
      else if says_absent tool msg
      then some true
      else none

  unfoldable pub run_all : String → List (List String) → List Command → List Command
  run_all tool [] cs = cs
  run_all tool (args ∷ rest) cs = run_all tool rest (run host tool args cs).1

  -- remove, and read again
  verify_backend : Backend → Run Step
  unfolding run_all judge_absent
  verify_backend b cs =
      let (said, cs') = run host b.tool b.listing (run_all b.tool b.removals cs) in
      ((b.name, judge_absent b.tool said), cs')

  verify_backends : List Backend → Run (List Step)
  unfolding verify_backend
  verify_backends [] cs = ([], cs)
  verify_backends (b ∷ bs) cs =
      let (s, cs1) = verify_backend b cs in let (ss, cs2) = verify_backends bs cs1 in (s ∷ ss, cs2)

  unfoldable pub installed : Group → List Backend
  installed g = keep (λ b. host.which b.tool) g.backends

  -- a group without an installed tool
  absent_step : String → List String → Bool → Group → Step
  absent_step platform recorded none_at_all g =
      if none_at_all || not (platform == "linux") || recorded_in g.sentinel recorded
      then (g.label <> ":not-found", none)
      else (g.label <> ":not-installed", some true)

  group_steps : String → List String → Bool → List Group → Run (List Step)
  unfolding installed absent_step verify_backends
  group_steps platform recorded none_at_all [] cs = ([], cs)
  group_steps platform recorded none_at_all (g ∷ gs) cs =
      let (ss, cs1) =
        (if is_empty (installed g)
          then (absent_step platform recorded none_at_all g ∷ [], cs)
          else verify_backends (installed g) cs) in
      let (rest, cs2) = group_steps platform recorded none_at_all gs cs1 in (ss ++ rest, cs2)

  coverage_steps : String → List String → Run (List Step)
  coverage_steps platform recorded cs =
      if platform == "linux" then backend_coverage host recorded cs else ([], cs)

  token_steps : String → List String → Run (List Step)
  token_steps platform recorded cs =
      if platform == "darwin" then release_pf_tokens host recorded cs else ([], cs)

  steps_of : String → List String → List Group → Run (List Step)
  unfolding group_steps coverage_steps token_steps
  steps_of platform recorded groups cs =
      let none_at_all = all (λ g. is_empty (installed g)) groups in
      let (ss, cs1) = group_steps platform recorded none_at_all groups cs in
      let (covered, cs2) = coverage_steps platform recorded cs1 in
      let (ts, cs3) = token_steps platform recorded cs2 in (ss ++ (covered ++ ts), cs3)

  -- `_firewall_steps`
  unfoldable pub firewall_steps : String → List String → Run (List Step)
  unfolding steps_of groups_of
  firewall_steps platform recorded cs = elim (groups_of platform) [
    | none ↦ (("firewall:unsupported-platform", some false) ∷ [], cs)
    | some groups ↦ steps_of platform recorded groups cs
  ]
