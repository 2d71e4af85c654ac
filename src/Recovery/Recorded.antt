-- ===== src/Recovery/Recorded.antt =====
-- src/zee/recovery/restore.py: what the firewall entries of a cut record demand: a tool of the iptables
-- backend that the cut used, and the release of the pf tokens that it took.
use Prim.Native.String
use Prim.Native.String.{String, compare}
use zee.Prelude.{
  ℕ, zero, suc, Bool, true, false, not, ◌&&◌, ◌||◌, Option, none, some, List, [], ◌∷◌, ◌++◌, ◌==◌,
  ◌<>◌, map, keep, contains, starts_with, distinct, if◌then◌else◌,
}
use zee.Telemetry.CutState.{
  sentinel_linux_iptables_egress, sentinel_linux_ip6tables_egress, ipt_backend_prefix,
}
use zee.Prelude.Sort.{sorted}
use zee.Recovery.Names.{pf_token_prefix, iptables, ip6tables, within}
use zee.Recovery.Host.{Host, Run, Step, launch_failed, run}

abbrev is_nil : List String → Bool
is_nil [] = true
is_nil (_ ∷ _) = false

drop_chars : ℕ → String → String
drop_chars zero s = s
drop_chars (suc n) String.[] = String.[]
drop_chars (suc n) (String.◌∷◌ c s) = drop_chars n s

-- `s.removeprefix(t)`, where `s` starts with `t`
remove_prefix : String → String → String
unfolding drop_chars
remove_prefix t s = drop_chars (String.count t) s

-- the names behind the prefix, of the entries that have it
named : String → List String → List String
unfolding remove_prefix
named prefix recorded = map (remove_prefix prefix) (keep (λ r. starts_with r prefix) recorded)

-- the set `need`
needed_backends : List String → List String
unfolding named
needed_backends recorded =
    let need = distinct (named ipt_backend_prefix recorded) in
    if contains "unknown" need || (is_nil need && contains sentinel_linux_iptables_egress recorded)
    then distinct (keep (λ b. not (b == "unknown")) need ++ "legacy" ∷ "nf_tables" ∷ [])
    else need

module _ (host : Host) where
  -- `iptables_backend`
  backend_of : String → Option String
  backend_of out =
      if within "nf_tables" out
      then some "nf_tables"
      else if within "legacy" out
      then some "legacy"
      else if host.is_before_1_8 out
      then some "legacy"
      else none

  add_backend : Bool × String → List String → List String
  unfolding backend_of
  add_backend (false, out) covered = covered
  add_backend (true, out) covered = elim (backend_of out) [ none ↦ covered | some b ↦ b ∷ covered ]

  -- the backends that the installed tools of a family say they are of
  covered_by : List String → Run (List String)
  unfolding add_backend
  covered_by [] cs = ([], cs)
  covered_by (tool ∷ tools) cs =
      let (said, cs1) = run host tool ("--version" ∷ []) cs in
      let (rest, cs2) = covered_by tools (if host.which tool then cs1 else cs) in
      (if host.which tool then add_backend said rest else rest, cs2)

  family_steps : String → List String → List String → Run (List Step)
  unfolding covered_by
  family_steps label tools need cs =
      let (covered, cs1) = covered_by tools cs in
      let open_backends = sorted compare (keep (λ b. not (contains b covered)) need) in
      (map (λ b. (label <> " " <> b <> " backend:not-found", none)) open_backends, cs1)

  families_steps : List String → List String → Run (List Step)
  unfolding family_steps
  families_steps recorded need cs =
      let (four, cs1) = family_steps "iptables" iptables need cs in
      let (six, cs2) = family_steps "ip6tables" ip6tables need cs1 in
      if contains sentinel_linux_ip6tables_egress recorded then (four ++ six, cs2) else (four, cs1)

  -- `_iptables_backend_coverage`
  unfoldable pub backend_coverage : List String → Run (List Step)
  unfolding needed_backends families_steps
  backend_coverage recorded cs =
      if is_nil (needed_backends recorded)
      then ([], cs)
      else families_steps recorded (needed_backends recorded) cs

  -- the answer of `pfctl -X`
  released : Bool × String → Option Bool
  released (done, msg) =
      if done || within "token invalid" msg || within "pf not enabled" msg
      then some true
      else if starts_with msg launch_failed
      then none
      else some false

  release_token : String → Run Step
  unfolding released
  release_token token cs =
      let (said, cs1) = run host "pfctl" ("-X" ∷ token ∷ []) cs in
      if host.is_digit token
      then (("pf enable reference " <> token, released said), cs1)
      else (("pf enable reference " <> token, none), cs)

  release_tokens : List String → Run (List Step)
  unfolding release_token
  release_tokens [] cs = ([], cs)
  release_tokens (t ∷ ts) cs =
      let (s, cs1) = release_token t cs in let (ss, cs2) = release_tokens ts cs1 in (s ∷ ss, cs2)

  -- `_release_pf_tokens`
  unfoldable pub release_pf_tokens : List String → Run (List Step)
  unfolding named release_tokens
  release_pf_tokens recorded = release_tokens (named pf_token_prefix recorded)
