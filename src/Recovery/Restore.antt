-- ===== src/Recovery/Restore.antt =====
-- src/zee/recovery/restore.py: `restore` from the record of a cut, without `all_interfaces`.
-- The texts of the details and of the notices are left out.
pub mod Confirmed
pub mod Commands
pub mod Outcome
use zee.Prelude.{
  String, Bool, true, false, not, Option, none, some, List, [], ◌∷◌, ◌++◌, ◌==◌, ◌<>◌, map, keep,
  distinct, if◌then◌else◌,
}
use zee.Errors.{Result, ok, err, restore_failed, restore_no_cut_record, restore_unverified}
use zee.Telemetry.CutState.{Kind, firewall, nmcli, iface, CutRecord, entries}
use zee.Telemetry.CutState.Ledger.{unresolved_for, mark_resolved}
use zee.Recovery.Host.{
  Command, Host, Notice, refused, restored, unverified, failed, World, Run, Step, combine, summary,
  run, host_platform,
}
use zee.Recovery.Firewall.{firewall_steps}

abbrev pub is_firewall : Kind × String → Bool
is_firewall (firewall, n) = true
is_firewall (nmcli, n) = false
is_firewall (iface, n) = false

-- what is not a firewall entry, by name
unfoldable pub targets_of : CutRecord → List String
targets_of rec = map (λ p. p.1) (keep (λ p. not (is_firewall p)) (entries rec))

unfoldable pub recorded_firewall : CutRecord → List String
recorded_firewall rec = map (λ p. p.1) (keep is_firewall (entries rec))

-- `states.get(t)`
pub state_in : List (String × String) → String → Option String
state_in [] t = none
state_in ((n, v) ∷ states) t = if n == t then some v else state_in states t

-- a target is back only if it is read as enabled
unfoldable pub verdict : Option String → Option Bool
verdict none = none
verdict (some v) =
    if v == "disabled" then some false else if v == "enabled" then some true else none

-- `_readback`, on the listing
unfoldable pub readback : Option (List (String × String)) → List String → Option Bool
unfolding verdict state_in
readback none targets = none
readback (some states) targets = combine (map (λ t. verdict (state_in states t)) (distinct targets))

module _ (host : Host) where
  up_step : String → String → List String → Run Step
  up_step name exe args cs = let (said, cs1) = run host exe args cs in ((name, some said.0), cs1)

  -- the command for one interface or service of the record
  interface_step : String → String → Run Step
  unfolding up_step
  interface_step platform entry =
      if platform == "linux"
      then up_step entry "ip" ("link" ∷ "set" ∷ entry ∷ "up" ∷ [])
      else if platform == "darwin"
      then up_step entry "networksetup" ("-setnetworkserviceenabled" ∷ entry ∷ "on" ∷ [])
      else up_step entry "netsh" ("interface" ∷ "set" ∷ "interface" ∷ entry ∷ "admin=enable" ∷ [])

  -- the loop over the entries; the firewall's are left to the steps below
  pub entry_steps : String → List (Kind × String) → Run (List Step)
  unfolding interface_step up_step
  entry_steps platform [] cs = ([], cs)
  entry_steps platform ((firewall, entry) ∷ ps) cs = entry_steps platform ps cs
  entry_steps platform ((nmcli, entry) ∷ ps) cs =
      let (s, cs1) = up_step "nmcli" "nmcli" ("networking" ∷ "on" ∷ []) cs in
      let (ss, cs2) = entry_steps platform ps cs1 in (s ∷ ss, cs2)
  entry_steps platform ((iface, entry) ∷ ps) cs =
      let (s, cs1) = interface_step platform entry cs in
      let (ss, cs2) = entry_steps platform ps cs1 in (s ∷ ss, cs2)

  -- the steps of `_restore_targeted`: the entries that are no firewall rule, then the firewall
  pub targeted_steps : CutRecord → Run (List Step)
  unfolding entry_steps
  targeted_steps rec cs =
      let (up, cs1) = entry_steps rec.platform (entries rec) cs in
      let (fw, cs2) = firewall_steps host rec.platform (recorded_firewall rec) cs1 in
      (up ++ fw, cs2)

  -- `_restore_targeted`
  pub restore_targeted : CutRecord → Run (Option Bool)
  unfolding targeted_steps
  restore_targeted rec cs =
      if not (rec.platform == host_platform host)
      then (some false, cs)
      else (let (steps, cs1) = targeted_steps rec cs in (summary steps, cs1))

  -- the read-back, where the record names a target
  with_readback : List String → Option Bool → List Command → Option Bool
  with_readback [] status cs = status
  with_readback (t ∷ ts) status cs =
      combine (status ∷ readback (host.interface_states cs) (t ∷ ts) ∷ [])

  announce : Notice → World → World
  announce n w = record w { notices = w.notices ++ n ∷ [] }

  -- the end of `restore`: only a confirmed one is marked as resolved, and it is a success even where the
  -- write of the mark fails
  settle : String → Option Bool → World → Result (Unit {0}) × World
  unfolding announce
  settle asset_id (some true) w = (
    ok tt,
    announce (restored asset_id)
        (record w { ledger = mark_resolved host.iso host.ledger_write asset_id host.now w.ledger }),
  )
  settle asset_id none w = (err restore_unverified, announce (unverified asset_id) w)
  settle asset_id (some false) w = (err restore_failed, announce (failed asset_id) w)

  restore_record : String → CutRecord → World → Result (Unit {0}) × World
  unfolding restore_targeted with_readback settle
  restore_record asset_id rec w =
      let (status, cs) = restore_targeted rec w.commands in
      settle asset_id (with_readback (targets_of rec) status cs) (record w { commands = cs })

  refuse : String → World → Result (Unit {0}) × World
  unfolding announce
  refuse asset_id w = (err restore_no_cut_record, announce (refused asset_id) w)

  restore_found : String → Option CutRecord → Bool → World → Result (Unit {0}) × World
  unfolding restore_record refuse
  restore_found asset_id none damaged w = refuse asset_id w
  restore_found asset_id (some rec) damaged w =
      if damaged then refuse asset_id w else restore_record asset_id rec w

  unfoldable pub restore : String → World → Result (Unit {0}) × World
  unfolding restore_found
  restore asset_id w =
      let (latest, damaged) = unresolved_for host.iso asset_id w.ledger in
      restore_found asset_id latest damaged w
