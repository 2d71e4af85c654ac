-- ===== src/Gate/Audit.antt =====
-- src/zee/gate/audit.py: pinned installs are hashed again and compared with what passed the gate.
pub mod Drift
use zee.Prelude.{
  ℕ, String, Bool, true, false, not, Option, none, some, List, [], ◌∷◌, ◌++◌, any, ◌==◌, is_some,
  if◌then◌else◌,
}
use zee.Gate.Model.{Verdict}
use zee.Gate.Denylist.{Lists, add_local}
use zee.Gate.Pins.{Pin, all_pins}

pub data Status : Type 0 where
  clean drifted missing : Status

-- `rescan`: the verdict of inspecting the changed bytes again; `none` where none was asked for or it
-- failed.
pub record PinAudit : Type 0 where
  pub pin : Pin
  pub status : Status
  pub current_hash : Option String
  pub rescan : Option Verdict

abbrev pub is_drifted : PinAudit → Bool
is_drifted r = elim r.status [ drifted ↦ true | _ ↦ false ]

abbrev pub is_missing : PinAudit → Bool
is_missing r = elim r.status [ missing ↦ true | _ ↦ false ]

-- `AuditReport.exit_code`
unfoldable pub exit_code : List PinAudit → ℕ
exit_code results = if any is_drifted results then 2 else if any is_missing results then 1 else 0

-- `sha256_tree` of an install directory that exists, and a rescan of it under the lists of the moment.
pub record Disk : Type 0 where
  pub tree_hash : String → Option String
  pub rescan : Lists → Pin → Option Verdict

module _ (disk : Disk) (repo : Lists) (rescan : Bool) where
  rescan_of : Lists → Pin → Option Verdict
  rescan_of local pin = if rescan then disk.rescan local pin else none

  -- One pin: its result, and the overlay afterwards. A drifted hash is denylisted before the rescan.
  audit_hash : Pin → Option String → Lists → PinAudit × Lists
  unfolding rescan_of
  audit_hash pin none local =
      (record { pin = pin; status = missing; current_hash = none; rescan = none }, local)
  audit_hash pin (some current) local =
      if current == pin.content_hash
      then (record { pin = pin; status = clean; current_hash = some current; rescan = none }, local)
      else (let grown = add_local repo local (current ∷ []) [] in
          (
            record {
              pin = pin;
              status = drifted;
              current_hash = some current;
              rescan = rescan_of grown pin;
            },
            grown,
          ))

  audit_list : List Pin → Lists → List PinAudit × Lists
  unfolding audit_hash
  audit_list [] local = ([], local)
  audit_list (pin ∷ pins) local =
      let (r, grown) = audit_hash pin (disk.tree_hash pin.install_dir) local in
      let (rs, final) = audit_list pins grown in (r ∷ rs, final)

  -- `audit_pins`, over the lines of the registry
  pub audit_pins : List Pin → Lists → List PinAudit × Lists
  unfolding audit_list
  audit_pins recs local = audit_list (all_pins recs) local
