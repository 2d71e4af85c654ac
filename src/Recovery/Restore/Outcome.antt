-- ===== src/Recovery/Restore/Outcome.antt =====
-- When `restore` of src/zee/recovery/restore.py succeeds, and what it leaves behind.
use mathlib.Core.Path.{ap₂}
use zee.Prelude.{
  String, Bool, true, false, not, ◌&&◌, ◌≡◌, refl, sym, ap, ◌∙◌, inl, inr, Option, none, some, List,
  [], ◌∷◌, arith, all, All, contains, eq_iff, eq_refl, ◌==◌, Bool-cases, is_some, if◌then◌else◌,
}
use zee.Errors.{Result, ok, err, restore_no_cut_record}
use zee.Telemetry.CutState.{CutRecord, entries}
use zee.Telemetry.CutState.Ledger.{unresolved_for, mark_resolved}
use zee.Recovery.Host.{is_confirmed, Command, Host, World, summary, host_platform}
use zee.Recovery.Firewall.{Group, groups_of, firewall_steps}
use zee.Recovery.Firewall.Absent.{AllAbsent, confirmed-split, firewall_steps-Absent}
use zee.Recovery.Restore.{
  entry_steps, recorded_firewall, targets_of, state_in, readback, targeted_steps, restore_targeted,
  with_readback, settle, restore_record, refuse, restore_found, restore,
}
use zee.Recovery.Restore.Commands.{IsBack, entry_steps-IsBack}
use zee.Recovery.Restore.Confirmed.{
  is_enabled, combine-confirmed, summary-confirmed, readback-enabled,
}

abbrev pub is_ok : Result (Unit {0}) → Bool
is_ok (ok _) = true
is_ok (err _) = false

abbrev pub is_refused : Result (Unit {0}) → Bool
is_refused (err restore_no_cut_record) = true
is_refused _ = false

-- The listing was readable and has the name as enabled.
abbrev pub is_listed : Option (List (String × String)) → String → Bool
is_listed none t = false
is_listed (some listed) t = is_enabled (state_in listed t)

all_contained :
    (p : String → Bool) (ts : List String)
    → ((t : String) → contains t ts ≡ true → p t ≡ true)
    → all p ts ≡ true
unfolding contains
all_contained p [] h = refl
all_contained p (t ∷ ts) h =
    ground (arith, h t (rw (eq_refl t)), all_contained p ts (λ s k. h s (ground (arith, k))))

confirmed_of : (o : Option Bool) → is_confirmed o ≡ true → o ≡ some true
confirmed_of o h = ground (arith, h)

-- The ledger is undamaged and holds an unresolved cut.
abbrev pub can_restore : Option CutRecord × Bool → Bool
can_restore (o, damaged) = is_some o && not damaged

module _ (host : Host) where
  -- On the record's platform, the command for each interface or service that it names ended with code 0,
  -- no installed firewall tool had Zee's rules behind the removals, every step that was taken was
  -- confirmed, and each interface or service is listed as enabled afterwards.
  pub record IsUndone (rec : CutRecord) (cs : List Command) : Type 0 where
    pub same_platform : rec.platform ≡ host_platform host
    pub brought_back : All (IsBack host rec.platform) (entries rec)
    pub rules_removed :
        (gs : List Group) × (groups_of (host_platform host) ≡ some gs) × AllAbsent host gs
    pub steps_confirmed : all (λ step. is_confirmed step.1) (targeted_steps host rec cs).0 ≡ true
    pub targets_enabled :
        all (is_listed (host.interface_states (targeted_steps host rec cs).1)) (targets_of rec)
        ≡ true

  targeted-confirmed :
      (rec : CutRecord) (cs : List Command)
      → (restore_targeted host rec cs).0 ≡ some true
      → (rec.platform ≡ host_platform host)
        × (summary (targeted_steps host rec cs).0 ≡ some true)
        × ((restore_targeted host rec cs).1 ≡ (targeted_steps host rec cs).1)
  unfolding restore_targeted
  targeted-confirmed rec cs h = elim (Bool-cases (rec.platform == host_platform host)) [
    | inl same ↦ ((eq_iff _ _).0 same, ground (arith, h, same), rw same refl)
    | inr other ↦ absurd (ground (arith, h, other))
  ]

  steps-undo :
      (rec : CutRecord) (cs : List Command)
      → all (λ step. is_confirmed step.1) (targeted_steps host rec cs).0 ≡ true
      → All (IsBack host rec.platform) (entries rec)
        × ((gs : List Group) × (groups_of rec.platform ≡ some gs) × AllAbsent host gs)
  unfolding targeted_steps
  steps-undo rec cs h =
      let up = entry_steps host rec.platform (entries rec) cs in
      let fw = firewall_steps host rec.platform (recorded_firewall rec) up.1 in
      let (both_up, both_fw) = confirmed-split up.0 fw.0 h in
      (
        entry_steps-IsBack host rec.platform (entries rec) cs both_up,
        firewall_steps-Absent host rec.platform (recorded_firewall rec) up.1 both_fw,
      )

  readback-confirmed :
      (ts : List String) (status : Option Bool) (cs : List Command)
      → with_readback host ts status cs ≡ some true
      → (status ≡ some true) × (all (is_listed (host.interface_states cs)) ts ≡ true)
  unfolding with_readback
  readback-confirmed [] status cs h = (h, refl)
  readback-confirmed (u ∷ ts) status cs h =
      let both = combine-confirmed (status ∷ readback (host.interface_states cs) (u ∷ ts) ∷ []) h in
      let (listed, e, back) =
        readback-enabled (host.interface_states cs) (u ∷ ts)
          (confirmed_of _ (ground (arith, both))) in
      (
        confirmed_of status (ground (arith, both)),
        all_contained (is_listed (host.interface_states cs)) (u ∷ ts) (λ t k. rw e (back t k)),
      )

  settle-ok :
      (a : String) (status : Option Bool) (w : World)
      → (is_ok (settle host a status w).0 ≡ is_confirmed status)
        × ((settle host a status w).1.commands ≡ w.commands)
        × ((settle host a status w).1.ledger ≡ (
            if is_confirmed status
            then mark_resolved host.iso host.ledger_write a host.now w.ledger
            else w.ledger))
        × (is_refused (settle host a status w).0 ≡ false)
  unfolding settle
  settle-ok a none w = (refl, refl, refl, refl)
  settle-ok a (some true) w = (refl, refl, refl, refl)
  settle-ok a (some false) w = (refl, refl, refl, refl)

  record-IsUndone :
      (a : String) (rec : CutRecord) (w : World)
      → is_ok (restore_record host a rec w).0 ≡ true
      → IsUndone rec w.commands
  unfolding restore_record
  record-IsUndone a rec w h =
      let cs = (restore_targeted host rec w.commands).1 in
      let (flag, same_commands, ledger, kept) =
        settle-ok a
          (with_readback host (targets_of rec) (restore_targeted host rec w.commands).0 cs)
          (record w { commands = cs }) in
      let (status, back) =
        readback-confirmed (targets_of rec) _ cs (confirmed_of _ (sym flag ∙ h)) in
      let (same, steps, after) = targeted-confirmed rec w.commands status in
      let confirmed = summary-confirmed (targeted_steps host rec w.commands).0 steps in
      record {
        same_platform = same;
        brought_back = (steps-undo rec w.commands confirmed).0;
        rules_removed =
            let (gs, known, absent) = (steps-undo rec w.commands confirmed).1 in
            (gs, ap groups_of (sym same) ∙ known, absent);
        steps_confirmed = confirmed;
        targets_enabled =
            ap (λ cs. all (is_listed (host.interface_states cs)) (targets_of rec)) (sym after)
            ∙ back;
      }

  found-IsUndone :
      (a : String) (o : Option CutRecord) (damaged : Bool) (w : World)
      → is_ok (restore_found host a o damaged w).0 ≡ true
      → (rec : CutRecord) × ((o ≡ some rec) × (damaged ≡ false)) × IsUndone rec w.commands
  unfolding restore_found refuse
  found-IsUndone a none damaged w h = absurd (cc h)
  found-IsUndone a (some rec) true w h = absurd (cc h)
  found-IsUndone a (some rec) false w h = (rec, (refl, refl), record-IsUndone a rec w h)

  -- `restore` reports success only where the ledger is undamaged and holds an unresolved cut of the
  -- asset, recorded on this platform, of which the command for every interface or service was run and
  -- ended with code 0, Zee's rules are judged absent from every installed firewall tool, every step was
  -- confirmed, and every interface or service is listed as enabled afterwards.
  pub restore-IsUndone :
      (a : String) (w : World)
      → is_ok (restore host a w).0 ≡ true
      → (rec : CutRecord) × (unresolved_for host.iso a w.ledger ≡ (some rec, false))
        × IsUndone rec w.commands
  unfolding restore
  restore-IsUndone a w h =
      let (rec, (found, whole), undone) =
        found-IsUndone a (unresolved_for host.iso a w.ledger).0
          (unresolved_for host.iso a w.ledger).1 w h in
      (rec, ap₂ (λ o d. (o, d)) found whole, undone)

  -- What a restore leaves in the ledger, and that a refused one runs no command.
  abbrev pub Effects : String → World → Bool → Result (Unit {0}) × World → Type 0
  Effects a w found r =
      (r.1.ledger ≡ (
        if is_ok r.0
        then mark_resolved host.iso host.ledger_write a host.now w.ledger
        else w.ledger))
      × (is_refused r.0 ≡ not found)
      × ((if found then w.commands else r.1.commands) ≡ w.commands)

  found-Effects :
      (a : String) (o : Option CutRecord) (damaged : Bool) (w : World)
      → Effects a w (can_restore (o, damaged)) (restore_found host a o damaged w)
  unfolding restore_found refuse restore_record
  found-Effects a none damaged w = (refl, refl, refl)
  found-Effects a (some rec) true w = (refl, refl, refl)
  found-Effects a (some rec) false w =
      let cs = (restore_targeted host rec w.commands).1 in
      let (flag, same, ledger, kept) =
        settle-ok a
          (with_readback host (targets_of rec) (restore_targeted host rec w.commands).0 cs)
          (record w { commands = cs }) in
      (
        ledger
            ∙ ap
                (λ b.
                  if b
                  then mark_resolved host.iso host.ledger_write a host.now w.ledger
                  else w.ledger)
                (sym flag),
        kept,
        refl,
      )

  -- `restore` sets out to mark the asset as resolved exactly where it reports success, and writes nothing
  -- else to the ledger: after a success the ledger is as a write of the mark leaves it, whole, cut short
  -- or failed, and the success stands however that write ends. It refuses with Z605 exactly where the ledger is damaged or holds no unresolved cut of
  -- the asset, and then it has run no command.
  pub restore-Effects :
      (a : String) (w : World)
      → Effects a w (can_restore (unresolved_for host.iso a w.ledger)) (restore host a w)
  unfolding restore
  restore-Effects a w =
      found-Effects a (unresolved_for host.iso a w.ledger).0 (unresolved_for host.iso a w.ledger).1
        w

  -- After a reported success the host's platform is a supported one, and each of its firewall tools that
  -- is installed, asked for Zee's rules behind the removals, gave an answer that is judged to say that
  -- there are none, and no list of rules unless the tool is pfctl, whatever the record says.
  pub restore-AllAbsent :
      (a : String) (w : World)
      → is_ok (restore host a w).0 ≡ true
      → (gs : List Group) × (groups_of (host_platform host) ≡ some gs) × AllAbsent host gs
  restore-AllAbsent a w h =
      let (rec, found, undone) = restore-IsUndone a w h in undone.rules_removed
