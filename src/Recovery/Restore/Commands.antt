-- ===== src/Recovery/Restore/Commands.antt =====
-- The commands behind the steps of src/zee/recovery/restore.py that bring interfaces and services back.
use zee.Prelude.{
  String, Bool, true, false, ◌≡◌, refl, List, [], ◌∷◌, ◌==◌, arith, nat_eq, all, All, some,
  if◌then◌else◌, Bool-cases, inl, inr,
}
use zee.Prelude.Json.{pos, negsuc}
use zee.Telemetry.CutState.{Kind, firewall, nmcli, iface}
use zee.Recovery.Host.{
  is_confirmed, Command, Host, Process, not_started, exited, run, answer, is_code, is_zero,
}
use zee.Recovery.Restore.{up_step, interface_step, entry_steps}

-- what brings one entry of a record back, by its platform; the firewall's are removed elsewhere
abbrev pub command_of : String → Kind × String → Command
command_of platform (firewall, n) = []
command_of platform (nmcli, n) = "nmcli" ∷ "networking" ∷ "on" ∷ []
command_of platform (iface, n) =
    if platform == "linux"
    then "ip" ∷ "link" ∷ "set" ∷ n ∷ "up" ∷ []
    else if platform == "darwin"
    then "networksetup" ∷ "-setnetworkserviceenabled" ∷ n ∷ "on" ∷ []
    else "netsh" ∷ "interface" ∷ "set" ∷ "interface" ∷ n ∷ "admin=enable" ∷ []

-- started, and ended with code 0
abbrev pub has_succeeded : Process → Bool
has_succeeded (not_started e) = false
has_succeeded (exited (pos n) out errors) = nat_eq n 0
has_succeeded (exited (negsuc n) out errors) = false

module _ (host : Host) where
  -- The command was run, behind some others, and succeeded.
  abbrev pub Succeeded : Command → Type 0
  Succeeded c = (before : List Command) × (has_succeeded (host.process before c) ≡ true)

  abbrev pub IsBack : String → Kind × String → Type 0
  IsBack platform (firewall, n) = Unit {0}
  IsBack platform (nmcli, n) = Succeeded (command_of platform (nmcli, n))
  IsBack platform (iface, n) = Succeeded (command_of platform (iface, n))

  answer-true : (p : Process) → (answer host p).0 ≡ true → has_succeeded p ≡ true
  unfolding answer is_code is_zero
  answer-true (not_started e) h = absurd (cc h)
  answer-true (exited (pos n) out errors) h = ground (arith, h)
  answer-true (exited (negsuc n) out errors) h = absurd (ground (arith, h))

  run-true :
      (exe : String) (args : List String) (cs : List Command)
      → (run host exe args cs).0.0 ≡ true
      → has_succeeded (host.process cs (exe ∷ args)) ≡ true
  unfolding run
  run-true exe args cs h = elim (Bool-cases (host.which exe)) [
    | inl found ↦ answer-true (host.process cs (exe ∷ args)) (rw (found) at h)
    | inr missing ↦ absurd (ground (arith, h, missing))
  ]

  confirmed_bool : (b : Bool) → is_confirmed (some b) ≡ true → b ≡ true
  confirmed_bool true h = refl
  confirmed_bool false h = absurd (cc h)

  up_step-Succeeded :
      (name exe : String) (args : List String) (cs : List Command)
      → is_confirmed (up_step host name exe args cs).0.1 ≡ true
      → Succeeded (exe ∷ args)
  unfolding up_step
  up_step-Succeeded name exe args cs h = (cs, run-true exe args cs (confirmed_bool _ h))

  interface_step-Succeeded :
      (platform n : String) (cs : List Command)
      → is_confirmed (interface_step host platform n cs).0.1 ≡ true
      → Succeeded (command_of platform (iface, n))
  unfolding interface_step
  interface_step-Succeeded platform n cs h = elim (Bool-cases (platform == "linux")) [
    | inl l ↦ rw (l) (up_step-Succeeded n "ip" _ cs (rw (l) at h))
    | inr l ↦ elim (Bool-cases (platform == "darwin")) [
      | inl d ↦ rw (l, d) (up_step-Succeeded n "networksetup" _ cs (rw (l, d) at h))
      | inr d ↦ rw (l, d) (up_step-Succeeded n "netsh" _ cs (rw (l, d) at h))
    ]
  ]

  -- Every entry that is not the firewall's was brought back by its command.
  pub entry_steps-IsBack :
      (platform : String) (ps : List (Kind × String)) (cs : List Command)
      → all (λ step. is_confirmed step.1) (entry_steps host platform ps cs).0 ≡ true
      → All (IsBack platform) ps
  unfolding entry_steps
  entry_steps-IsBack platform [] cs h = tt
  entry_steps-IsBack platform ((firewall, n) ∷ ps) cs h = (tt, entry_steps-IsBack platform ps cs h)
  entry_steps-IsBack platform ((nmcli, n) ∷ ps) cs h =
      let args = "networking" ∷ "on" ∷ [] in
      let rest = (up_step host "nmcli" "nmcli" args cs).1 in
      (
        up_step-Succeeded "nmcli" "nmcli" args cs (ground (arith, h)),
        entry_steps-IsBack platform ps rest (ground (arith, h)),
      )
  entry_steps-IsBack platform ((iface, n) ∷ ps) cs h =
      let rest = (interface_step host platform n cs).1 in
      (
        interface_step-Succeeded platform n cs (ground (arith, h)),
        entry_steps-IsBack platform ps rest (ground (arith, h)),
      )
