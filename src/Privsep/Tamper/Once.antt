-- ===== src/Privsep/Tamper/Once.antt =====
-- An alarm of src/zee/privsep/daemon.py cuts once.
use zee.Prelude.{
  ℕ, ◌+◌, ◌≤◌, ◌≡◌, refl, ◌∙◌, inl, inr, String, Bool, true, false, not, ◌&&◌, Option, List, [],
  ◌∷◌, length, arith, length-append,
}
use zee.Prelude.Exec.{give}
use zee.Privsep.World.{Env, Daemon, FileRead}
use zee.Privsep.Tamper.{found_by, act_on, checked_for, check_tamper}
use zee.Privsep.Tamper.Alarm.{check_tamper-cuts, struck, checked_for-struck}

-- a check at a time, with what the watch's configuration then shows
abbrev pub Check : Type 0
Check = ℕ × Option FileRead

unfoldable pub at_time : ℕ → Daemon → Daemon
at_time now d = record d { engine = record d.engine { now = now } }

unfoldable pub checks : Env → List Check → Daemon → Daemon
checks env [] d = d
checks env ((now, theirs) ∷ cs) d = checks env cs (check_tamper env theirs (at_time now d)).1

abbrev is_clear : List String → Bool
is_clear [] = true
is_clear (_ ∷ _) = false

-- every check of the list finds something
unfoldable pub all_find : Env → List Check → Daemon → Bool
all_find env [] d = true
all_find env ((now, theirs) ∷ cs) d =
    not (is_clear (found_by env theirs (at_time now d)))
    && all_find env cs (check_tamper env theirs (at_time now d)).1

act_on-rests : (env : Env) (d : Daemon) → d.tamper_acted ≡ true → (act_on env d).1 ≡ d
unfolding act_on give
act_on-rests env d h = ground (arith, h)

module _ (env : Env) (d : Daemon) where
  acted-rests :
      (found : List String)
      → d.tamper_acted ≡ true
      → is_clear found ≡ false
      → ((checked_for env found d).1.cuts ≡ d.cuts)
        × ((checked_for env found d).1.tamper_acted ≡ true)
  unfolding struck
  acted-rests [] h n = absurd (cc n)
  acted-rests (f ∷ fs) h n =
      rw (checked_for-struck env f fs d, act_on-rests env (struck f fs d) h) (refl, h)

next-rests :
    (env : Env) (theirs : Option FileRead) (d : Daemon)
    → d.tamper_acted ≡ true
    → is_clear (found_by env theirs d) ≡ false
    → ((check_tamper env theirs d).1.cuts ≡ d.cuts)
      × ((check_tamper env theirs d).1.tamper_acted ≡ true)
unfolding check_tamper
next-rests env theirs d h n = acted-rests env d (found_by env theirs d) h n

checks-rest :
    (env : Env) (cs : List Check) (d : Daemon)
    → d.tamper_acted ≡ true
    → all_find env cs d ≡ true
    → (checks env cs d).cuts ≡ d.cuts
unfolding checks all_find at_time
checks-rest env [] d h f = refl
checks-rest env ((now, theirs) ∷ cs) d h f =
    let (same, acted) = next-rests env theirs (at_time now d) h (ground (arith, f)) in
    checks-rest env cs _ acted (ground (arith, f)) ∙ same

-- Over any number of tamper checks in a row, at any times, of which each finds something, at most
-- one cut is made.
pub checks-once :
    (env : Env) (cs : List Check) (d : Daemon)
    → all_find env cs d ≡ true
    → length (checks env cs d).cuts ≤ length d.cuts + 1
unfolding checks all_find at_time
checks-once env [] d f = omega arith
checks-once env ((now, theirs) ∷ cs) d f = elim (check_tamper-cuts env theirs (at_time now d)) [
  | inl same ↦
      let later =
        checks-once env cs (check_tamper env theirs (at_time now d)).1 (ground (arith, f)) in
      ground (arith, same, later)
  | inr a ↦
      let later : (checks env cs (check_tamper env theirs (at_time now d)).1).cuts
          ≡ (check_tamper env theirs (at_time now d)).1.cuts =
        checks-rest env cs _ a.acted (ground (arith, f)) in
      rw (later, a.called, length-append d.cuts _) (omega arith)
]
