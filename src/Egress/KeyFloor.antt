-- ===== src/Egress/KeyFloor.antt =====
-- src/zee/egress/engine.py never leaves approval on with fewer than two keys, unless that was acknowledged.
pub mod Submitted
pub mod Steps
use zee.Prelude.{
  ◌≡◌, refl, ◌≤◌, String, Bool, true, false, not, ◌&&◌, ◌||◌, Option, none, some, List, [], ◌∷◌,
  arith, leb, ltb, nat_eq, length, all, all-append, Bool-cases, Option-cases, inl, inr,
  if◌then◌else◌, Dict.put, Dict.pop, Dict.length-put, Dict.is_dict, Dict.is_dict-put,
  Dict.is_dict-pop, Dict.length-pop, Dict.Dict,
}
use zee.Prelude.Exec.{
  Exec, Order, Moves, Outcome, returned, raised, give, throw, ◌>>=◌, ◌>>◌, resume, bind-Moves,
  attempt-Moves, give-Moves, throw-Moves, if-Moves,
}
use zee.Egress.State.{State}
use zee.Egress.World.{World, Env, Call, Entry, edit, set_state, log, save, enforce}
use zee.Egress.Setup.{
  setup, setup_allow, setup_protect, ack_single_key, bootstrap_key, enable, recovery_start,
  recovery_complete, finish_recovery, recovered, is_empty, is_due,
}
use zee.Egress.Moves.{release-Moves}
use zee.Egress.Moves.State.{SameState, same_state, SameState-prims}

-- Where approval is on and no single key was acknowledged there are two keys; the registry is a dict.
abbrev pub has_spare : State → Bool
has_spare s = is_dict s.keys && (not s.enabled || s.single_key_ack || leb 2 (length s.keys))

-- the state and everything that was ever written to the file
abbrev pub spared : World → Bool
spared w = has_spare w.state && all has_spare w.saved

-- what `save` makes of a state that has a spare key
pub save-spared : (env : Env) (w : World) → spared w ≡ true → spared (save env w).1 ≡ true
unfolding save
save-spared env w h = ground (arith, all-append has_spare w.saved (w.state ∷ []))

setup-spared :
    (env : Env) (change : State → State) (w : World)
    → (change w.state).enabled ≡ w.state.enabled
    → (change w.state).keys ≡ w.state.keys
    → spared w ≡ true
    → spared (setup env change w).1 ≡ true
unfolding setup throw edit ◌>>=◌ resume
setup-spared env change w k d h =
    ground (arith, k, d, save-spared env (set_state (change w.state) w))

pub same-spared : (w v : World) → SameState w v → spared w ≡ true → spared v ≡ true
same-spared w v s h = ground (arith, s.state, s.saved)

pub setup_allow-spared :
    (env : Env) (d : String) (w : World) → spared w ≡ true → spared (setup_allow env d w).1 ≡ true
unfolding setup_allow
setup_allow-spared env d w h = setup-spared env _ w refl refl h

pub setup_protect-spared :
    (env : Env) (d : String) (w : World) → spared w ≡ true → spared (setup_protect env d w).1 ≡ true
unfolding setup_protect
setup_protect-spared env d w h = setup-spared env _ w refl refl h

pub ack_single_key-spared :
    (env : Env) (w : World) → spared w ≡ true → spared (ack_single_key env w).1 ≡ true
unfolding ack_single_key
ack_single_key-spared env w h = setup-spared env _ w refl refl h

-- a state that is written, and a record of it
save-log-spared :
    (env : Env) (e : Entry) (w : World) → spared w ≡ true → spared ((save env >> log e) w).1 ≡ true
unfolding log ◌>>=◌ save resume
save-log-spared env e w h = ground (arith, save-spared env w h)

pub bootstrap_key-spared :
    (env : Env) (k p : String) (w : World)
    → spared w ≡ true
    → spared (bootstrap_key env k p w).1 ≡ true
unfolding bootstrap_key throw edit ◌>>=◌ resume
bootstrap_key-spared env k p w h =
    elim (Bool-cases (not (is_empty w.state.keys) || w.state_invalid)) [
      | inl e ↦ rw (e) h
      | inr e ↦ rw (e) (
          save-log-spared env _ _
            (ground (arith, e, length-put k p w.state.keys, is_dict-put k p w.state.keys)))
    ]

pub enable-spared : (env : Env) (w : World) → spared w ≡ true → spared (enable env w).1 ≡ true
unfolding enable throw edit ◌>>=◌ resume
enable-spared env w h =
    elim (Bool-cases (
      nat_eq (length w.state.keys) 0
      || (ltb (length w.state.keys) 2 && not w.state.single_key_ack))) [
        | inl e ↦ rw (e) h
        | inr e ↦ rw (e) (save-log-spared env _ _ (ground (arith, e)))
      ]

pub recovery_start-spared :
    (env : Env) (w : World) → spared w ≡ true → spared (recovery_start env w).1 ≡ true
unfolding recovery_start edit ◌>>=◌ resume log save
recovery_start-spared env w h =
    ground (arith, save-spared env (set_state (record w.state { recovery_start = some w.now }) w) h)

finish_recovery-spared :
    (env : Env) (ds : List String) (w : World)
    → spared w ≡ true
    → spared (finish_recovery env ds w).1 ≡ true
unfolding finish_recovery edit ◌>>=◌ resume log give save is_dict
finish_recovery-spared env [] w h =
    ground (arith, save-spared env (set_state (recovered w.state) w) (ground arith))
finish_recovery-spared env (d ∷ ds) w h = h

resumed_finish :
    (env : Env) (r : Outcome (List String) × World)
    → spared r.1 ≡ true
    → spared (resume (finish_recovery env) r).1 ≡ true
unfolding resume
resumed_finish env (returned ds, v) h = finish_recovery-spared env ds v h
resumed_finish env (raised e, v) h = h

pub recovery_complete-spared :
    (env : Env) (w : World) → spared w ≡ true → spared (recovery_complete env w).1 ≡ true
unfolding recovery_complete ◌>>=◌ give
recovery_complete-spared env w h = elim (Bool-cases (not (is_due w.now w.state.recovery_start))) [
  | inl e ↦ rw (e) h
  | inr e ↦ rw (e) (
      resumed_finish env _
        (same-spared w _ ((release-Moves same_state env (SameState-prims env) _).along w) h))
]
