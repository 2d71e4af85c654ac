-- ===== src/Egress/Moves/State.antt =====
-- Most methods of src/zee/egress/engine.py leave the persisted state as it is, in memory and in the file.
use zee.Prelude.{◌≡◌, refl, ◌∙◌, String, arith, Dict.lookup}
use zee.Prelude.Exec.{Order, Moves}
use zee.Egress.World.{World, Env, Flow, Call, Entry, log, enforce}
use zee.Egress.Release.{forget}
use zee.Egress.Watch.{meter}
use zee.Egress.Moves.{Primitives}

pub record SameState (w v : World) : Type 0 where
  pub state : v.state ≡ w.state
  pub saved : v.saved ≡ w.saved
  pub state_invalid : v.state_invalid ≡ w.state_invalid

abbrev pub alike :
    {w v : World}
    → v.state ≡ w.state
    → v.saved ≡ w.saved
    → v.state_invalid ≡ w.state_invalid
    → SameState w v
alike s d i = record { state = s; saved = d; state_invalid = i }

pub same_state : Order SameState
same_state = record {
  stays = λ w. alike refl refl refl;
  compose = λ u v w p q.
      alike (q.state ∙ p.state) (q.saved ∙ p.saved) (q.state_invalid ∙ p.state_invalid);
}

module _ (env : Env) where
  calls : (c : Call) → Moves SameState (enforce env c)
  unfolding enforce
  calls c = record { along = λ w. alike (ground arith) (ground arith) (ground arith) }

  logs : (e : Entry) → Moves SameState (log e)
  unfolding log
  logs e = record { along = λ w. alike refl refl refl }

  forgets : (d : String) (w : World) → SameState w (forget d w)
  unfolding forget
  forgets d w = alike refl refl refl

  meters : (f : Flow) (w : World) → SameState w (meter f (lookup f.dest w.grants) w)
  unfolding meter
  meters f w = alike (ground arith) (ground arith) (ground arith)

  pub SameState-prims : Primitives SameState env
  SameState-prims = record {
    calls = calls;
    logs = logs;
    forgets = forgets;
    meters = meters;
    pops = λ d w. alike refl refl refl;
    loose = λ w v h. alike h.state h.saved h.state_invalid;
  }
