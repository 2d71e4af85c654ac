-- ===== src/Egress/Moves.antt =====
-- Which relations between two states of an engine every method of src/zee/egress/engine.py keeps that
-- neither writes the state nor opens a destination: those that its smallest steps keep.
pub mod State
pub mod Ticks
pub mod Enabled
use zee.Prelude.{
  ◌≡◌, refl, String, Bool, true, false, Option, none, some, List, [], ◌∷◌, arith, if◌then◌else◌,
  Dict.lookup, Dict.pop,
}
use zee.Prelude.Exec.{
  Exec, Order, Moves, give, throw, ◌>>=◌, ◌>>◌, bind-Moves, give-Moves, throw-Moves, if-Moves,
}
use zee.Prelude.Json.{Fields}
use zee.Egress.Payload.{Body}
use zee.Egress.World.{World, Env, Flow, Call, Entry, edit, log, enforce}
use zee.Egress.Release.{forget, release, release_closed}
use zee.Egress.Release.Moves
use zee.Egress.Release.Moves.{edit-Moves}
use zee.Egress.Submit.{new_request, request_valid}
use zee.Egress.Watch.{
  note_protected_touch, observe, judged, switched, decide_flow, hold_flow, note_flow, drop_grant,
  close_dest, meter, look, prune,
}

-- Nothing but requests, batches, holds and notes may differ.
pub record SameCore (w v : World) : Type 0 where
  pub grants : v.grants ≡ w.grants
  pub state : v.state ≡ w.state
  pub saved : v.saved ≡ w.saved
  pub state_invalid : v.state_invalid ≡ w.state_invalid
  pub entries : v.entries ≡ w.entries

abbrev pub same_core :
    {w v : World}
    → v.grants ≡ w.grants
    → v.state ≡ w.state
    → v.saved ≡ w.saved
    → v.state_invalid ≡ w.state_invalid
    → v.entries ≡ w.entries
    → SameCore w v
same_core g s d i e = record { grants = g; state = s; saved = d; state_invalid = i; entries = e }

-- The steps that methods are made of.
pub record Primitives {μ} (R : World → World → Type μ) (env : Env) : Type μ where
  pub calls : (c : Call) → Moves R (enforce env c)
  pub logs : (e : Entry) → Moves R (log e)
  pub forgets : (d : String) (w : World) → R w (forget d w)
  pub meters : (f : Flow) (w : World) → R w (meter f (lookup f.dest w.grants) w)
  pub pops : (d : String) (w : World) → R w (record w { grants = pop d w.grants })
  pub loose : (w v : World) → SameCore w v → R w v

pub guarded {μ} :
    {R : World → World → Type μ} {B : Type 0} (b : World → Bool) (m n : World → Exec World B)
    → ((w : World) → Moves R (m w))
    → ((w : World) → Moves R (n w))
    → Moves R (λ w. (if b w then m w else n w) w)
guarded b m n hm hn = record { along = λ w. (if-Moves (b w) _ _ (hm w) (hn w)).along w }

module _ {μ} {R : World → World → Type μ} (o : Order R) (env : Env) (prims : Primitives R env) where
  -- an edit that leaves the core, and the rest of a block
  pub loose : (f : World → World) → ((w : World) → SameCore w (f w)) → Moves R (edit f)
  loose f h = edit-Moves f (λ w. prims.loose w (f w) (h w))

  pub then_loose :
      {B : Type 0} (f : World → World) (m : Exec World B)
      → ((w : World) → SameCore w (f w))
      → Moves R m
      → Moves R (edit f >> m)
  then_loose f m h hm = bind-Moves o _ _ (loose f h) (λ _. hm)

  pub release-Moves : (ds : List String) → Moves R (release env ds)
  release-Moves = Moves.release-Moves o env prims.calls prims.forgets

  pub release_closed-Moves : (p : World → String → Bool) → Moves R (release_closed env p)
  release_closed-Moves = Moves.release_closed-Moves o env prims.calls prims.forgets

  look-same : (f : Flow) (w : World) → SameCore w (look env f w)
  unfolding look prune
  look-same f w = record {
    grants = ground arith;
    state = ground arith;
    saved = ground arith;
    state_invalid = ground arith;
    entries = ground arith;
  }

  pub touch-Moves : (d : String) (w : World) → R w (note_protected_touch d w)
  unfolding note_protected_touch
  touch-Moves d w = prims.loose w _ (record {
    grants = ground arith;
    state = ground arith;
    saved = ground arith;
    state_invalid = ground arith;
    entries = ground arith;
  })

  pub new_request-Moves : (b : Body) → Moves R (new_request env b)
  unfolding new_request
  new_request-Moves b = record { along = λ w. prims.loose w _ (same_core refl refl refl refl refl) }

  pub request_valid-Moves : (c : Fields) (op : String) (a : _) → Moves R (request_valid env c op a)
  unfolding request_valid
  request_valid-Moves c op none = throw-Moves o _
  request_valid-Moves c op (some a) =
      guarded _ _ _ (λ w. throw-Moves o _)
        (λ w.
          bind-Moves o _ _ (new_request-Moves _)
            (λ req. bind-Moves o _ _ (prims.logs _) (λ _. give-Moves o _)))

  close_dest-Moves : (f : Flow) → Moves R (close_dest env f)
  unfolding close_dest
  close_dest-Moves f =
      guarded _ _ _ (λ w. give-Moves o _)
        (λ w.
          then_loose _ _ (λ v. same_core refl refl refl refl refl)
            (bind-Moves o _ _ (prims.calls _)
              (λ _. then_loose _ _ (λ v. same_core refl refl refl refl refl) (prims.logs _))))

  decide_flow-Moves : (f : Flow) → Moves R (decide_flow env f)
  unfolding decide_flow hold_flow note_flow drop_grant
  decide_flow-Moves f =
      guarded _ _ _ (λ w. bind-Moves o _ _ (edit-Moves _ (prims.meters f)) (λ _. give-Moves o _))
        (λ w.
          bind-Moves o _ _
            (bind-Moves o _ _ (close_dest-Moves f)
              (λ _. loose _ (λ v. same_core refl refl refl refl refl)))
            (λ _. bind-Moves o _ _ (edit-Moves _ (prims.pops f.dest)) (λ _. give-Moves o _)))

  pub switched-Moves : (f : Flow) → Moves R (switched env f)
  unfolding switched
  switched-Moves f = guarded _ _ _ (λ w. decide_flow-Moves f) (λ w. give-Moves o _)

  judged-Moves : (f : Flow) (ids : List String) (r : Option String) → Moves R (judged env f ids r)
  unfolding judged prune
  judged-Moves f ids none = then_loose _ _ (look-same f) (give-Moves o _)
  judged-Moves f ids (some r) =
      then_loose _ _ (λ v. same_core refl refl refl refl refl)
        (bind-Moves o _ _ (prims.logs _) (λ _. switched-Moves f))

  pub observe-Moves : (f : Flow) → Moves R (observe env f)
  unfolding observe
  observe-Moves f = record { along = λ w. (judged-Moves f _ _).along w }
