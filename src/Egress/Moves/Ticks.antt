-- ===== src/Egress/Moves/Ticks.antt =====
-- `tick` of src/zee/egress/engine.py keeps the relations that its smallest steps keep.
use zee.Prelude.{
  refl, String, Bool, true, false, Option, none, some, [], ◌∷◌, if◌then◌else◌, Dict.Dict, Dict.pop,
  Dict.add,
}
use zee.Prelude.Exec.{Order, Moves, give, bind-Moves, attempt-Moves, give-Moves}
use zee.Egress.Payload.{Request, Body}
use zee.Egress.World.{World, Env, Grant, Batch}
use zee.Egress.Release.Moves.{edit-Moves}
use zee.Egress.Tick.{
  tick, seal, seal_batch, issue, expire_one, expire_each, close_one, close_each, remind, remind_of,
}
use zee.Egress.Moves.{
  Primitives, same_core, guarded, then_loose, new_request-Moves, release_closed-Moves,
}

module _ {μ} {R : World → World → Type μ} (o : Order R) (env : Env) (prims : Primitives R env) where
  close_if :
      (done : Bool) (d : String) (w : World)
      → R w (if done then record w { grants = pop d w.grants; held = add d w.held } else w)
  close_if true d w =
      let v = record w { grants = pop d w.grants } in
      o.compose w v _ (prims.pops d w) (prims.loose v _ (same_core refl refl refl refl refl))
  close_if false d w = o.stays w

  issue-Moves : (b : Body) → Moves R (issue env b)
  unfolding issue
  issue-Moves b =
      then_loose o env prims _ _ (λ v. same_core refl refl refl refl refl)
        (bind-Moves o _ _ (new_request-Moves o env prims b) (λ req. prims.logs _))

  seal_batch-Moves : (b : Option Batch) → Moves R (seal_batch env b)
  unfolding seal_batch give
  seal_batch-Moves none = record { along = λ w. o.stays w }
  seal_batch-Moves (some b) = guarded _ _ _ (λ w. issue-Moves _) (λ w. give-Moves o _)

  expire_one-Moves : (rid : String) (r : Request) → Moves R (expire_one rid r)
  unfolding expire_one
  expire_one-Moves rid r =
      guarded _ _ _
        (λ w. then_loose o env prims _ _ (λ v. same_core refl refl refl refl refl) (prims.logs _))
        (λ w. give-Moves o _)

  expire_each-Moves : (rs : Dict Request) → Moves R (expire_each rs)
  unfolding expire_each
  expire_each-Moves [] = give-Moves o _
  expire_each-Moves ((rid, r) ∷ rs) =
      bind-Moves o _ _ (expire_one-Moves rid r) (λ _. expire_each-Moves rs)

  close_one-Moves : (d : String) (g : Grant) → Moves R (close_one env d g)
  unfolding close_one
  close_one-Moves d g =
      guarded _ _ _
        (λ w.
          bind-Moves o _ _ (attempt-Moves _ (prims.calls _))
            (λ done. edit-Moves _ (close_if done d)))
        (λ w. give-Moves o _)

  close_each-Moves : (gs : Dict Grant) → Moves R (close_each env gs)
  unfolding close_each
  close_each-Moves [] = give-Moves o _
  close_each-Moves ((d, g) ∷ gs) = bind-Moves o _ _ (close_one-Moves d g) (λ _. close_each-Moves gs)

  remind_of-Moves : (t : Option _) → Moves R (remind_of t)
  unfolding remind_of give
  remind_of-Moves none = record { along = λ w. o.stays w }
  remind_of-Moves (some t) =
      guarded _ _ _
        (λ w. then_loose o env prims _ _ (λ v. same_core refl refl refl refl refl) (prims.logs _))
        (λ w. give-Moves o _)

  pub tick-Moves : Moves R (tick env)
  unfolding tick seal remind
  tick-Moves =
      bind-Moves o _ _ (record { along = λ w. (seal_batch-Moves w.batch).along w })
        (λ _.
          bind-Moves o _ _ (record { along = λ w. (expire_each-Moves w.pending).along w })
            (λ _. bind-Moves o _ _ (release_closed-Moves o env prims _) (λ _.
              bind-Moves o _ _ (record { along = λ w. (close_each-Moves w.grants).along w })
                (λ _. record { along = λ w. (remind_of-Moves w.state.recovery_start).along w }))))
