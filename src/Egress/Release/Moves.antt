-- ===== src/Egress/Release/Moves.antt =====
-- A relation that the enforcer's calls and the forgetting of a destination keep is kept by every release.
use zee.Prelude.{String, Bool, true, false, List, [], ◌∷◌, if◌then◌else◌}
use zee.Prelude.Exec.{Order, Moves, bind-Moves, attempt-Moves, give-Moves}
use zee.Egress.World.{Env, World, Call, edit, enforce}
use zee.Egress.Release.{forget, release_one, release_each, release, release_closed}

pub edit-Moves {μ} :
    {R : World → World → Type μ} (f : World → World) → ((w : World) → R w (f w)) → Moves R (edit f)
unfolding edit
edit-Moves f h = record { along = h }

module _ {μ} {R : World → World → Type μ} (o : Order R) (env : Env)
    (calls : (c : Call) → Moves R (enforce env c))
    (forgets : (d : String) (w : World) → R w (forget d w)) where
  forget_if : (done : Bool) (d : String) (w : World) → R w ((if done then forget d else (λ v. v)) w)
  forget_if true d w = forgets d w
  forget_if false d w = o.stays w

  release_one-Moves : (d : String) → Moves R (release_one env d)
  unfolding release_one
  release_one-Moves d =
      bind-Moves o _ _ (attempt-Moves _ (calls _))
        (λ done. bind-Moves o _ _ (edit-Moves _ (forget_if done d)) (λ _. give-Moves o done))

  release_each-Moves : (ds : List String) → Moves R (release_each env ds)
  unfolding release_each
  release_each-Moves [] = give-Moves o []
  release_each-Moves (d ∷ ds) =
      bind-Moves o _ _ (release_one-Moves d)
        (λ done. bind-Moves o _ _ (release_each-Moves ds) (λ failed. give-Moves o _))

  pub release-Moves : (ds : List String) → Moves R (release env ds)
  unfolding release
  release-Moves ds = release_each-Moves _

  pub release_closed-Moves : (p : World → String → Bool) → Moves R (release_closed env p)
  unfolding release_closed
  release_closed-Moves p = record { along = λ w. (release-Moves _).along w }
