-- ===== src/Egress/Release.antt =====
-- src/zee/egress/engine.py: the destinations that are closed or metered, and their release.
pub mod Moves
pub mod Reopened
use zee.Prelude.{
  String, Bool, true, false, List, [], ◌∷◌, ◌++◌, ◌&&◌, keep, contains, if◌then◌else◌,
}
use zee.Prelude.Dict.{pop, keys, discard}
use zee.Prelude.Sort.{sorted_set}
use zee.Prelude.Exec.{Exec, give, attempt, ◌>>=◌, ◌>>◌, resume}
use zee.Egress.Destination.{match_dest}
use zee.Egress.World.{Env, World, releases, edit, enforce}

-- `_closed`, as a list that may name a destination twice
unfoldable pub closed : World → List String
closed w = w.held ++ w.unheld ++ keys w.grants

-- a destination that the enforcer let go
unfoldable pub forget : String → World → World
forget d w = record w {
  held = discard d w.held;
  unheld = discard d w.unheld;
  grants = pop d w.grants;
}

module _ (env : Env) where
  unfoldable pub allow_listed : World → String → Bool
  allow_listed w d = match_dest env.net d w.state.allow

  unfoldable pub release_one : String → Exec World Bool
  release_one d = do
    done ← attempt (enforce env (releases d))
    edit (if done then forget d else (λ w. w))
    give done

  unfoldable pub release_each : List String → Exec World (List String)
  release_each [] = give []
  release_each (d ∷ ds) = do
    done ← release_one d
    failed ← release_each ds
    give (if done then failed else d ∷ failed)

  -- `_release`: the destinations whose release failed
  unfoldable pub release : List String → Exec World (List String)
  release ds = release_each (sorted_set ds)

  -- `_release({d for d in self._closed() if p(d)})`
  unfoldable pub release_closed : (World → String → Bool) → Exec World (List String)
  release_closed p w = release (keep (p w) (closed w)) w
