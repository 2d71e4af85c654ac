-- ===== src/Egress/Release/Reopened.antt =====
-- A release of src/zee/egress/engine.py that reports no failure leaves nothing of what it was given closed.
use zee.Prelude.{
  ◌≡◌, refl, ap, ◌∙◌, String, Bool, true, false, not, ◌&&◌, List, [], ◌∷◌, ◌==◌, ◌++◌, arith,
  contains, contains-append, if◌then◌else◌,
}
use zee.Prelude.Dict.{pop, keys, discard, contains-discard, contains-keys-pop}
use zee.Prelude.Sort.{sorted_set, contains-sorted_set}
use zee.Prelude.Exec.{returned, succeeded, give, attempt, ◌>>=◌, resume}
use zee.Egress.World.{World, Env, edit, enforce, releases}
use zee.Egress.Release.{closed, forget, release_one, release_each, release}

abbrev pub is_closed : String → World → Bool
is_closed d w = contains d (closed w)

forget-closed :
    (k d : String) (w : World) → is_closed k (forget d w) ≡ (not (k == d) && is_closed k w)
unfolding closed forget
forget-closed k d w = ground (
  arith,
  contains-append k (discard d w.held ++ discard d w.unheld) (keys (pop d w.grants)),
  contains-append k (discard d w.held) (discard d w.unheld),
  contains-append k (w.held ++ w.unheld) (keys w.grants),
  contains-append k w.held w.unheld,
  contains-discard k d w.held,
  contains-discard k d w.unheld,
  contains-keys-pop k d w.grants,
)

module _ (env : Env) where
  enforce-closed :
      (k : String) (w : World) (c : _) → is_closed k (enforce env c w).1 ≡ is_closed k w
  unfolding enforce closed
  enforce-closed k w c = ground arith

  -- the destination `d` after its release, if the enforcer let it go
  after_one : String → World → World
  after_one d w =
      let (r, v) = enforce env (releases d) w in (if succeeded r then forget d else (λ u. u)) v

  release_one-after :
      (d : String) (w : World)
      → release_one env d w ≡ (returned (succeeded (enforce env (releases d) w).0), after_one d w)
  unfolding release_one after_one attempt give edit ◌>>=◌ resume
  release_one-after d w = refl

  after_one-closed :
      (k d : String) (w : World)
      → succeeded (enforce env (releases d) w).0 ≡ true
      → is_closed k (after_one d w) ≡ (not (k == d) && is_closed k w)
  unfolding after_one
  after_one-closed k d w h = rw (h) (
      ground
        (arith, forget-closed k d (enforce env (releases d) w).1, enforce-closed k w (releases d)))

  -- a release never raises: it says which destinations are left
  release_each-returned :
      (ds : List String) (w : World)
      → (failed : List String) × ((release_each env ds w).0 ≡ returned failed)
  unfolding release_each give ◌>>=◌ resume
  release_each-returned [] w = ([], refl)
  release_each-returned (d ∷ ds) w =
      let (failed, e) = release_each-returned ds (after_one d w) in
      let done = succeeded (enforce env (releases d) w).0 in
      (if done then failed else d ∷ failed, rw (release_one-after d w, e) refl)

  release_each-closed :
      (k : String) (ds : List String) (w : World)
      → (release_each env ds w).0 ≡ returned []
      → is_closed k (release_each env ds w).1 ≡ (not (contains k ds) && is_closed k w)
  unfolding release_each contains give ◌>>=◌ resume
  release_each-closed k [] w h = refl
  release_each-closed k (d ∷ ds) w h =
      let (failed, e) = release_each-returned ds (after_one d w) in
      let opened = rw (release_one-after d w, e) at h in
      let went : succeeded (enforce env (releases d) w).0 ≡ true = ground (arith, opened) in
      let none_failed : failed ≡ [] = ground (arith, opened) in
      rw (release_one-after d w, e)
        (ground (
          arith,
          after_one-closed k d w went,
          release_each-closed k ds (after_one d w) (e ∙ ap returned none_failed),
        ))

  -- what was given is not closed any more
  pub release-reopens :
      (k : String) (ds : List String) (w : World)
      → (release env ds w).0 ≡ returned []
      → contains k ds ≡ true
      → is_closed k (release env ds w).1 ≡ false
  unfolding release
  release-reopens k ds w h m =
      ground (arith, release_each-closed k (sorted_set ds) w h, contains-sorted_set k ds)

  pub release-nothing :
      (k : String) (w : World)
      → (release env (closed w) w).0 ≡ returned []
      → is_closed k (release env (closed w) w).1 ≡ false
  unfolding release
  release-nothing k w h =
      ground
        (arith, release_each-closed k (sorted_set (closed w)) w h, contains-sorted_set k (closed w))
