-- ===== src/Egress/Grants/Opened.antt =====
-- Which grants src/zee/egress/engine.py gives, and on whose word.
use zee.Prelude.{
  ◌≡◌, refl, ℕ, String, true, ◌||◌, Option, none, some, List, [], ◌∷◌, arith, contains, eq_iff,
  eq_refl, all, if◌then◌else◌, Dict.lookup, Dict.put, Dict.lookup-put, Dict.Dict,
}
use zee.Prelude.Exec.{Exec, Order, Moves, bind-Moves, give-Moves, if-Moves}
use zee.Egress.Payload.{Body, egress, config}
use zee.Egress.World.{World, Env, Grant, Call, Entry, edit, log, enforce}
use zee.Egress.Release.{forget, allow_listed}
use zee.Egress.Release.Moves.{edit-Moves, release-Moves, release_closed-Moves}
use zee.Egress.Apply.{apply_body, apply_config, conclude, open_one, open_each, grant_one}
use zee.Egress.Grants.{
  at_most, at_most_trans, Shrinks, shrinking, enforce-Shrinks, log-Shrinks, forget-Shrinks, frame,
  save-Shrinks,
}

-- the grant that a request asks for at a destination
abbrev pub offered : Body → String → Option Grant
offered (egress host dests procs max_bytes ids until) d =
    if contains d dests then some (record { until = until; remaining = max_bytes }) else none
offered (config context op args) d = none

-- Every grant is within what it was, or within what the request offers.
abbrev pub Opens : Body → World → World → Type 0
Opens b w v =
    (d : String)
    → (at_most (lookup d v.grants) (lookup d w.grants) || at_most (lookup d v.grants) (offered b d))
      ≡ true

at_most_either :
    (f g h o : Option Grant)
    → (at_most f g || at_most f o) ≡ true
    → (at_most g h || at_most g o) ≡ true
    → (at_most f h || at_most f o) ≡ true
at_most_either f g h o p q = ground (arith, at_most_trans f g h, at_most_trans f g o)

pub opening : (b : Body) → Order (Opens b)
opening b = record {
  stays = λ w d. ground (arith, shrinking.stays w d);
  compose = λ u v w p q d. at_most_either _ (lookup d v.grants) _ _ (q d) (p d);
}

Shrinks-Opens : {A : Type 0} (b : Body) (m : Exec World A) → Moves Shrinks m → Moves (Opens b) m
Shrinks-Opens b m h = record { along = λ w d. ground (arith, h.along w d) }

-- a grant within the offer
put-Opens :
    (host : String) (dests procs ids : List String) (max_bytes until : ℕ) (d : String) (w : World)
    → contains d dests ≡ true
    → Opens
        (egress host dests procs max_bytes ids until)
        w
        (record w { grants = put d (record { until = until; remaining = max_bytes }) w.grants })
put-Opens host dests procs ids max_bytes until d w h k =
    let g : Grant = record { until = until; remaining = max_bytes } in
    ground (arith, lookup-put k d g w.grants, shrinking.stays w k, eq_iff k d)

module _ (env : Env) (b : Body) where
  enforce-Opens : (c : Call) → Moves (Opens b) (enforce env c)
  enforce-Opens c = Shrinks-Opens b _ (enforce-Shrinks env c)

  log-Opens : (e : Entry) → Moves (Opens b) (log e)
  log-Opens e = Shrinks-Opens b _ (log-Shrinks env e)

  forget-Opens : (d : String) (w : World) → Opens b w (forget d w)
  forget-Opens d w k = ground (arith, forget-Shrinks env d w k)

  frame-Opens :
      (f : World → World) → ((w : World) → (f w).grants ≡ w.grants) → Moves (Opens b) (edit f)
  frame-Opens f h = Shrinks-Opens b _ (frame env f h)

  apply_config-Opens :
      (op key_id : String) (a : Dict String) → Moves (Opens b) (apply_config env op key_id a)
  unfolding apply_config conclude
  apply_config-Opens op key_id a = bind-Moves (opening b) _ _ (frame-Opens _ (λ w. refl)) (λ _.
      bind-Moves (opening b) _ _ (release_closed-Moves (opening b) env enforce-Opens forget-Opens _)
        (λ _. bind-Moves (opening b) _ _ (frame-Opens _ (λ w. refl)) (λ _.
          bind-Moves (opening b) _ _ (Shrinks-Opens b _ (save-Shrinks env))
            (λ _. bind-Moves (opening b) _ _ (log-Opens _) (λ _. give-Moves (opening b) _)))))

module _ (env : Env) (host : String) (dests procs ids : List String) (max_bytes until : ℕ) where
  abbrev asked : Body
  asked = egress host dests procs max_bytes ids until

  grant_one-Opens :
      (d : String) → contains d dests ≡ true → Moves (Opens asked) (grant_one env until max_bytes d)
  unfolding grant_one
  grant_one-Opens d h =
      bind-Moves (opening asked) _ _
        (edit-Moves _ (λ w. put-Opens host dests procs ids max_bytes until d w h))
        (λ _. bind-Moves (opening asked) _ _ (enforce-Opens env asked _) (λ _.
          bind-Moves (opening asked) _ _ (frame-Opens env asked _ (λ w. refl))
            (λ _. give-Moves (opening asked) _)))

  open_one-Opens :
      (d : String) → contains d dests ≡ true → Moves (Opens asked) (open_one env until max_bytes d)
  unfolding open_one
  open_one-Opens d h = record {
    along = λ w.
        (if-Moves (allow_listed env w d) _ _
            (release-Moves (opening asked) env (enforce-Opens env asked) (forget-Opens env asked) _)
            (grant_one-Opens d h)).along
          w;
  }

  open_each-Opens :
      (ds : List String)
      → all (λ d. contains d dests) ds ≡ true
      → Moves (Opens asked) (open_each env until max_bytes ds)
  unfolding open_each
  open_each-Opens [] h = give-Moves (opening asked) _
  open_each-Opens (d ∷ ds) h =
      bind-Moves (opening asked) _ _ (open_one-Opens d (ground arith)) (λ _.
        bind-Moves (opening asked) _ _ (open_each-Opens ds (ground arith))
          (λ _. give-Moves (opening asked) _))

all_members :
    (xs ys : List String)
    → ((d : String) → contains d xs ≡ true → contains d ys ≡ true)
    → all (λ d. contains d ys) xs ≡ true
unfolding contains
all_members [] ys h = refl
all_members (x ∷ xs) ys h =
    ground (arith, h x, eq_refl x, all_members xs ys (λ d p. h d (ground arith)))

pub apply_body-Opens :
    (env : Env) (rid key_id : String) (b : Body) → Moves (Opens b) (apply_body env rid key_id b)
unfolding apply_body
apply_body-Opens env rid key_id (egress host dests procs max_bytes ids until) =
    let b = egress host dests procs max_bytes ids until in
    bind-Moves (opening b) _ _
      (open_each-Opens env host dests procs ids max_bytes until dests
        (all_members dests dests (λ d h. h)))
      (λ _. bind-Moves (opening b) _ _ (log-Opens env b _) (λ _. give-Moves (opening b) _))
apply_body-Opens env rid key_id (config context op a) =
    apply_config-Opens env (config context op a) op key_id a
