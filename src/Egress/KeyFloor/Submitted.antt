-- ===== src/Egress/KeyFloor/Submitted.antt =====
-- No signed answer to src/zee/egress/engine.py takes the second key while approval needs it.
use zee.Prelude.{
  ◌≡◌, refl, ℕ, String, true, false, ◌&&◌, Option, none, some, List, [], ◌∷◌, ◌==◌, arith,
}
use zee.Prelude.Dict.{Dict, pop, length-put, length-pop, is_dict-put, is_dict-pop}
use zee.Prelude.Exec.{
  Outcome, returned, raised, Moves, give, ◌>>=◌, resume, resume-give, bind-Moves, give-Moves,
}
use zee.Prelude.Json
use zee.Prelude.Json.{Json, Fields, obj, str}
use zee.Egress.State.{State}
use zee.Egress.Payload.{Body, Request, egress, config}
use zee.Egress.World.{World, Env, edit, set_state, log, save}
use zee.Egress.Submit.{
  Checked, Judgement, deny, expire, accept, refused, accepted, settle, spend, check_named,
  check_answer, removes_key, key_floor, arg,
}
use zee.Egress.Submit.Approved.{check_answer-Accepted}
use zee.Egress.Apply.{
  changed_state, apply_config, conclude, apply_body, apply, open_one, open_each, grant_one, act,
  submit, text_of, answer_of,
}
use zee.Egress.Release.Moves.{edit-Moves}
use zee.Egress.Moves.{guarded, release-Moves, release_closed-Moves}
use zee.Egress.Moves.State.{SameState, alike, same_state, SameState-prims}
use zee.Egress.KeyFloor.{has_spare, spared, save-spared, same-spared}

changed_state-has_spare :
    (op : String) (a : Dict String) (s : State)
    → ((op == "key_remove") && key_floor s) ≡ false
    → has_spare s ≡ true
    → has_spare (changed_state op a s) ≡ true
unfolding changed_state key_floor
changed_state-has_spare op a s k h = ground (
  arith,
  length-put (arg "key_id" a) (arg "public_key" a) s.keys,
  is_dict-put (arg "key_id" a) (arg "public_key" a) s.keys,
  length-pop (arg "key_id" a) s.keys,
  is_dict-pop (arg "key_id" a) s.keys,
)

-- What the books that `submit` keeps leave of the state.
record Books (w v : World) : Type 0 where
  floor : key_floor v.state ≡ key_floor w.state
  still : spared w ≡ true → spared v ≡ true

settle-Books :
    (env : Env) (rid : String) (j : Judgement) (w : World) → Books w (settle env rid j w).1
unfolding settle give edit log save spend key_floor ◌>>=◌ resume
settle-Books env rid (deny reason) w = record { floor = refl; still = λ h. h }
settle-Books env rid expire w = record { floor = refl; still = λ h. h }
settle-Books env rid (accept req digest) w =
    let v = spend digest req.exp (record w { pending = pop req.id w.pending }) in
    record { floor = ground arith; still = λ h. ground (arith, save-spared env v h) }

check_named-Books :
    (env : Env) (payload : Fields) (entered key_id signature : String) (o : Option Json) (w : World)
    → Books w (check_named env payload entered key_id signature o w).1
unfolding check_named
check_named-Books env payload entered key_id signature (some (str rid)) w = settle-Books env rid _ w
check_named-Books env payload entered key_id signature _ w = settle-Books env "" _ w

check_answer-Books :
    (env : Env) (payload entered key_id : Json) (signature : Option String) (w : World)
    → Books w (check_answer env payload entered key_id signature w).1
unfolding check_answer
check_answer-Books env (obj p) (str e) (str k) (some s) w =
    check_named-Books env p e k s (Json.get "req" p) w
check_answer-Books env _ _ _ _ w = settle-Books env "" _ w

concluded :
    (env : Env) (op key_id : String) (r : Outcome (List String) × World)
    → spared r.1 ≡ true
    → spared (resume (conclude env op key_id) r).1 ≡ true
unfolding conclude edit log give save ◌>>=◌ resume
concluded env op key_id (raised e, v) h = h
concluded env op key_id (returned failed, v) h =
    ground (arith, save-spared env (set_state (record v.state { recovery_start = none }) v) h)

apply_config-spared :
    (env : Env) (op key_id : String) (a : Dict String) (w : World)
    → ((op == "key_remove") && key_floor w.state) ≡ false
    → spared w ≡ true
    → spared (apply_config env op key_id a w).1 ≡ true
unfolding apply_config edit ◌>>=◌ resume
apply_config-spared env op key_id a w k h =
    let v = set_state (changed_state op a w.state) w in
    concluded env op key_id _ (
      same-spared v _ ((release_closed-Moves same_state env (SameState-prims env) _).along v)
        (ground (arith, changed_state-has_spare op a w.state k)))

-- an approved egress request leaves the state
module _ (env : Env) where
  grant_one-SameState :
      (until max_bytes : ℕ) (d : String) → Moves SameState (grant_one env until max_bytes d)
  unfolding grant_one
  grant_one-SameState until max_bytes d =
      bind-Moves same_state _ _ (edit-Moves _ (λ w. alike refl refl refl)) (λ _.
        bind-Moves same_state _ _ ((SameState-prims env).calls _) (λ _.
          bind-Moves same_state _ _ (edit-Moves _ (λ w. alike refl refl refl))
            (λ _. give-Moves same_state _)))

  open_each-SameState :
      (until max_bytes : ℕ) (ds : List String) → Moves SameState (open_each env until max_bytes ds)
  unfolding open_each open_one
  open_each-SameState until max_bytes [] = give-Moves same_state _
  open_each-SameState until max_bytes (d ∷ ds) =
      bind-Moves same_state _ _
        (guarded _ _ _ (λ w. release-Moves same_state env (SameState-prims env) _)
          (λ w. grant_one-SameState until max_bytes d))
        (λ _.
          bind-Moves same_state _ _ (open_each-SameState until max_bytes ds)
            (λ _. give-Moves same_state _))

apply_body-spared :
    (env : Env) (rid key_id : String) (b : Body) (w : World)
    → (removes_key b && key_floor w.state) ≡ false
    → spared w ≡ true
    → spared (apply_body env rid key_id b w).1 ≡ true
unfolding apply_body
apply_body-spared env rid key_id (egress host dests procs max_bytes ids until) w k h =
    same-spared w _
      ((bind-Moves same_state _ _ (open_each-SameState env until max_bytes dests) (λ _.
          bind-Moves same_state _ _ ((SameState-prims env).logs _)
            (λ _. give-Moves same_state _))).along
        w)
      h
apply_body-spared env rid key_id (config context op a) w k h =
    apply_config-spared env op key_id a w k h

act-spared :
    (env : Env) (key : String) (w : World) (r : Outcome Checked × World)
    → ((req : Request)
        → r.0 ≡ returned (accepted req)
        → (removes_key req.body && key_floor w.state) ≡ false)
    → key_floor r.1.state ≡ key_floor w.state
    → spared r.1 ≡ true
    → spared (resume (act env key) r).1 ≡ true
unfolding act apply resume give ◌>>=◌
act-spared env key w (raised e, v) k f h = h
act-spared env key w (returned (refused reason), v) k f h = h
act-spared env key w (returned (accepted req), v) k f h =
    let applied = apply_body-spared env req.id key req.body v (ground (arith, f, k req refl)) h in
    rw (resume-give answer_of (apply_body env req.id key req.body v)) applied

pub submit-spared :
    (env : Env) (payload entered key_id : Json) (signature : Option String) (w : World)
    → spared w ≡ true
    → spared (submit env payload entered key_id signature w).1 ≡ true
unfolding submit ◌>>=◌
submit-spared env payload entered key_id signature w h =
    let books = check_answer-Books env payload entered key_id signature w in
    act-spared env (text_of key_id) w (check_answer env payload entered key_id signature w)
      (λ req e.
        (check_answer-Accepted env w payload entered key_id signature req e).approved.key_left)
      books.floor (books.still h)
