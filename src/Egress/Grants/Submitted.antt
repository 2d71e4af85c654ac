-- ===== src/Egress/Grants/Submitted.antt =====
-- Every grant of src/zee/egress/engine.py is one that an accepted answer asked for.
use zee.Prelude.{
  ◌≡◌, refl, ◌⊎◌, inl, inr, String, true, Option, some, arith, Bool-cases, Dict.lookup,
}
use zee.Prelude.Exec.{Outcome, returned, raised, Moves, give, ◌>>=◌, bind-Moves, give-Moves, resume}
use zee.Prelude.Json
use zee.Prelude.Json.{Json, Fields, obj, str}
use zee.Egress.Payload.{Request}
use zee.Egress.World.{World, Env, edit, log, save}
use zee.Egress.Submit.{
  Checked, Judgement, deny, expire, accept, refused, accepted, check_answer, settle, check_named,
  spend,
}
use zee.Egress.Submit.Approved.{Accepted, check_answer-Accepted}
use zee.Egress.Apply.{apply, act, submit, text_of}
use zee.Egress.Grants.{at_most, shrinking}
use zee.Egress.Grants.Opened.{offered, Opens, opening, apply_body-Opens}

-- the books that `submit` keeps leave the grants
settle-grants :
    (env : Env) (rid : String) (j : Judgement) (w : World)
    → (settle env rid j w).1.grants ≡ w.grants
unfolding settle give edit log save spend resume ◌>>=◌
settle-grants env rid (deny reason) w = refl
settle-grants env rid expire w = refl
settle-grants env rid (accept req digest) w = ground arith

check_named-grants :
    (env : Env) (payload : Fields) (entered key_id signature : String) (o : Option Json) (w : World)
    → (check_named env payload entered key_id signature o w).1.grants ≡ w.grants
unfolding check_named
check_named-grants env payload entered key_id signature (some (str rid)) w =
    settle-grants env rid _ w
check_named-grants env payload entered key_id signature _ w = settle-grants env "" _ w

check_answer-grants :
    (env : Env) (payload entered key_id : Json) (signature : Option String) (w : World)
    → (check_answer env payload entered key_id signature w).1.grants ≡ w.grants
unfolding check_answer
check_answer-grants env (obj p) (str e) (str k) (some s) w =
    check_named-grants env p e k s (Json.get "req" p) w
check_answer-grants env _ _ _ _ w = settle-grants env "" _ w

act-Opens :
    (env : Env) (key : String) (req : Request) → Moves (Opens req.body) (act env key (accepted req))
unfolding act apply
act-Opens env key req =
    bind-Moves (opening req.body) _ _ (apply_body-Opens env req.id key req.body)
      (λ failed. give-Moves (opening req.body) _)

module _ (env : Env) (w : World) (payload entered key_id : Json) (signature : Option String) where
  -- what `v` grants at `d` was granted before, or was asked for by an accepted answer
  abbrev Warranted : World → String → Type 0
  Warranted v d =
      (at_most (lookup d v.grants) (lookup d w.grants) ≡ true)
      ⊎ ((req : Request) × Accepted env w payload entered key_id signature req
          × (at_most (lookup d v.grants) (offered req.body d) ≡ true))

  acted :
      (key : String) (req : Request) (v : World) (d : String)
      → Accepted env w payload entered key_id signature req
      → v.grants ≡ w.grants
      → Warranted (act env key (accepted req) v).1 d
  acted key req v d h g =
      let moved = (act-Opens env key req).along v d in
      elim (Bool-cases
        (at_most (lookup d (act env key (accepted req) v).1.grants) (lookup d v.grants))) [
          | inl e ↦ inl (ground (arith, e, g))
          | inr e ↦ inr (req, h, ground (arith, e, moved))
        ]

  act_resumed :
      (key : String) (r : Outcome Checked × World)
      → ((req : Request)
          → r.0 ≡ returned (accepted req)
          → Accepted env w payload entered key_id signature req)
      → r.1.grants ≡ w.grants
      → (d : String) → Warranted (resume (act env key) r).1 d
  unfolding act resume give
  act_resumed key (raised e, v) h g d = inl (ground (arith, g, shrinking.stays w d))
  act_resumed key (returned (refused reason), v) h g d =
      inl (ground (arith, g, shrinking.stays w d))
  act_resumed key (returned (accepted req), v) h g d = acted key req v d (h req refl) g

  pub submit-Warranted :
      (d : String) → Warranted (submit env payload entered key_id signature w).1 d
  unfolding submit ◌>>=◌
  submit-Warranted d =
      act_resumed (text_of key_id) (check_answer env payload entered key_id signature w)
        (λ req h. check_answer-Accepted env w payload entered key_id signature req h)
        (check_answer-grants env payload entered key_id signature w) d
