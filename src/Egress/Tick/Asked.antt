-- ===== src/Egress/Tick/Asked.antt =====
-- `tick` of src/zee/egress/engine.py asks for an approval of whatever is held: no held flow is forgotten.
use zee.Prelude.{
  ◌≡◌, refl, ap, ◌∙◌, ◌≤◌, ℕ, String, Bool, true, false, not, ◌&&◌, ◌||◌, none, some, List, [], ◌∷◌,
  ◌==◌, arith, contains, leb, ltb, all, eq_iff,
}
use zee.Prelude.Dict.{Dict, lookup, keys, is_dict, lookup-pop, contains-keys}
use zee.Prelude.Sort.{contains-sorted_set}
use zee.Prelude.Exec.{
  Order, Moves, returned, give, ◌>>=◌, ◌>>◌, resume, bind-Moves, attempt-Moves, give-Moves,
}
use zee.Egress.Payload.{Body, Request, egress, config}
use zee.Egress.World.{World, Env, Grant, Batch, Call, edit, log, enforce}
use zee.Egress.Release.{forget, release, release_closed}
use zee.Egress.Release.Moves.{edit-Moves, release-Moves, release_closed-Moves}
use zee.Egress.Submit.{new_request}
use zee.Egress.Moves.{guarded}
use zee.Egress.Tick.{
  most, request_body, issue, seal, seal_batch, expire_one, expire_each, close_one, close_each,
  remind, remind_of, tick, may_reopen,
}

-- whether a request covers a flow of `n` bytes to `d`
abbrev pub asks : Body → String → ℕ → Bool
asks (egress host dests procs max_bytes ids until) d n = contains d dests && leb n max_bytes
asks (config context op args) d n = false

most-lookup : (d : String) (n : ℕ) (dests : Dict ℕ) → lookup d dests ≡ some n → n ≤ most dests
unfolding lookup
most-lookup d n [] h = absurd (cc h)
most-lookup d n ((k, m) ∷ dests) h = ground (arith, most-lookup d n dests)

pub request_body-asks :
    (env : Env) (now : ℕ) (b : Batch) (d : String) (n : ℕ)
    → lookup d b.dests ≡ some n
    → asks (request_body env now b) d n ≡ true
unfolding request_body
request_body-asks env now b d n h = ground (
  arith,
  contains-sorted_set d (keys b.dests),
  contains-keys d b.dests,
  most-lookup d n b.dests h,
)

-- Nothing but the requests matters here.
abbrev pub SamePending : World → World → Type 0
SamePending w v = v.pending ≡ w.pending

pub same_pending : Order SamePending
same_pending = record { stays = λ w. refl; compose = λ u v w p q. q ∙ p }

module _ (env : Env) where
  pub calls-SamePending : (c : Call) → Moves SamePending (enforce env c)
  unfolding enforce
  calls-SamePending c = record { along = λ w. ground arith }

  pub release-SamePending : (ds : List String) → Moves SamePending (release env ds)
  unfolding forget
  release-SamePending = release-Moves same_pending env calls-SamePending (λ d w. refl)

  pub release_closed-SamePending : (p : _) → Moves SamePending (release_closed env p)
  unfolding forget
  release_closed-SamePending = release_closed-Moves same_pending env calls-SamePending (λ d w. refl)

  close_each-SamePending : (gs : Dict Grant) → Moves SamePending (close_each env gs)
  unfolding close_each close_one
  close_each-SamePending [] = give-Moves same_pending _
  close_each-SamePending ((d, g) ∷ gs) =
      bind-Moves same_pending _ _
        (guarded _ _ _
          (λ w.
            bind-Moves same_pending _ _ (attempt-Moves _ (calls-SamePending _))
              (λ done. edit-Moves _ (λ v. ground arith)))
          (λ w. give-Moves same_pending _))
        (λ _. close_each-SamePending gs)

  remind-SamePending : Moves SamePending (remind)
  unfolding remind remind_of log give edit ◌>>=◌ resume
  remind-SamePending = record { along = λ w. ground arith }

-- A request that is in time is not taken for one that ran out.
pub in_time : String → ℕ → Dict Request → Bool
in_time id now rs = all (λ e. not (e.0 == id) || not (ltb e.1.exp now)) rs

absent-in_time :
    (id : String) (now : ℕ) (rs : Dict Request) → lookup id rs ≡ none → in_time id now rs ≡ true
unfolding in_time lookup
absent-in_time id now [] h = refl
absent-in_time id now ((k, r) ∷ rs) h =
    ground (arith, absent-in_time id now rs, eq_iff id k, eq_iff k id)

pub pending-in_time :
    (id : String) (now : ℕ) (req : Request) (rs : Dict Request)
    → is_dict rs ≡ true
    → lookup id rs ≡ some req
    → now ≤ req.exp
    → in_time id now rs ≡ true
unfolding in_time is_dict lookup
pending-in_time id now req [] d h t = refl
pending-in_time id now req ((k, r) ∷ rs) d h t =
    ground
      (arith, pending-in_time id now req rs, absent-in_time id now rs, eq_iff id k, eq_iff k id)

-- a request that is in time survives the expiry of the others
expire_one-now : (rid : String) (r : Request) (w : World) → (expire_one rid r w).1.now ≡ w.now
unfolding expire_one log give edit ◌>>=◌ resume
expire_one-now rid r w = ground arith

expire_one-lookup :
    (id rid : String) (r : Request) (w : World)
    → (not (rid == id) || not (ltb r.exp w.now)) ≡ true
    → lookup id (expire_one rid r w).1.pending ≡ lookup id w.pending
unfolding expire_one log give edit ◌>>=◌ resume
expire_one-lookup id rid r w h =
    ground (arith, lookup-pop id rid w.pending, eq_iff id rid, eq_iff rid id)

expire_one-returned :
    (rid : String) (r : Request) (w : World) → (expire_one rid r w).0 ≡ returned tt
unfolding expire_one log give edit ◌>>=◌ resume
expire_one-returned rid r w = ground arith

expire_each-lookup :
    (id : String) (rs : Dict Request) (w : World)
    → in_time id w.now rs ≡ true
    → lookup id (expire_each rs w).1.pending ≡ lookup id w.pending
unfolding in_time expire_each give ◌>>=◌ resume
expire_each-lookup id [] w h = refl
expire_each-lookup id ((rid, r) ∷ rs) w h =
    let v = (expire_one rid r w).1 in
    rw (expire_one-returned rid r w) (
      expire_each-lookup id rs v (ground (arith, expire_one-now rid r w))
      ∙ expire_one-lookup id rid r w (ground arith))

expire_each-returned : (rs : Dict Request) (w : World) → (expire_each rs w).0 ≡ returned tt
unfolding expire_each give ◌>>=◌ resume
expire_each-returned [] w = refl
expire_each-returned ((rid, r) ∷ rs) w =
    rw (expire_one-returned rid r w) (expire_each-returned rs (expire_one rid r w).1)

module _ (env : Env) where
  -- what `tick` does after the requests that ran out
  rest-SamePending :
      Moves SamePending
        (release_closed env (may_reopen env) >> ((λ w. close_each env w.grants w) >> remind))
  rest-SamePending = bind-Moves same_pending _ _ (release_closed-SamePending env _) (λ _.
      bind-Moves same_pending _ _
        (record { along = λ w. (close_each-SamePending env w.grants).along w })
        (λ _. remind-SamePending env))

  seal-returned : (w : World) → (seal env w).0 ≡ returned tt
  unfolding seal seal_batch issue new_request log give edit ◌>>=◌ resume
  seal-returned w = ground arith

  pub tick-lookup :
      (id : String) (w : World)
      → in_time id (seal env w).1.now (seal env w).1.pending ≡ true
      → lookup id (tick env w).1.pending ≡ lookup id (seal env w).1.pending
  unfolding tick ◌>>=◌ resume
  tick-lookup id w h =
      let v = (seal env w).1 in
      let kept = rest-SamePending.along (expire_each v.pending v).1 in
      rw (seal-returned w, expire_each-returned v.pending v)
        (ap (lookup id) kept ∙ expire_each-lookup id v.pending v h)
