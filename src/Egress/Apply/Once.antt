-- ===== src/Egress/Apply/Once.antt =====
-- A signed answer to src/zee/egress/engine.py works once.
use zee.Prelude.{
  ◌≡◌, ◌≢◌, refl, ap, ◌∙◌, ℕ, String, true, false, Option, none, some, List, [], ◌∷◌, arith,
  eq_refl, eq_iff, ◌==◌, ◌≤◌, Bool-cases, inl, inr,
}
use zee.Prelude.Dict.{lookup, pop, lookup-pop}
use zee.Prelude.Exec.{Outcome, Moves, returned, raised, give, ◌>>=◌, resume, bind-Moves, give-Moves}
use zee.Prelude.Json
use zee.Prelude.Json.{Json, Fields, obj, str}
use zee.Egress.Payload.{Body, Request, egress, config}
use zee.Egress.Payload.Shown.{shown-id}
use zee.Egress.World.{World, Env, Answer, edit, log, save}
use zee.Egress.Release.Moves.{edit-Moves}
use zee.Egress.Submit.{
  Checked, Judgement, deny, expire, accept, refused, accepted, settle, spend, check_named,
  check_answer,
}
use zee.Egress.Submit.Approved.{Accepted, check_answer-Accepted}
use zee.Egress.Moves.{guarded}
use zee.Egress.Step.{Method, run}
use zee.Egress.Apply.Gone.Steps.{run-Stays}
use zee.Egress.Apply.{
  submit, act, apply, apply_body, apply_config, conclude, grant_one, open_one, open_each, text_of,
}
use zee.Egress.Tick.Asked.{
  SamePending, same_pending, release-SamePending, calls-SamePending, release_closed-SamePending,
}

module _ (env : Env) where
  save-SamePending : Moves SamePending (save env)
  unfolding save
  save-SamePending = record { along = λ w. ground arith }

  conclude-SamePending :
      (op key_id : String) (ds : List String) → Moves SamePending (conclude env op key_id ds)
  unfolding conclude log
  conclude-SamePending op key_id ds = bind-Moves same_pending _ _ (edit-Moves _ (λ w. refl)) (λ _.
      bind-Moves same_pending _ _ save-SamePending (λ _.
        bind-Moves same_pending _ _ (record { along = λ w. refl })
          (λ _. give-Moves same_pending _)))

  open_each-SamePending :
      (until max_bytes : ℕ) (ds : List String)
      → Moves SamePending (open_each env until max_bytes ds)
  unfolding open_each open_one grant_one
  open_each-SamePending until max_bytes [] = give-Moves same_pending _
  open_each-SamePending until max_bytes (d ∷ ds) =
      bind-Moves same_pending _ _
        (guarded _ _ _ (λ w. release-SamePending env _)
          (λ w. bind-Moves same_pending _ _ (edit-Moves _ (λ v. refl)) (λ _.
            bind-Moves same_pending _ _ (calls-SamePending env _) (λ _.
              bind-Moves same_pending _ _ (edit-Moves _ (λ v. refl))
                (λ _. give-Moves same_pending _)))))
        (λ _.
          bind-Moves same_pending _ _ (open_each-SamePending until max_bytes ds)
            (λ _. give-Moves same_pending _))

  apply_body-SamePending :
      (rid key_id : String) (b : Body) → Moves SamePending (apply_body env rid key_id b)
  unfolding apply_body apply_config log
  apply_body-SamePending rid key_id (egress host dests procs max_bytes ids until) =
      bind-Moves same_pending _ _ (open_each-SamePending until max_bytes dests) (λ _.
        bind-Moves same_pending _ _ (record { along = λ w. refl }) (λ _. give-Moves same_pending _))
  apply_body-SamePending rid key_id (config context op a) =
      bind-Moves same_pending _ _ (edit-Moves _ (λ w. refl)) (λ _.
        bind-Moves same_pending _ _ (release_closed-SamePending env _)
          (λ failed. conclude-SamePending op key_id failed))

  act-SamePending : (key : String) (c : Checked) → Moves SamePending (act env key c)
  unfolding act apply
  act-SamePending key (refused reason) = give-Moves same_pending _
  act-SamePending key (accepted req) =
      bind-Moves same_pending _ _ (apply_body-SamePending req.id key req.body)
        (λ _. give-Moves same_pending _)

settle-pending :
    (env : Env) (rid : String) (j : Judgement) (w : World) (req : Request)
    → (settle env rid j w).0 ≡ returned (accepted req)
    → (settle env rid j w).1.pending ≡ pop req.id w.pending
unfolding settle give edit log save spend ◌>>=◌ resume
settle-pending env rid (deny reason) w req h = absurd (cc h)
settle-pending env rid expire w req h = absurd (cc h)
settle-pending env rid (accept r digest) w req h = ground arith

check_named-pending :
    (env : Env) (w : World) (p : Fields) (e k s : String) (o : Option Json) (req : Request)
    → (check_named env p e k s o w).0 ≡ returned (accepted req)
    → (check_named env p e k s o w).1.pending ≡ pop req.id w.pending
unfolding check_named
check_named-pending env w p e k s (some (str rid)) req h = settle-pending env rid _ w req h
check_named-pending env w p e k s _ req h = settle-pending env "" _ w req h

check_answer-pending :
    (env : Env) (w : World) (payload entered key_id : Json) (signature : Option String)
    (req : Request)
    → (check_answer env payload entered key_id signature w).0 ≡ returned (accepted req)
    → (check_answer env payload entered key_id signature w).1.pending ≡ pop req.id w.pending
unfolding check_answer
check_answer-pending env w (obj p) (str e) (str k) (some s) req h =
    check_named-pending env w p e k s (Json.get "req" p) req h
check_answer-pending env w _ _ _ _ req h = settle-pending env "" _ w req h

-- an answer whose request does not wait any more
spent :
    (env : Env) (v w : World) (payload entered key_id entered' key_id' : Json)
    (signature signature' : Option String) (req req' : Request)
    → Accepted env w payload entered key_id signature req
    → lookup req.id v.pending ≡ none
    → (check_answer env payload entered' key_id' signature' v).0 ≢ returned (accepted req')
spent env v w payload entered key_id entered' key_id' signature signature' req req' a g h =
    let b = check_answer-Accepted env v payload entered' key_id' signature' req' h in
    let first = shown-id a.approved.rid a.fields req a.approved.shown a.approved.named in
    let second = b.approved.pending in
    let same : a.approved.rid ≡ b.approved.rid =
      ground (arith, a.is_fields, b.is_fields, a.approved.named, b.approved.named) in
    cc (first, second, same, g)

not_ok :
    (env : Env) (key : String) (r : Outcome Checked × World) (b : Answer)
    → ((req : Request) → r.0 ≢ returned (accepted req))
    → (resume (act env key) r).0 ≡ returned b
    → b.ok ≡ false
unfolding resume act give
not_ok env key (raised e, v) b h k = absurd (cc k)
not_ok env key (returned (refused reason), v) b h k = ground arith
not_ok env key (returned (accepted req), v) b h k = absurd (h req refl)

ok_accepted :
    (env : Env) (key : String) (r : Outcome Checked × World) (a : Answer)
    → (resume (act env key) r).0 ≡ returned a
    → a.ok ≡ true
    → (req : Request) × (r.0 ≡ returned (accepted req))
      × ((resume (act env key) r).1.pending ≡ r.1.pending)
unfolding resume
ok_accepted env key (raised e, v) a h k = absurd (cc h)
ok_accepted env key (returned (refused reason), v) a h k =
    absurd (cc (k, not_ok env key (returned (refused reason), v) a (λ req e. cc e) h))
ok_accepted env key (returned (accepted req), v) a h k =
    (req, refl, (act-SamePending env key (accepted req)).along v)

-- an id that the payload does not name is not the request's
other_id :
    (env : Env) (w : World) (p : Fields) (entered key_id : Json) (signature : Option String)
    (req : Request)
    → Accepted env w (obj p) entered key_id signature req
    → (id : String) → Json.get "req" p ≢ some (str id)
    → (id == req.id) ≡ false
other_id env w p entered key_id signature req a id n = elim (Bool-cases (id == req.id)) [
  | inr other ↦ other
  | inl same ↦
      let first = shown-id a.approved.rid a.fields req a.approved.shown a.approved.named in
      let eq : id ≡ req.id = ground (arith, same, eq_iff id req.id) in
      let is_p : a.fields ≡ p = ground (arith, a.is_fields) in
      absurd (n (cc (first, eq, is_p, a.approved.named)))
]

-- A payload whose answer was accepted is refused ever after, whatever is called in between, ticks,
-- requests and answers included, and whatever code, key and signature come with it: one approval acts
-- once. The ids that are issued after the acceptance must be others than the one in the payload.
pub submit-once :
    (env : Env) (w : World) (p : Fields) (entered key_id entered' key_id' : Json)
    (signature signature' : Option String) (a b : Answer) (ms : List Method)
    → (submit env (obj p) entered key_id signature w).0 ≡ returned a
    → a.ok ≡ true
    → let v = (submit env (obj p) entered key_id signature w).1 in
      ((k : ℕ) → v.issued ≤ k → Json.get "req" p ≢ some (str (env.token k)))
      → (submit env (obj p) entered' key_id' signature' (run env ms v)).0 ≡ returned b
      → b.ok ≡ false
unfolding submit ◌>>=◌
submit-once env w p entered key_id entered' key_id' signature signature' a b ms h k fresh l =
    let first = check_answer env (obj p) entered key_id signature w in
    let (req, e, kept) = ok_accepted env (text_of key_id) first a h k in
    let accepted_first = check_answer-Accepted env w (obj p) entered key_id signature req e in
    let popped = check_answer-pending env w (obj p) entered key_id signature req e in
    let gone = kept ∙ popped in
    let v = (resume (act env (text_of key_id)) first).1 in
    let free : lookup req.id v.pending ≡ none =
      ap (lookup req.id) gone
      ∙ ground (arith, lookup-pop req.id req.id w.pending, eq_refl req.id) in
    let others : (j : ℕ) → v.issued ≤ j → (env.token j == req.id) ≡ false = λ j t.
      other_id env w p entered key_id signature req accepted_first (env.token j) (fresh j t) in
    let later = run env ms v in
    let still =
      run-Stays env req.id v.issued others ms v (record { gone = free; since = omega arith }) in
    not_ok env (text_of key_id') (check_answer env (obj p) entered' key_id' signature' later) b
      (λ req'.
        spent env later w (obj p) entered key_id entered' key_id' signature signature' req req'
          accepted_first still.gone)
      l
