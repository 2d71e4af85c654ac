-- ===== src/Egress/Apply/Gone.antt =====
-- A request to src/zee/egress/engine.py that no longer waits never waits again, whatever is called.
pub mod Steps
use zee.Prelude.{
  ◌≡◌, ◌≢◌, refl, ◌≤◌, ℕ, String, Bool, true, false, not, ◌&&◌, ◌||◌, Option, none, some, List, [],
  ◌∷◌, ◌==◌, arith, is_some, eq_iff, if◌then◌else◌,
}
use zee.Prelude.Dict.{Dict, lookup, put, pop, lookup-put, lookup-pop}
use zee.Prelude.Exec.{
  Exec, Exn, Order, Moves, give, throw, ◌>>=◌, ◌>>◌, resume, bind-Moves, give-Moves, throw-Moves,
  attempt-Moves, if-Moves,
}
use zee.Prelude.Json
use zee.Prelude.Json.{Json, Fields, obj, str}
use zee.Egress.State.{State}
use zee.Egress.Payload.{Body, Request, egress, config}
use zee.Egress.World.{World, Env, Flow, Call, Entry, Grant, Batch, edit, log, save, enforce}
use zee.Egress.Release.{forget, release, release_closed}
use zee.Egress.Release.Moves.{edit-Moves, release-Moves, release_closed-Moves}
use zee.Egress.Setup.{
  setup, setup_allow, setup_protect, ack_single_key, bootstrap_key, enable, recovery_start,
  recovery_complete, finish_recovery,
}
use zee.Egress.Submit.{
  Judgement, deny, expire, accept, Checked, refused, accepted, settle, spend, check_named,
  check_answer, new_request, request_valid, request_config,
}
use zee.Egress.Apply.{
  submit, act, apply, apply_body, apply_config, conclude, grant_one, open_one, open_each,
}
use zee.Egress.Watch.{
  observe, judged, switched, decide_flow, hold_flow, note_flow, drop_grant, close_dest, meter, look,
  prune, note_protected_touch,
}
use zee.Egress.Tick.{
  tick, seal, seal_batch, issue, expire_one, expire_each, close_one, close_each, remind, remind_of,
}
use zee.Egress.Step.{
  Method, step, run, allows_at_setup, protects_at_setup, bootstraps, acks_single_key, enables,
  requests, submits, starts_recovery, completes_recovery, touches, observes, ticks, waits,
}
use zee.Egress.Moves.{guarded}

-- The request does not wait, and `n` or more were issued.
pub record IsGone (rid : String) (n : ℕ) (w : World) : Type 0 where
  pub gone : lookup rid w.pending ≡ none
  pub since : n ≤ w.issued

put_other :
    (rid id : String) (r : Request) (d : Dict Request)
    → (id == rid) ≡ false
    → lookup rid d ≡ none
    → lookup rid (put id r d) ≡ none
put_other rid id r d h k = ground (arith, lookup-put rid id r d, eq_iff rid id, eq_iff id rid, h, k)

module _ (env : Env) (rid : String) (n : ℕ)
    (fresh : (k : ℕ) → n ≤ k → (env.token k == rid) ≡ false) where
  abbrev pub Stays : World → World → Type 0
  Stays w v = IsGone rid n w → IsGone rid n v

  pub staying : Order Stays
  staying = record { stays = λ w h. h; compose = λ u v w p q h. q (p h) }

  -- neither the requests nor their count change
  pub same : (w v : World) → v.pending ≡ w.pending → v.issued ≡ w.issued → Stays w v
  same w v p i h = record { gone = ground (arith, p, h.gone); since = ground (arith, i, h.since) }

  pub plain :
      (f : World → World)
      → ((w : World) → (f w).pending ≡ w.pending)
      → ((w : World) → (f w).issued ≡ w.issued)
      → Moves Stays (edit f)
  plain f p i = edit-Moves f (λ w. same w (f w) (p w) (i w))

  pub calls : (c : Call) → Moves Stays (enforce env c)
  unfolding enforce
  calls c = record { along = λ w. same w _ (ground arith) (ground arith) }

  pub logs : (e : Entry) → Moves Stays (log e)
  unfolding log
  logs e = record { along = λ w. same w _ refl refl }

  pub saves : Moves Stays (save env)
  unfolding save
  saves = record { along = λ w. same w _ (ground arith) (ground arith) }

  pub popped : (id : String) (w : World) → Stays w (record w { pending = pop id w.pending })
  popped id w h = record {
    gone = ground (arith, lookup-pop rid id w.pending, h.gone);
    since = h.since;
  }

  pub new_request-Stays : (body : Body) → Moves Stays (new_request env body)
  unfolding new_request
  new_request-Stays body = record {
    along = λ w h. record {
      gone = put_other rid (env.token w.issued) _ w.pending (fresh w.issued h.since) h.gone;
      since = omega (arith, h.since);
    };
  }

  releases-Stays : (ds : List String) → Moves Stays (release env ds)
  unfolding forget
  releases-Stays = release-Moves staying env calls (λ d w. same w _ refl refl)

  pub closed-Stays : (p : _) → Moves Stays (release_closed env p)
  unfolding forget
  closed-Stays = release_closed-Moves staying env calls (λ d w. same w _ refl refl)

  written :
      {A : Type 0} (f : World → World) (m : Exec World A)
      → ((w : World) → (f w).pending ≡ w.pending)
      → ((w : World) → (f w).issued ≡ w.issued)
      → Moves Stays m
      → Moves Stays (edit f >> (save env >> m))
  written f m p i h =
      bind-Moves staying _ _ (plain f p i) (λ _. bind-Moves staying _ _ saves (λ _. h))

  pub setup-Stays : (change : State → State) → Moves Stays (setup env change)
  unfolding setup
  setup-Stays change =
      guarded _ _ _ (λ w. throw-Moves staying _)
        (λ w. bind-Moves staying _ _ (plain _ (λ v. refl) (λ v. refl)) (λ _. saves))

  pub bootstrap_key-Stays : (k p : String) → Moves Stays (bootstrap_key env k p)
  unfolding bootstrap_key
  bootstrap_key-Stays k p =
      guarded _ _ _ (λ w. throw-Moves staying _) (λ w. written _ _ (λ v. refl) (λ v. refl) (logs _))

  pub enable-Stays : Moves Stays (enable env)
  unfolding enable
  enable-Stays =
      guarded _ _ _ (λ w. throw-Moves staying _) (λ w. written _ _ (λ v. refl) (λ v. refl) (logs _))

  pub recovery_start-Stays : Moves Stays (recovery_start env)
  unfolding recovery_start
  recovery_start-Stays =
      written _ _ (λ v. refl) (λ v. refl)
        (bind-Moves staying _ _ (plain _ (λ v. refl) (λ v. refl)) (λ _. logs _))

  finish_recovery-Stays : (ds : List String) → Moves Stays (finish_recovery env ds)
  unfolding finish_recovery
  finish_recovery-Stays [] =
      written _ _ (λ v. refl) (λ v. refl)
        (bind-Moves staying _ _ (logs _) (λ _. give-Moves staying _))
  finish_recovery-Stays (d ∷ ds) = give-Moves staying _

  pub recovery_complete-Stays : Moves Stays (recovery_complete env)
  unfolding recovery_complete
  recovery_complete-Stays =
      guarded _ _ _ (λ w. give-Moves staying _)
        (λ w. bind-Moves staying _ _ (releases-Stays _) finish_recovery-Stays)

  pub request_valid-Stays :
      (context : Fields) (op : String) (o : _) → Moves Stays (request_valid env context op o)
  unfolding request_valid
  request_valid-Stays context op none = throw-Moves staying _
  request_valid-Stays context op (some a) =
      guarded _ _ _ (λ w. throw-Moves staying _)
        (λ w.
          bind-Moves staying _ _ (new_request-Stays _)
            (λ req. bind-Moves staying _ _ (logs _) (λ _. give-Moves staying _)))

  settle-Stays : (id : String) (j : Judgement) → Moves Stays (settle env id j)
  unfolding settle spend
  settle-Stays id (deny reason) = bind-Moves staying _ _ (logs _) (λ _. give-Moves staying _)
  settle-Stays id expire =
      bind-Moves staying _ _ (edit-Moves _ (popped id))
        (λ _. bind-Moves staying _ _ (logs _) (λ _. give-Moves staying _))
  settle-Stays id (accept req digest) =
      bind-Moves staying _ _
        (edit-Moves _ (λ w. staying.compose w _ _ (popped req.id w) (same _ _ refl refl)))
        (λ _. bind-Moves staying _ _ saves (λ _. give-Moves staying _))

  check_named-Stays :
      (p : Fields) (e k s : String) (o : Option Json) → Moves Stays (check_named env p e k s o)
  unfolding check_named
  check_named-Stays p e k s (some (str id)) = record { along = λ w. (settle-Stays id _).along w }
  check_named-Stays p e k s _ = record { along = λ w. (settle-Stays "" _).along w }

  check_answer-Stays : (p e k : Json) (s : Option String) → Moves Stays (check_answer env p e k s)
  unfolding check_answer
  check_answer-Stays (obj p) (str e) (str k) (some s) = check_named-Stays p e k s _
  check_answer-Stays _ _ _ _ = settle-Stays "" _

  open_each-Stays :
      (until max_bytes : ℕ) (ds : List String) → Moves Stays (open_each env until max_bytes ds)
  unfolding open_each open_one grant_one
  open_each-Stays until max_bytes [] = give-Moves staying _
  open_each-Stays until max_bytes (d ∷ ds) =
      bind-Moves staying _ _
        (guarded _ _ _ (λ w. releases-Stays _)
          (λ w. bind-Moves staying _ _ (plain _ (λ v. refl) (λ v. refl)) (λ _.
            bind-Moves staying _ _ (calls _) (λ _.
              bind-Moves staying _ _ (plain _ (λ v. refl) (λ v. refl))
                (λ _. give-Moves staying _)))))
        (λ _.
          bind-Moves staying _ _ (open_each-Stays until max_bytes ds) (λ _. give-Moves staying _))

  apply_body-Stays : (id key_id : String) (b : Body) → Moves Stays (apply_body env id key_id b)
  unfolding apply_body apply_config conclude
  apply_body-Stays id key_id (egress host dests procs max_bytes ids until) =
      bind-Moves staying _ _ (open_each-Stays until max_bytes dests)
        (λ _. bind-Moves staying _ _ (logs _) (λ _. give-Moves staying _))
  apply_body-Stays id key_id (config context op a) =
      bind-Moves staying _ _ (plain _ (λ v. refl) (λ v. refl)) (λ _.
        bind-Moves staying _ _ (closed-Stays _) (λ failed.
          written _ _ (λ v. refl) (λ v. refl)
            (bind-Moves staying _ _ (logs _) (λ _. give-Moves staying _))))

  act-Stays : (key : String) (c : Checked) → Moves Stays (act env key c)
  unfolding act apply
  act-Stays key (refused reason) = give-Moves staying _
  act-Stays key (accepted req) =
      bind-Moves staying _ _ (apply_body-Stays req.id key req.body) (λ _. give-Moves staying _)

  pub submit-Stays : (p e k : Json) (s : Option String) → Moves Stays (submit env p e k s)
  unfolding submit
  submit-Stays p e k s = bind-Moves staying _ _ (check_answer-Stays p e k s) (act-Stays _)
