-- ===== src/Egress/Tick/Batched.antt =====
-- A flow that src/zee/egress/engine.py holds is in the batch, and a batch that is due becomes a request.
use Prim.Native.Nat.{max}
use zee.Prelude.{
  ◌≡◌, ◌≢◌, refl, ◌∙◌, ap, ◌≤◌, ◌+◌, ℕ, Bool, true, false, ◌&&◌, Option, none, some, arith, leb,
  eq_refl, Option-cases, inl, inr, if◌then◌else◌,
}
use zee.Prelude.Dict.{lookup, put, is_dict, lookup-put, is_dict-put}
use zee.Prelude.Exec.{
  Exec, Outcome, Order, Moves, returned, raised, give, ◌>>=◌, resume, bind-Moves, give-Moves,
}
use zee.Egress.Payload.{Body, Request}
use zee.Egress.World.{
  World, Env, Flow, Verdict, Action, Batch, Call, egress_shape, edit, log, enforce,
}
use zee.Egress.Release.Moves.{edit-Moves}
use zee.Egress.Submit.{new_request, response_ttl}
use zee.Egress.Watch.{
  classify, observe, judged, switched, decide_flow, hold_flow, note_flow, drop_grant, close_dest,
  batched, batch_or_new, seen, covers_flow, tainted, prune, bundle_window,
}
use zee.Egress.Moves.{guarded}
use zee.Egress.Tick.{tick, seal, seal_batch, issue, request_body, rested}
use zee.Egress.Tick.Asked.{pending-in_time, tick-lookup}

-- the request that is issued next
abbrev pub next_request : Env → Body → World → Request
next_request env body w = record {
  id = env.token w.issued;
  nonce = env.nonce w.issued;
  exp = w.now + response_ttl;
  body = body;
  code = env.random_code w.issued;
}

abbrev pub is_due : Batch → World → Bool
is_due b w = leb (b.opened + bundle_window) w.now && rested w.now w.last_batch

seal-pending :
    (env : Env) (w : World) (b : Batch)
    → w.batch ≡ some b
    → is_due b w ≡ true
    → let req = next_request env (request_body env w.now b) w in
      ((seal env w).1.pending ≡ put req.id req w.pending) × ((seal env w).1.now ≡ w.now)
unfolding seal seal_batch issue new_request log give edit ◌>>=◌ resume
seal-pending env w b h due = rw (h, due) (refl, refl)

-- A batch that is due becomes a request, and the request is waiting after the tick.
pub tick-request :
    (env : Env) (w : World) (b : Batch)
    → w.batch ≡ some b
    → is_due b w ≡ true
    → is_dict w.pending ≡ true
    → lookup (env.token w.issued) (tick env w).1.pending
      ≡ some (next_request env (request_body env w.now b) w)
tick-request env w b h due d =
    let req = next_request env (request_body env w.now b) w in
    let (pending, now) = seal-pending env w b h due in
    let found : lookup req.id (put req.id req w.pending) ≡ some req =
      ground (arith, lookup-put req.id req.id req w.pending, eq_refl req.id) in
    let timely =
      pending-in_time req.id w.now req (put req.id req w.pending)
        (is_dict-put req.id req w.pending d) found (omega arith) in
    tick-lookup env req.id w (rw (pending, now) timely) ∙ (ap (lookup req.id) pending ∙ found)

-- What closing a destination leaves as it was.
pub record Steady (w v : World) : Type 0 where
  pub now : v.now ≡ w.now
  pub pending : v.pending ≡ w.pending
  pub last_batch : v.last_batch ≡ w.last_batch
  pub batch : v.batch ≡ w.batch

abbrev pub as_was :
    {w v : World}
    → v.now ≡ w.now
    → v.pending ≡ w.pending
    → v.last_batch ≡ w.last_batch
    → v.batch ≡ w.batch
    → Steady w v
as_was n p l b = record { now = n; pending = p; last_batch = l; batch = b }

pub steady : Order Steady
steady = record {
  stays = λ w. as_was refl refl refl refl;
  compose = λ u v w p q.
      as_was (q.now ∙ p.now) (q.pending ∙ p.pending) (q.last_batch ∙ p.last_batch)
        (q.batch ∙ p.batch);
}

module _ (env : Env) where
  enforce-Steady : (c : Call) → Moves Steady (enforce env c)
  unfolding enforce
  enforce-Steady c = record {
    along = λ w. as_was (ground arith) (ground arith) (ground arith) (ground arith);
  }

  pub close_dest-Steady : (f : Flow) → Moves Steady (close_dest env f)
  unfolding close_dest log
  close_dest-Steady f =
      guarded _ _ _ (λ w. give-Moves steady _)
        (λ w. bind-Moves steady _ _ (edit-Moves _ (λ v. as_was refl refl refl refl)) (λ _.
          bind-Moves steady _ _ (enforce-Steady _) (λ _.
            bind-Moves steady _ _ (edit-Moves _ (λ v. as_was refl refl refl refl))
              (λ _. record { along = λ v. as_was refl refl refl refl }))))

-- What a world looks like in which `f` was just held: it stands in a batch that is not older than
-- the one before.
pub record IsBatched (f : Flow) (w v : World) : Type 0 where
  pub now : v.now ≡ w.now
  pub pending : v.pending ≡ w.pending
  pub last_batch : v.last_batch ≡ w.last_batch
  pub batch : Batch
  pub is_batch : v.batch ≡ some batch
  pub opened : batch.opened ≡ (batch_or_new w.now w.batch).opened
  pub bytes : ℕ
  pub listed : lookup f.dest batch.dests ≡ some bytes
  pub enough : f.bytes_out ≤ bytes

held-IsBatched :
    (f : Flow) (w : World) (r : Outcome (Unit {0}) × World) (a : Verdict)
    → Steady w r.1
    → (resume (λ _. drop_grant f) (resume (λ _. note_flow f) r)).0 ≡ returned a
    → IsBatched f w (resume (λ _. drop_grant f) (resume (λ _. note_flow f) r)).1
unfolding resume edit give ◌>>=◌ batched note_flow drop_grant
held-IsBatched f w (raised e, v) a s h = absurd (cc h)
held-IsBatched f w (returned _, v) a s h = record {
  now = s.now;
  pending = s.pending;
  last_batch = s.last_batch;
  batch = batched f v;
  is_batch = refl;
  opened = ground (arith, s.now, s.batch);
  bytes = max (seen (lookup f.dest (batch_or_new v.now v.batch).dests)) f.bytes_out;
  listed = ground (
    arith,
    eq_refl f.dest,
    lookup-put f.dest f.dest
        (max (seen (lookup f.dest (batch_or_new v.now v.batch).dests)) f.bytes_out)
        (batch_or_new v.now v.batch).dests,
  );
  enough = omega arith;
}

if-IsBatched :
    (f : Flow) (w : World) (a : Verdict) (b : Bool) (m n : Exec World Verdict)
    → ((m w).0 ≡ returned a → IsBatched f w (m w).1)
    → ((n w).0 ≡ returned a → IsBatched f w (n w).1)
    → ((if b then m else n) w).0 ≡ returned a
    → IsBatched f w ((if b then m else n) w).1
if-IsBatched f w a true m n hm hn = hm
if-IsBatched f w a false m n hm hn = hn

-- a verdict other than `hold`
other-IsBatched :
    (f : Flow) (w v : World) (a b : Verdict)
    → b.action ≢ Action.hold
    → a.action ≡ Action.hold
    → ◌≡◌ {A = Outcome Verdict} (returned b) (returned a)
    → IsBatched f w v
other-IsBatched f w v a b n k h = absurd (ground (arith, n))

switched-IsBatched :
    (env : Env) (f : Flow) (w : World) (a : Verdict)
    → (switched env f w).0 ≡ returned a
    → a.action ≡ Action.hold
    → IsBatched f w (switched env f w).1
unfolding switched decide_flow hold_flow give edit ◌>>=◌ resume
switched-IsBatched env f w a h k =
    if-IsBatched f w a w.state.enabled _ _
      (if-IsBatched f w a (covers_flow w f (lookup f.dest w.grants)) _ _
        (other-IsBatched f w _ a _ (λ e. cc e) k)
        (held-IsBatched f w (close_dest env f w) a ((close_dest-Steady env f).along w)))
      (other-IsBatched f w _ a _ (λ e. cc e) k) h

-- A shaped flow that is held is in the batch.
pub observe-IsBatched :
    (env : Env) (f : Flow) (w : World) (a : Verdict)
    → (observe env f w).0 ≡ returned a
    → a.action ≡ Action.hold
    → IsBatched f w (observe env f w).1
unfolding observe judged log prune edit give ◌>>=◌ resume
observe-IsBatched env f w a h k = elim (Option-cases (classify env f w)) [
  | inl e ↦ absurd (ground (arith, e))
  | inr (reason, e) ↦
      let v = (log (egress_shape f.proc f.dest f.bytes_out reason (tainted w)) (prune w)).1 in
      let b = switched-IsBatched env f v a (rw (e) at h) k in
      rw (e) (record {
        now = b.now;
        pending = b.pending;
        last_batch = b.last_batch;
        batch = b.batch;
        is_batch = b.is_batch;
        opened = b.opened;
        bytes = b.bytes;
        listed = b.listed;
        enough = b.enough;
      })
]

abbrev pub not_later : Option ℕ → ℕ → Bool
not_later none now = true
not_later (some t) now = leb t now

-- no batch and no request of the future, and the requests are a dict
abbrev pub timely : World → Bool
timely w =
    is_dict w.pending
    && not_later w.last_batch w.now
    && leb (batch_or_new w.now w.batch).opened w.now
