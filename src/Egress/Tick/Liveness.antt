-- ===== src/Egress/Tick/Liveness.antt =====
-- A flow that src/zee/egress/engine.py holds is asked about, whatever else it sees before.
use Prim.Native.Nat.{max}
use zee.Prelude.{
  ◌≡◌, refl, ◌∙◌, ◌≤◌, ◌+◌, ℕ, String, Bool, true, false, Option, none, some, List, [], ◌∷◌, arith,
  all, ◌==◌, Bool-cases, inl, inr, eq_iff,
}
use zee.Prelude.Dict.{Dict, lookup, put, is_dict, lookup-put}
use zee.Prelude.Exec.{Order, Moves, returned, bind-Moves, give-Moves}
use zee.Egress.Payload.{Request}
use zee.Egress.World.{World, Env, Flow, Verdict, Action, Batch, Entry, edit, log}
use zee.Egress.Release.Moves.{edit-Moves}
use zee.Egress.Watch.{
  observe, judged, switched, decide_flow, hold_flow, note_flow, drop_grant, batched, batch_or_new,
  seen, meter, look, prune, note_protected_touch,
}
use zee.Egress.Step.{Method, run, step, observes, waits, touches}
use zee.Egress.Moves.{guarded}
use zee.Egress.Tick.{tick, request_body}
use zee.Egress.Tick.Asked.{asks, request_body-asks}
use zee.Egress.Tick.Batched.{
  Steady, as_was, close_dest-Steady, observe-IsBatched, next_request, tick-request, timely,
  not_later,
}

-- neither a tick nor an operation of the operator
abbrev pub is_quiet : Method → Bool
is_quiet (observes _) = true
is_quiet (touches _) = true
is_quiet (waits _) = true
is_quiet _ = false

-- From `t` on a batch waits that has `n` bytes or more for `d`, and nothing of it is of the future.
pub record IsWaiting (d : String) (n t : ℕ) (w : World) : Type 0 where
  pub batch : Batch
  pub is_batch : w.batch ≡ some batch
  pub bytes : ℕ
  pub listed : lookup d batch.dests ≡ some bytes
  pub enough : n ≤ bytes
  pub opened : batch.opened ≤ t
  pub rested : not_later w.last_batch t ≡ true
  pub dict : is_dict w.pending ≡ true
  pub since : t ≤ w.now

grown :
    (d : String) (n : ℕ) (k : String) (m bytes : ℕ) (dests : Dict ℕ)
    → lookup d dests ≡ some bytes
    → n ≤ bytes
    → (more : ℕ) × (lookup d (put k (max (seen (lookup k dests)) m) dests) ≡ some more) × (n ≤ more)
grown d n k m bytes dests h e = elim (Bool-cases (k == d)) [
  | inl same ↦
      let eq : k ≡ d = ground (arith, same, eq_iff k d) in
      (
        max (seen (lookup k dests)) m,
        ground (arith, lookup-put d k (max (seen (lookup k dests)) m) dests, eq, eq_iff d k),
        rw (eq, h) (omega (arith, e)),
      )
  | inr other ↦ (
    bytes,
    ground (arith, lookup-put d k (max (seen (lookup k dests)) m) dests, eq_iff d k, eq_iff k d),
    e,
  )
]

module _ (d : String) (n t : ℕ) where
  Keeps : World → World → Type 0
  Keeps w v = IsWaiting d n t w → IsWaiting d n t v

  keeping : Order Keeps
  unfolding Keeps
  keeping = record { stays = λ w h. h; compose = λ u v w p q h. q (p h) }

  steady-Keeps : (w v : World) → Steady w v → Keeps w v
  unfolding Keeps
  steady-Keeps w v s h = record {
    batch = h.batch;
    is_batch = s.batch ∙ h.is_batch;
    bytes = h.bytes;
    listed = h.listed;
    enough = h.enough;
    opened = h.opened;
    rested = ground (arith, s.last_batch, h.rested);
    dict = ground (arith, s.pending, h.dict);
    since = ground (arith, s.now, h.since);
  }

  steady_edit : (f : World → World) → ((w : World) → Steady w (f w)) → Moves Keeps (edit f)
  steady_edit f s = edit-Moves f (λ w. steady-Keeps w (f w) (s w))

  -- a flow more in the batch
  noted : (f : Flow) (w : World) → Keeps w (record w { batch = some (batched f w) })
  unfolding Keeps batched
  noted f w h =
      let b = batch_or_new w.now w.batch in
      let same : b ≡ h.batch = rw (h.is_batch) refl in
      let before : lookup d b.dests ≡ some h.bytes = rw (same) h.listed in
      let (bytes, listed, enough) = grown d n f.dest f.bytes_out h.bytes b.dests before h.enough in
      record {
        batch = batched f w;
        is_batch = refl;
        bytes = bytes;
        listed = listed;
        enough = enough;
        opened = rw (same) h.opened;
        rested = h.rested;
        dict = h.dict;
        since = h.since;
      }

  note_flow-Keeps : (f : Flow) → Moves Keeps (note_flow f)
  unfolding note_flow
  note_flow-Keeps f = edit-Moves _ (noted f)

  log-Keeps : (e : Entry) → Moves Keeps (log e)
  unfolding log
  log-Keeps e = record { along = λ w. steady-Keeps w _ (as_was refl refl refl refl) }

  module _ (env : Env) where
    hold_flow-Keeps : (f : Flow) → Moves Keeps (hold_flow env f)
    unfolding hold_flow
    hold_flow-Keeps f =
        bind-Moves keeping _ _
          (record { along = λ w. steady-Keeps w _ ((close_dest-Steady env f).along w) })
          (λ _. note_flow-Keeps f)

    drop_grant-Keeps : (f : Flow) → Moves Keeps (drop_grant f)
    unfolding drop_grant
    drop_grant-Keeps f =
        bind-Moves keeping _ _ (steady_edit _ (λ v. as_was refl refl refl refl))
          (λ _. give-Moves keeping _)

    decide_flow-Keeps : (f : Flow) → Moves Keeps (decide_flow env f)
    unfolding decide_flow meter
    decide_flow-Keeps f =
        guarded _ _ _
          (λ w.
            bind-Moves keeping _ _
              (steady_edit _
                (λ v. as_was (ground arith) (ground arith) (ground arith) (ground arith)))
              (λ _. give-Moves keeping _))
          (λ w. bind-Moves keeping _ _ (hold_flow-Keeps f) (λ _. drop_grant-Keeps f))

    switched-Keeps : (f : Flow) → Moves Keeps (switched env f)
    unfolding switched
    switched-Keeps f = guarded _ _ _ (λ w. decide_flow-Keeps f) (λ w. give-Moves keeping _)

    judged-Keeps :
        (f : Flow) (ids : List String) (o : Option String) → Moves Keeps (judged env f ids o)
    unfolding judged look prune
    judged-Keeps f ids none =
        bind-Moves keeping _ _
          (steady_edit _ (λ v. as_was (ground arith) (ground arith) (ground arith) (ground arith)))
          (λ _. give-Moves keeping _)
    judged-Keeps f ids (some reason) =
        bind-Moves keeping _ _ (steady_edit _ (λ v. as_was refl refl refl refl))
          (λ _. bind-Moves keeping _ _ (log-Keeps _) (λ _. switched-Keeps f))

    step-IsWaiting :
        (m : Method) (w : World)
        → is_quiet m ≡ true
        → IsWaiting d n t w
        → IsWaiting d n t (step env m w)
    unfolding step Keeps observe note_protected_touch
    step-IsWaiting (observes f) w q = (judged-Keeps f _ _).along w
    step-IsWaiting (touches data_id) w q =
        steady-Keeps w _ (as_was (ground arith) (ground arith) (ground arith) (ground arith))
    step-IsWaiting (waits s) w q = λ h. record {
      batch = h.batch;
      is_batch = h.is_batch;
      bytes = h.bytes;
      listed = h.listed;
      enough = h.enough;
      opened = h.opened;
      rested = h.rested;
      dict = h.dict;
      since = omega (arith, h.since);
    }
    step-IsWaiting _ w q = absurd (cc q)

    run-IsWaiting :
        (ms : List Method) (w : World)
        → all is_quiet ms ≡ true
        → IsWaiting d n t w
        → IsWaiting d n t (run env ms w)
    unfolding run
    run-IsWaiting [] w q h = h
    run-IsWaiting (m ∷ ms) w q h =
        run-IsWaiting ms (step env m w) (ground (arith, q))
          (step-IsWaiting m w (ground (arith, q)) h)

-- Whoever is held is asked about, whatever other flows are observed, protected data touched and time
-- passed before the next tick: a tick that comes a minute or more after these has a request waiting that
-- names the destination of the flow and at least its volume.
pub held-asked :
    (env : Env) (f : Flow) (w : World) (a : Verdict) (ms : List Method) (s : ℕ)
    → (observe env f w).0 ≡ returned a
    → a.action ≡ Action.hold
    → timely w ≡ true
    → all is_quiet ms ≡ true
    → 60 ≤ s
    → let v = run env ms (observe env f w).1 in
      (req : Request) × (lookup req.id (tick env (record v { now = v.now + s })).1.pending
        ≡ some req)
      × (asks req.body f.dest f.bytes_out ≡ true)
held-asked env f w a ms s h k y q m =
    let b = observe-IsBatched env f w a h k in
    let first : IsWaiting f.dest f.bytes_out w.now (observe env f w).1 = record {
      batch = b.batch;
      is_batch = b.is_batch;
      bytes = b.bytes;
      listed = b.listed;
      enough = b.enough;
      opened = ground (arith, b.opened, y);
      rested = ground (arith, b.last_batch, y);
      dict = ground (arith, b.pending, y);
      since = ground (arith, b.now);
    } in
    let i = run-IsWaiting f.dest f.bytes_out w.now env ms (observe env f w).1 q first in
    let u = run env ms (observe env f w).1 in
    let v : World = record u { now = u.now + s } in
    let req = next_request env (request_body env v.now i.batch) v in
    (
      req,
      tick-request env v i.batch i.is_batch (ground (arith, i.opened, i.rested, i.since, m)) i.dict,
      ground (arith, request_body-asks env v.now i.batch f.dest i.bytes i.listed, i.enough),
    )
