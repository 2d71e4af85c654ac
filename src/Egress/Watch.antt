-- ===== src/Egress/Watch.antt =====
-- src/zee/egress/engine.py: the judgement of a flow, the hold, and the periodic `tick`.
pub mod Reports
pub mod Detection
use Prim.Native.Nat.{max}
use zee.Prelude.{
  ℕ, ◌+◌, ◌-◌, ◌*◌, String, Bool, true, false, not, ◌&&◌, ◌||◌, Option, none, some, List, [], ◌∷◌,
  ◌++◌, map, keep, contains, is_some, ltb, leb, if◌then◌else◌,
}
use zee.Prelude.Dict.{Dict, lookup, put, pop, keys, keep_values, add, discard}
use zee.Prelude.Sort.{sorted_set}
use zee.Prelude.Exec.{Exec, give, attempt, ◌>>=◌, ◌>>◌, resume}
use zee.Egress.State.{State}
use zee.Egress.Payload.{Request, egress}
use zee.Egress.World.{
  World, Env, Flow, Verdict, Grant, Batch, Action, holds, edit, log, enforce, egress_shape,
  held_flow, requested, timed_out, recovery_pending,
}
use zee.Egress.Release.{closed, release_closed, allow_listed}
use zee.Egress.Setup.{recovery_wait, is_empty}
use zee.Egress.Submit.{new_request}

abbrev pub bundle_window : ℕ
bundle_window = 20

abbrev pub min_batch_interval : ℕ
min_batch_interval = 60

abbrev pub grant_ttl : ℕ
grant_ttl = 900

abbrev pub bytes_threshold : ℕ
bytes_threshold = 1000000

abbrev pub taint_window : ℕ
taint_window = 600

abbrev pub recovery_notice_every : ℕ
recovery_notice_every = 6 * 3600

unfoldable pub note_protected_touch : String → World → World
note_protected_touch data_id w =
    if contains data_id w.state.protect
    then record w { taint = put data_id (w.now + taint_window) w.taint }
    else w

-- `_tainted`: it drops what has run out, and gives the rest
unfoldable pub prune : World → World
prune w = record w { taint = keep_values (λ t. ltb w.now t) w.taint }

unfoldable pub tainted : World → List String
tainted w = sorted_set (keys (prune w).taint)

abbrev pub batch_or_new : ℕ → Option Batch → Batch
batch_or_new now none = record { opened = now; dests = []; procs = []; data_ids = [] }
batch_or_new now (some b) = b

abbrev pub seen : Option ℕ → ℕ
seen none = 0
seen (some n) = n

-- the batch with one more flow in it
unfoldable pub batched : Flow → World → Batch
batched f w =
    let b = batch_or_new w.now w.batch in
    record b {
      dests = put f.dest (max (seen (lookup f.dest b.dests)) f.bytes_out) b.dests;
      procs = add f.proc b.procs;
      data_ids = b.data_ids ++ tainted w;
    }

unfoldable pub covers_flow : World → Flow → Option Grant → Bool
covers_flow w f none = false
covers_flow w f (some g) = ltb w.now g.until && leb f.bytes_out g.remaining

unfoldable pub meter : Flow → Option Grant → World → World
meter f none w = w
meter f (some g) w = record w {
  grants = put f.dest (record g { remaining = g.remaining - f.bytes_out }) w.grants;
}

unfoldable pub note_flow : Flow → Exec World (Unit {0})
note_flow f = edit (λ w. record w { batch = some (batched f w) })

-- a grant that does not cover the flow goes, once its destination is held
unfoldable pub drop_grant : Flow → Exec World Verdict
drop_grant f = do
  edit (λ v. record v { grants = pop f.dest v.grants })
  give (record { action = Action.hold; reason = "no_valid_approval" })

module _ (env : Env) where
  -- `_classify`
  unfoldable pub classify : Flow → World → Option String
  classify f w =
      if allow_listed env w f.dest
      then none
      else if env.server_form
      then some "server_not_allowlisted"
      else if not (is_empty (tainted w))
      then some "protected_touch_then_new_destination"
      else if leb bytes_threshold f.bytes_out
      then some "large_unlisted_send"
      else if is_some (lookup f.dest w.grants)
      then some "approved_destination"
      else if contains f.dest w.held || contains f.dest w.unheld
      then some "held_destination"
      else none

  -- `_hold` on a destination that is not held yet
  unfoldable pub close_dest : Flow → Exec World (Unit {0})
  close_dest f w =
      (if contains f.dest w.held then give tt else do
        edit (λ v. record v { unheld = add f.dest v.unheld })
        enforce env (holds f.dest)
        edit (λ v. record v { unheld = discard f.dest v.unheld; held = add f.dest v.held })
        log (held_flow f.dest f.proc))
        w

  -- `_hold`
  unfoldable pub hold_flow : Flow → Exec World (Unit {0})
  hold_flow f = do close_dest f; note_flow f

  -- `observe` while approval is on, on a flow that was reported
  unfoldable pub decide_flow : Flow → Exec World Verdict
  decide_flow f w =
      (if covers_flow w f (lookup f.dest w.grants)
          then (do
            edit (λ v. meter f (lookup f.dest v.grants) v)
            give (record { action = Action.pass; reason = "approved" }))
          else do hold_flow f; drop_grant f)
        w

  -- the pruning that `_classify` comes to
  unfoldable pub look : Flow → World → World
  look f w = if allow_listed env w f.dest || env.server_form then w else prune w

  -- the rest of `observe` for a flow that was reported
  unfoldable pub switched : Flow → Exec World Verdict
  switched f w =
      (if w.state.enabled
          then decide_flow f
          else give (record { action = Action.notify; reason = "approval_off" }))
        w

  unfoldable pub judged : Flow → List String → Option String → Exec World Verdict
  judged f ids none = do edit (look f); give (record { action = Action.pass; reason = "ok" })
  judged f ids (some reason) = do
    edit prune
    log (egress_shape f.proc f.dest f.bytes_out reason ids)
    switched f

  -- `observe`: a flow is reported before the switch is read
  unfoldable pub observe : Flow → Exec World Verdict
  observe f w = judged f (tainted w) (classify f w) w
