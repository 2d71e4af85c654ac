-- ===== src/Egress/Tick.antt =====
-- src/zee/egress/engine.py, `tick`: a batch becomes one request, what ran out is closed, and what may
-- be open is released.
pub mod Asked
pub mod Batched
pub mod Liveness
use Prim.Native.Nat.{max}
use zee.Prelude.{
  ℕ, ◌+◌, String, Bool, true, false, not, ◌&&◌, Option, none, some, List, [], ◌∷◌, ltb, leb,
  if◌then◌else◌,
}
use zee.Prelude.Dict.{Dict, pop, keys, add}
use zee.Prelude.Sort.{sorted_set}
use zee.Prelude.Exec.{Exec, give, attempt, ◌>>=◌, ◌>>◌, resume}
use zee.Egress.Payload.{Body, Request, egress}
use zee.Egress.World.{
  World, Env, Grant, Batch, holds, edit, log, enforce, requested, timed_out, recovery_pending,
}
use zee.Egress.Release.{release_closed, allow_listed}
use zee.Egress.Setup.{recovery_wait}
use zee.Egress.Submit.{new_request}
use zee.Egress.Watch.{
  bundle_window, min_batch_interval, grant_ttl, bytes_threshold, recovery_notice_every,
}

abbrev pub most : Dict ℕ → ℕ
most [] = bytes_threshold
most ((_, n) ∷ d) = max n (most d)

abbrev pub rested : ℕ → Option ℕ → Bool
rested now none = true
rested now (some t) = leb (t + min_batch_interval) now

-- the requests that nobody answered in time
unfoldable pub expire_one : String → Request → Exec World (Unit {0})
expire_one rid r w =
    (if ltb r.exp w.now
        then (do edit (λ v. record v { pending = pop rid v.pending }); log (timed_out rid))
        else give tt)
      w

-- the requests that nobody answered in time
unfoldable pub expire_each : Dict Request → Exec World (Unit {0})
expire_each [] = give tt
expire_each ((rid, r) ∷ rs) = do expire_one rid r; expire_each rs

unfoldable pub remind_of : Option ℕ → Exec World (Unit {0})
remind_of none w = give tt w
remind_of (some t) w =
    (if leb (w.last_recovery_notice + recovery_notice_every) w.now
        then (do
          edit (λ v. record v { last_recovery_notice = v.now })
          log (recovery_pending (t + recovery_wait)))
        else give tt)
      w

unfoldable pub remind : Exec World (Unit {0})
remind w = remind_of w.state.recovery_start w

module _ (env : Env) where
  unfoldable pub request_body : ℕ → Batch → Body
  request_body now b =
      egress env.hostname (sorted_set (keys b.dests)) (sorted_set b.procs) (most b.dests)
        (sorted_set b.data_ids) (now + grant_ttl)

  unfoldable pub issue : Body → Exec World (Unit {0})
  issue body = do
    edit (λ v. record v { batch = none; last_batch = some v.now })
    req ← new_request env body
    log (requested req)

  unfoldable pub seal_batch : Option Batch → Exec World (Unit {0})
  seal_batch none w = give tt w
  seal_batch (some b) w =
      (if leb (b.opened + bundle_window) w.now && rested w.now w.last_batch
          then issue (request_body w.now b)
          else give tt)
        w

  -- the batch as one request
  unfoldable pub seal : Exec World (Unit {0})
  seal w = seal_batch w.batch w

  -- a destination that is allow-listed, or any where approval is off
  unfoldable pub may_reopen : World → String → Bool
  may_reopen w d = if w.state.enabled then allow_listed env w d else true

  abbrev runs_out : World → String → Grant → Bool
  runs_out w d g = w.state.enabled && leb g.until w.now && not (allow_listed env w d)

  unfoldable pub close_one : String → Grant → Exec World (Unit {0})
  close_one d g w =
      (if runs_out w d g
          then (do
            done ← attempt (enforce env (holds d))
            edit (λ v.
                if done then record v { grants = pop d v.grants; held = add d v.held } else v))
          else give tt)
        w

  unfoldable pub close_each : Dict Grant → Exec World (Unit {0})
  close_each [] = give tt
  close_each ((d, g) ∷ gs) = do close_one d g; close_each gs

  -- `tick`
  unfoldable pub tick : Exec World (Unit {0})
  tick = do
    seal
    (λ w. expire_each w.pending w)
    release_closed env may_reopen
    (λ w. close_each w.grants w)
    remind
