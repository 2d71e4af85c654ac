-- ===== src/Privsep/Dispatch/Cuts.antt =====
-- When a request line to src/zee/privsep/daemon.py cuts, and what it cuts.
use zee.Prelude.{
  ◌≡◌, refl, ℕ, String, Bool, true, false, ◌==◌, Option, none, some, arith, if◌then◌else◌,
}
use zee.Prelude.Exec.{
  Exec, Moves, Outcome, returned, raised, Exn, give, bind-Moves, give-Moves, if-Moves,
}
use zee.Prelude.Json.{Json, Fields, obj, str}
use zee.Egress.World.{World, Answer}
use zee.Egress.Payload.{Request}
use zee.Egress.Setup.{bootstrap_key}
use zee.Privsep.World.{Env, Daemon}
use zee.Privsep.Admin.Cuts.{SameCuts, same_cuts, edit-SameCuts, bindings-SameCuts, submit-SameCuts}
use zee.Privsep.Handle.{status}
use zee.Privsep.Requests.{
  challenge, challenge_of, challenge_allowed, challenge_within, make_room, issue, issued,
  rate_limited, submit_request, submit_within, submit_signed, submit_decoded, answered, bootstrap,
  bootstrap_keys, boot,
}
use zee.Privsep.Dispatch.{perform}

if-other :
    {A : Type 0} (b : Bool) (m n : Exec Daemon A)
    → b ≡ false
    → Moves SameCuts n
    → Moves SameCuts (if b then m else n)
if-other true m n h k = absurd (cc h)
if-other false m n h k = k

rate_limited-SameCuts : (uid : ℕ) (op : String) → Moves SameCuts (rate_limited uid op)
unfolding rate_limited
rate_limited-SameCuts uid op = record { along = λ d. ground arith }

issued-SameCuts :
    (uid : ℕ) (r : Outcome Request × World) (d : Daemon) → SameCuts d (issued uid r d).1
unfolding issued
issued-SameCuts uid (returned r, w) d = refl
issued-SameCuts uid (raised Exn.permission_error, w) d = refl
issued-SameCuts uid (raised Exn.value_error, w) d = refl
issued-SameCuts uid (raised e, w) d = refl

boot-SameCuts : (r : Outcome (Unit {0}) × World) (d : Daemon) → SameCuts d (boot r d).1
unfolding boot
boot-SameCuts (returned _, w) d = refl
boot-SameCuts (raised Exn.permission_error, w) d = refl
boot-SameCuts (raised e, w) d = refl

make_room-SameCuts : (uid : ℕ) (d : Daemon) → SameCuts d (make_room uid d)
unfolding make_room
make_room-SameCuts uid d = refl

module _ (env : Env) where
  issue-SameCuts : (uid : ℕ) (op : String) (args : Fields) → Moves SameCuts (issue env uid op args)
  unfolding issue
  issue-SameCuts uid op args = record { along = λ d. issued-SameCuts uid _ d }

  challenge_within-SameCuts :
      (uid : ℕ) (op : String) (args : Fields) (b : Bool)
      → Moves SameCuts (challenge_within env uid op args b)
  unfolding challenge_within
  challenge_within-SameCuts uid op args true = give-Moves same_cuts _
  challenge_within-SameCuts uid op args false =
      bind-Moves same_cuts _ _ (edit-SameCuts (make_room uid) (make_room-SameCuts uid))
        (λ _. issue-SameCuts uid op args)

  challenge_allowed-SameCuts :
      (uid : ℕ) (op : String) (args : Fields) (why : Option String)
      → Moves SameCuts (challenge_allowed env uid op args why)
  unfolding challenge_allowed
  challenge_allowed-SameCuts uid op args (some why) = give-Moves same_cuts _
  challenge_allowed-SameCuts uid op args none =
      bind-Moves same_cuts _ _ (bindings-SameCuts env op) (λ now.
        bind-Moves same_cuts _ _ (rate_limited-SameCuts uid "challenge")
          (λ b. challenge_within-SameCuts uid op _ b))

  challenge_of-SameCuts :
      (uid : ℕ) (op : Option Json) (args : Json) → Moves SameCuts (challenge_of env uid op args)
  unfolding challenge_of give
  challenge_of-SameCuts uid (some (str op)) (obj args) = record {
    along = λ d. (challenge_allowed-SameCuts uid op args _).along d;
  }
  challenge_of-SameCuts uid _ _ = record { along = λ d. refl }

  answered-SameCuts : (a : Answer) → Moves SameCuts (answered a)
  unfolding answered
  answered-SameCuts a = record {
    along = λ d. (if-Moves a.ok _ _ (give-Moves same_cuts _) (give-Moves same_cuts _)).along d;
  }

  submit_decoded-SameCuts :
      (req : Fields) (signature : Option String) → Moves SameCuts (submit_decoded env req signature)
  unfolding submit_decoded
  submit_decoded-SameCuts req none = give-Moves same_cuts _
  submit_decoded-SameCuts req (some s) =
      bind-Moves same_cuts _ _ (submit-SameCuts env _ _ _ _) answered-SameCuts

  submit_signed-SameCuts :
      (req : Fields) (o : Option Json) → Moves SameCuts (submit_signed env req o)
  unfolding submit_signed
  submit_signed-SameCuts req (some (str s)) = submit_decoded-SameCuts req _
  submit_signed-SameCuts req _ = give-Moves same_cuts _

  submit_within-SameCuts : (req : Fields) (b : Bool) → Moves SameCuts (submit_within env req b)
  unfolding submit_within
  submit_within-SameCuts req true = give-Moves same_cuts _
  submit_within-SameCuts req false =
      if-Moves _ _ _ (give-Moves same_cuts _) (submit_signed-SameCuts req _)

  bootstrap_keys-SameCuts : (k p : Option Json) → Moves SameCuts (bootstrap_keys env k p)
  unfolding bootstrap_keys give
  bootstrap_keys-SameCuts (some (str k)) (some (str p)) = record {
    along = λ d. ground (arith, boot-SameCuts (bootstrap_key env.egress k p d.engine) d);
  }
  bootstrap_keys-SameCuts _ _ = record { along = λ d. refl }

  pub status-SameCuts : (uid : ℕ) → Moves SameCuts (status env uid)
  unfolding status
  status-SameCuts uid = record { along = λ d. ground arith }

  -- every operation but `cut`
  pub perform-SameCuts :
      (op : String) (req : Fields) (uid : ℕ)
      → (op == "cut") ≡ false
      → Moves SameCuts (perform env op req uid)
  unfolding perform challenge submit_request bootstrap
  perform-SameCuts op req uid h = if-Moves (op == "status") _ _ (status-SameCuts uid) (
      if-other (op == "cut") _ _ h (
        if-Moves _ _ _ (if-Moves _ _ _ (give-Moves same_cuts _) (challenge_of-SameCuts uid _ _)) (
          if-Moves _ _ _
            (bind-Moves same_cuts _ _ (rate_limited-SameCuts uid "submit")
              (λ b. submit_within-SameCuts req b))
            (if-Moves _ _ _ (give-Moves same_cuts _) (bootstrap_keys-SameCuts _ _)))))
