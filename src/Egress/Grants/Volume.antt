-- ===== src/Egress/Grants/Volume.antt =====
-- What src/zee/egress/engine.py grants was signed: each call, and the grants that it leaves.
use zee.Prelude.{◌≡◌, refl, ◌⊎◌, inl, inr, String, true, false, Option, Dict.lookup}
use zee.Prelude.Json.{Json}
use zee.Egress.Payload.{Request}
use zee.Egress.World.{World, Env}
use zee.Egress.Submit.Approved.{Accepted}
use zee.Egress.Step.{
  Method, step, is_submit, allows_at_setup, protects_at_setup, bootstraps, acks_single_key, enables,
  requests, submits, starts_recovery, completes_recovery, touches, observes, ticks, waits,
}
use zee.Egress.Grants.{
  at_most, Shrinks, shrinking, setup-Shrinks, bootstrap_key-Shrinks, enable-Shrinks,
  recovery_start-Shrinks, recovery_complete-Shrinks, Shrinks-prims,
}
use zee.Egress.Moves.{request_valid-Moves, observe-Moves, touch-Moves}
use zee.Egress.Moves.Ticks.{tick-Moves}
use zee.Egress.Grants.Opened.{offered}
use zee.Egress.Grants.Submitted.{submit-Warranted}

-- every method but `submit`
pub step-Shrinks :
    (env : Env) (m : Method) (w : World) → is_submit m ≡ false → Shrinks w (step env m w)
unfolding step zee.Egress.Setup.setup_allow zee.Egress.Setup.setup_protect
    zee.Egress.Setup.ack_single_key zee.Egress.Submit.request_config
step-Shrinks env (allows_at_setup dest) w h = (setup-Shrinks env _).along w
step-Shrinks env (protects_at_setup data_id) w h = (setup-Shrinks env _).along w
step-Shrinks env (bootstraps key_id public_key) w h =
    (bootstrap_key-Shrinks env key_id public_key).along w
step-Shrinks env acks_single_key w h = (setup-Shrinks env _).along w
step-Shrinks env enables w h = (enable-Shrinks env).along w
step-Shrinks env (requests op args) w h =
    (request_valid-Moves shrinking env (Shrinks-prims env) _ op _).along w
step-Shrinks env (submits p e k s) w h = absurd (cc h)
step-Shrinks env starts_recovery w h = (recovery_start-Shrinks env).along w
step-Shrinks env completes_recovery w h = (recovery_complete-Shrinks env).along w
step-Shrinks env (touches data_id) w h = touch-Moves shrinking env (Shrinks-prims env) data_id w
step-Shrinks env (observes f) w h = (observe-Moves shrinking env (Shrinks-prims env) f).along w
step-Shrinks env ticks w h = (tick-Moves shrinking env (Shrinks-prims env)).along w
step-Shrinks env (waits n) w h = shrinking.stays w

-- An accepted call of `submit` that asked for the grant that a destination has in `v`.
pub record IsSigned (env : Env) (w v : World) (m : Method) (d : String) : Type 0 where
  pub payload : Json
  pub entered : Json
  pub key_id : Json
  pub signature : Option String
  pub is_call : m ≡ submits payload entered key_id signature
  pub request : Request
  pub accepted : Accepted env w payload entered key_id signature request
  pub within : at_most (lookup d v.grants) (offered request.body d) ≡ true

-- A call leaves at each destination no grant, or one with the deadline that it had and no more volume,
-- or one within what a pending request offers there; the last only where the call is a `submit` whose
-- answer passed every check: the request is pending and in time, was shown as it is, a registered key
-- signed it with the code of the host, and the signature is new.
pub step-grants :
    (env : Env) (m : Method) (w : World) (d : String)
    → (at_most (lookup d (step env m w).grants) (lookup d w.grants) ≡ true)
      ⊎ IsSigned env w (step env m w) m d
unfolding step
step-grants env (submits payload entered key_id signature) w d =
    elim (submit-Warranted env w payload entered key_id signature d) [
      | inl h ↦ inl h
      | inr (req, h, k) ↦ inr (record {
        payload = payload;
        entered = entered;
        key_id = key_id;
        signature = signature;
        is_call = refl;
        request = req;
        accepted = h;
        within = k;
      })
    ]
step-grants env m w d = inl (step-Shrinks env m w refl d)
