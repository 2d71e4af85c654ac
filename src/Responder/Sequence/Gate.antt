-- ===== src/Responder/Sequence/Gate.antt =====
-- When src/zee/responder/sequence.py cuts, refuses, rehearses or fails: the gate of step 4.
use zee.Prelude.{
  String, Bool, true, false, not, ◌&&◌, ◌||◌, ◌≡◌, ◌∙◌, ap, refl, Option, List, ◌==◌, arith, any,
  any-append, Bool-cases, Option-cases, inl, inr, is_some, truthy,
}
use zee.Prelude.Time.{Instant}
use zee.Errors.{Result, ok, err, invalid_confidence_for_contain}
use zee.Config.{AssetProfile}
use zee.Events.{TrapEvent}
use zee.Policy.{resolve, is_contain-resolve}
use zee.Responder.Blocker.{refusal}
use zee.Responder.Sequence.{
  handle, cut_step, gated_cut, checked_cut, rehearse, real_cut, make_cut, announce,
  dispatch_webhook, request, finish,
}
use zee.Responder.Sequence.World.{
  Env, World, Effect, log_event, privsep_cut, cut_network, ResponderResult, CutStep, ◌>>=◌, emit,
  pure, raise, read_clock, notify, network_cut, current_ledger, then_run,
}

abbrev pub is_cut : Effect → Bool
is_cut (privsep_cut _) = true
is_cut (cut_network _ _) = true
is_cut _ = false

-- Some effect of the list is a cut.
abbrev pub attempted : List Effect → Bool
attempted = any is_cut

module _ (event : TrapEvent) (asset : AssetProfile) where
  -- The asset asks for containment, and the touch is a change of high confidence.
  abbrev pub is_armed : Bool
  is_armed =
      asset.response_mode == "auto" && event.confidence == "high" && event.op_class == "change"

  -- The event names the asset by its non-empty id.
  abbrev pub is_about : Bool
  is_about = truthy event.asset_id && event.asset_id == asset.id

  -- What the flags that step 4 returns say; its only error is Z403, for a low confidence.
  abbrev pub Flags : Bool → (executed failed would : Bool) (skipped : Option String) → Type 0
  Flags dry executed failed would skipped =
      ((executed || failed) ≡ (is_armed && not dry && is_about))
      × ((executed && failed) ≡ false)
      × (would ≡ (is_armed && dry))
      × (is_some skipped ≡ (
          asset.response_mode == "auto"
          && (not (event.op_class == "change") || not dry && not is_about)))
      × ((asset.response_mode == "auto" && not (event.confidence == "high")) ≡ false)

  abbrev pub StepOutcome : Bool → Result CutStep → Type 0
  StepOutcome dry (ok s) = Flags dry s.executed s.failed s.would s.skipped_reason
  StepOutcome dry (err e) =
      (e ≡ invalid_confidence_for_contain)
      × ((asset.response_mode == "auto" && not (event.confidence == "high")) ≡ true)

  refusal-is_about :
      event.confidence == "high" ≡ true
      → event.op_class == "change" ≡ true
      → asset.response_mode == "auto" ≡ true
      → is_some (
          refusal
            (record {
              asset_id = event.asset_id;
              op_class = event.op_class;
              confidence = event.confidence;
            })
            asset
            false)
        ≡ not is_about
  unfolding refusal
  refusal-is_about h c a = ground (arith, is_contain-resolve asset)

module _ (env : Env) (event : TrapEvent) (asset : AssetProfile) (dry : Bool) (w : World) where
  abbrev Attempts : Result CutStep × World → Bool → Type 0
  Attempts r b = attempted r.1.effects ≡ (attempted w.effects || b)

  rehearse-facts :
      (m : Option String)
      → is_armed event asset ≡ true
      → StepOutcome event asset true (rehearse env event asset dry m w).0
        × Attempts (rehearse env event asset dry m w) false
  unfolding rehearse ◌>>=◌ read_clock notify pure
  rehearse-facts m h = (ground arith, any-append is_cut w.effects _)

  real_cut-facts :
      (m : Option String)
      → is_armed event asset ≡ true
      → is_about event asset ≡ true
      → StepOutcome event asset false (real_cut env event asset dry m w).0
        × Attempts (real_cut env event asset dry m w) true
  unfolding real_cut ◌>>=◌ read_clock notify pure make_cut current_ledger network_cut
  real_cut-facts m h a = elim (Option-cases env.privsep) [
    | inl direct ↦ rw (direct, make_cut) (ground arith, simp any-append (ground arith))
    | inr (send, p) ↦ rw (p, make_cut) (ground arith, simp any-append (ground arith))
  ]

module _ (env : Env) (event : TrapEvent) (asset : AssetProfile) where
  abbrev opens : Bool → Bool
  opens dry = is_armed event asset && not dry && is_about event asset

  -- Step 4 for a change of high confidence on an asset in auto mode.
  armed_cut-facts :
      (dry : Bool) (w : World) (m : Option String)
      → (asset.response_mode == "auto") ≡ true
      → (event.confidence == "high") ≡ true
      → (event.op_class == "change") ≡ true
      → StepOutcome event asset dry (gated_cut env event asset dry m w).0
        × Attempts env event asset dry w (gated_cut env event asset dry m w) (opens dry)
  unfolding gated_cut checked_cut request
  armed_cut-facts true w m auto high change =
      let (flags, effects) = rehearse-facts env event asset true w m (ground arith) in
      rw (high, change, gated_cut) (flags, effects ∙ ground arith)
  armed_cut-facts false w m auto high change =
      let q = refusal-is_about event asset high change auto in
      elim (Option-cases (refusal (request env event asset false) asset false)) [
        | inl free ↦
            let about : is_about event asset ≡ true = ground (arith, q) in
            let (flags, effects) = real_cut-facts env event asset false w m (ground arith) about in
            rw (high, change, free, checked_cut) (flags, effects ∙ ground arith)
        | inr (why, e) ↦
            let about : is_about event asset ≡ false = ground (arith, q) in
            rw (high, change, e, checked_cut) (ground arith, ground arith)
      ]

  gated_cut-facts :
      (dry : Bool) (w : World) (m : Option String)
      → (asset.response_mode == "auto") ≡ true
      → StepOutcome event asset dry (gated_cut env event asset dry m w).0
        × Attempts env event asset dry w (gated_cut env event asset dry m w) (opens dry)
  unfolding gated_cut raise
  gated_cut-facts dry w m auto = elim (Bool-cases (event.confidence == "high")) [
    | inr low ↦ rw (low, gated_cut) (ground arith, ground arith)
    | inl high ↦ elim (Bool-cases (event.op_class == "change")) [
      | inr read ↦ rw (high, read, gated_cut) (ground arith, ground arith)
      | inl change ↦ armed_cut-facts dry w m auto high change
    ]
  ]

  cut_step-facts :
      (dry : Bool) (w : World)
      → StepOutcome event asset dry (cut_step env event asset dry w).0
        × Attempts env event asset dry w (cut_step env event asset dry w) (opens dry)
  unfolding cut_step
  cut_step-facts dry w = elim (Bool-cases (asset.response_mode == "auto")) [
    | inl auto ↦
        rw (is_contain-resolve asset, auto, cut_step)
          (rw auto at (gated_cut-facts dry w (resolve asset).cut_method auto))
    | inr other ↦ rw (is_contain-resolve asset, other, cut_step) (ground arith, ground arith)
  ]

  -- What `handle` returns, read as the flags of step 4.
  abbrev pub HandleOutcome : Bool → Result ResponderResult → Type 0
  HandleOutcome dry (ok r) =
      Flags event asset dry r.cut_executed r.cut_failed r.cut_would_have_been_executed
        r.cut_skipped_reason
  HandleOutcome dry (err e) =
      (e ≡ invalid_confidence_for_contain)
      × ((asset.response_mode == "auto" && not (event.confidence == "high")) ≡ true)

  -- The world when step 4 begins: the event is logged, the local notification is made, the clock is
  -- read and the webhook is started.
  before_cut : Bool → World → World
  before_cut dry w =
      let w1 = (announce env event asset dry (emit (log_event event) w).1).1 in
      (dispatch_webhook env event asset dry (read_clock env w1).1).1

  before_cut-quiet :
      (dry : Bool) (w : World) → attempted (before_cut dry w).effects ≡ attempted w.effects
  unfolding before_cut announce emit read_clock dispatch_webhook notify
  before_cut-quiet dry w = elim (Bool-cases env.has_webhook) [
    | inl h ↦ rw (h, dispatch_webhook) (simp any-append (ground arith))
    | inr h ↦ rw (h, dispatch_webhook) (simp any-append (ground arith))
  ]

  finish-facts :
      (dry : Bool) (notified : Bool) (alert : Instant) (r : Result CutStep × World)
      → StepOutcome event asset dry r.0
      → HandleOutcome dry (then_run (finish env event asset dry notified alert) r).0
        × (attempted (then_run (finish env event asset dry notified alert) r).1.effects
            ≡ attempted r.1.effects)
  unfolding then_run finish ◌>>=◌ emit pure
  finish-facts dry notified alert (ok s, w) h = (h, any-append is_cut w.effects _ ∙ ground arith)
  finish-facts dry notified alert (err e, w) h = (h, refl)

  handle-facts :
      (dry : Bool) (w : World)
      → HandleOutcome dry (handle env event asset dry w).0
        × (attempted (handle env event asset dry w).1.effects ≡ (attempted w.effects || opens dry))
  unfolding handle ◌>>=◌ emit pure before_cut announce read_clock notify dispatch_webhook
  handle-facts dry w =
      let (flags, effects) = cut_step-facts dry (before_cut dry w) in
      let (out, same) =
        finish-facts dry _ _ (cut_step env event asset dry (before_cut dry w)) flags in
      (out, same ∙ (effects ∙ ap (λ b. b || opens dry) (before_cut-quiet dry w)))

  -- From any world, the sequence makes a cut, through the daemon or by a command, exactly if the
  -- asset's response mode is auto, the touch is a change of high confidence, this is no dry run, and
  -- the event names the asset by its non-empty id. (`w` may hold earlier effects.)
  pub handle-attempted :
      (dry : Bool) (w : World)
      → attempted (handle env event asset dry w).1.effects ≡ (
          attempted w.effects
          || asset.response_mode == "auto"
            && event.confidence == "high"
            && event.op_class == "change"
            && not dry
            && is_about event asset)
  handle-attempted dry w = (handle-facts dry w).1 ∙ ground arith

  -- A result of the sequence says that a cut was executed or that it failed exactly where a cut is
  -- made, never both; that it would have been made exactly in a dry run of an armed event; and gives
  -- a reason for skipping exactly in auto mode for a touch that is no change or does not name the
  -- asset. The only error is Z403, raised exactly in auto mode for a confidence that is not high.
  pub handle-outcome : (dry : Bool) (w : World) → HandleOutcome dry (handle env event asset dry w).0
  handle-outcome dry w = (handle-facts dry w).0
