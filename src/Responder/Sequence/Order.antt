-- ===== src/Responder/Sequence/Order.antt =====
-- The order of the effects of src/zee/responder/sequence.py: notify first, then anything else.
use mathlib.Core.List.{append_assoc, append-nil}
use zee.Prelude.{
  String, Bool, true, false, ◌≡◌, refl, sym, ap, ◌∙◌, Option, List, [], ◌∷◌, ◌++◌, ◌==◌, Bool-cases,
  Option-cases, inl, inr, if◌then◌else◌,
}
use zee.Prelude.Time.{Instant}
use zee.Errors.{Result, ok, err}
use zee.Config.{AssetProfile}
use zee.Events.{TrapEvent}
use zee.Policy.{resolve, is_contain}
use zee.Responder.Blocker.{refusal}
use zee.Responder.Sequence.{
  handle, cut_step, gated_cut, checked_cut, rehearse, real_cut, make_cut, announce, title,
  dispatch_webhook, request, finish,
}
use zee.Responder.Sequence.World.{
  Env, World, Effect, log_event, notify_local, CutStep, ◌>>=◌, emit, pure, raise, read_clock,
  notify, network_cut, current_ledger, then_run,
}

-- The run only added effects at the end.
abbrev Appends : {A : Type 0} → World → Result A × World → Type 0
Appends w r = (rest : List Effect) × (r.1.effects ≡ w.effects ++ rest)

if-Appends :
    {A : Type 0} (w : World) (b : Bool) (r s : Result A × World)
    → Appends w r
    → Appends w s
    → Appends w (if b then r else s)
if-Appends w true r s h k = h
if-Appends w false r s h k = k

module _ (env : Env) (event : TrapEvent) (asset : AssetProfile) (dry : Bool) (w : World) where
  rehearse-Appends : (m : Option String) → Appends w (rehearse env event asset dry m w)
  unfolding rehearse ◌>>=◌ read_clock notify pure
  rehearse-Appends m = (_, refl)

  real_cut-Appends : (m : Option String) → Appends w (real_cut env event asset dry m w)
  unfolding real_cut ◌>>=◌ read_clock notify pure make_cut current_ledger network_cut
  real_cut-Appends m = elim (Option-cases env.privsep) [
    | inl direct ↦ rw (direct, make_cut) (_, append_assoc w.effects _ _)
    | inr (send, p) ↦ rw (p, make_cut) (_, append_assoc w.effects _ _)
  ]

  unchanged : w.effects ≡ w.effects ++ []
  unchanged = sym (append-nil w.effects)

  checked_cut-Appends : (m : Option String) → Appends w (checked_cut env event asset dry m w)
  unfolding checked_cut
  checked_cut-Appends m = elim (Option-cases (refusal (request env event asset dry) asset dry)) [
    | inl free ↦ rw (free, checked_cut) (real_cut-Appends m)
    | inr (why, e) ↦ rw (e, checked_cut) ([], unchanged)
  ]

  gated_cut-Appends : (m : Option String) → Appends w (gated_cut env event asset dry m w)
  unfolding gated_cut raise
  gated_cut-Appends m = elim (Bool-cases (event.confidence == "high")) [
    | inr low ↦ rw (low, gated_cut) ([], unchanged)
    | inl high ↦ elim (Bool-cases (event.op_class == "change")) [
      | inr read ↦ rw (high, read, gated_cut) ([], unchanged)
      | inl change ↦
          rw (high, change, gated_cut)
            (if-Appends w dry (rehearse env event asset dry m w)
              (checked_cut env event asset dry m w) (rehearse-Appends m) (checked_cut-Appends m))
    ]
  ]

  cut_step-Appends : Appends w (cut_step env event asset dry w)
  unfolding cut_step
  cut_step-Appends = elim (Bool-cases (is_contain (resolve asset).mode)) [
    | inl c ↦ rw (c, cut_step) (gated_cut-Appends (resolve asset).cut_method)
    | inr n ↦ rw (n, cut_step) ([], unchanged)
  ]

webhook-Appends :
    (env : Env) (event : TrapEvent) (asset : AssetProfile) (dry : Bool) (w : World)
    → Appends w (dispatch_webhook env event asset dry w)
unfolding dispatch_webhook emit
webhook-Appends env event asset dry w = elim (Bool-cases env.has_webhook) [
  | inl h ↦ rw (h, dispatch_webhook) (_, refl)
  | inr h ↦ rw (h, dispatch_webhook) ([], sym (append-nil w.effects))
]

finish-Appends :
    (env : Env) (event : TrapEvent) (asset : AssetProfile) (dry notified : Bool) (alert : Instant)
    (r : Result CutStep × World)
    → Appends r.1 (then_run (finish env event asset dry notified alert) r)
unfolding then_run finish ◌>>=◌ emit pure
finish-Appends env event asset dry notified alert (ok s, w) = (_, refl)
finish-Appends env event asset dry notified alert (err e, w) = ([], sym (append-nil w.effects))

regroup :
    (es : List Effect) (a b : Effect) (xs ys zs : List Effect)
    → ((((es ++ a ∷ []) ++ b ∷ []) ++ xs) ++ ys) ++ zs ≡ es ++ a ∷ b ∷ ((xs ++ ys) ++ zs)
regroup es a b xs ys zs = simp append_assoc

-- Whatever the event, the asset and the answers of the world, the sequence first logs the event and
-- then makes the local notification of its title; every later effect, a cut among them, comes after.
pub handle-notifies_first :
    (env : Env) (event : TrapEvent) (asset : AssetProfile) (dry : Bool) (w : World)
    → (body : String) × (rest : List Effect) × ((handle env event asset dry w).1.effects
        ≡ w.effects ++ log_event event ∷ notify_local (title env event asset dry) body ∷ rest)
unfolding handle ◌>>=◌ emit pure announce read_clock notify dispatch_webhook
handle-notifies_first env event asset dry w =
    let w1 : World = (announce env event asset dry (emit (log_event event) w).1).1 in
    let w2 : World = (read_clock env w1).1 in
    let w3 : World = (dispatch_webhook env event asset dry w2).1 in
    let r = cut_step env event asset dry w3 in
    let (web, p) = webhook-Appends env event asset dry w2 in
    let (cut, q) = cut_step-Appends env event asset dry w3 in
    let (last, k) = finish-Appends env event asset dry _ _ r in
    (
      _,
      (web ++ cut) ++ last,
      k ∙ (ap (λ x. x ++ last) (q ∙ ap (λ x. x ++ cut) p) ∙ regroup w.effects _ _ web cut last),
    )
