-- ===== src/Responder/Sequence.antt =====
-- src/zee/responder/sequence.py: the fixed sequence from notification to cut for one trap event.
pub mod World
pub mod Gate
pub mod Order
use zee.Prelude.{
  String, Bool, true, false, not, Option, none, some, ◌∷◌, [], ◌++◌, ◌==◌, ◌<>◌, is_some, or_else,
  if◌then◌else◌,
}
use zee.Prelude.Time.{Instant, IsoTime}
use zee.Errors.{ok, invalid_confidence_for_contain}
use zee.Config.{AssetProfile}
use zee.Events.{TrapEvent}
use zee.Policy.{resolve, is_contain}
use zee.Notifier.Tier.{TierResult, detect, contain, contain_failed, dry_run, classify, reason_line}
use zee.Telemetry.CutState.Ledger.{LedgerFile, latest_unresolved_for}
use zee.Responder.Blocker.{CutRequest, refusal}
use World.{
  Env, Exec, Effect, log_event, start_webhook, privsep_cut, log_latency, ResponderResult, CutStep,
  untouched, pure, raise, emit, read_clock, notify, network_cut, current_ledger, ◌>>=◌, ◌>>◌,
}

-- `_hint_for`
hint_for : String → String → String
hint_for op_class asset_id =
    if op_class == "read"
    then "操作種別: 読み取り。正規ソフト（バックアップ / AV / OS ファイルインデクサ等）の" <> "読み取りの可能性があります。心当たりがなければ確認し、`zee cut "
      <> asset_id <> "` で手動遮断してください。"
    else "操作種別: 変更（書込/削除/改名等）。正規ソフトは通常この操作をデコイに対して行いません。"
      <> "危険度が高い可能性があります。自動遮断対象（auto + dry_run=false の場合のみ実行）。必要なら `zee cut " <> asset_id
      <> "` で手動遮断、復旧は `zee restore " <> asset_id <> "`。"

module _ (iso : IsoTime) where
  -- `cut_state is not None and cut_state.latest_unresolved_for(asset_id) is not None`
  recorded : Option LedgerFile → String → Bool
  recorded none asset_id = false
  recorded (some f) asset_id = is_some (latest_unresolved_for iso asset_id f)

  recover_hint : Option LedgerFile → String → String
  unfolding recorded
  recover_hint ledger asset_id =
      if recorded ledger asset_id
      then "recover with: zee restore " <> asset_id
      else "nothing was recorded as changed (`zee restore` would refuse: Z605)"

-- `event.decoy_ref or "-"`
ref_or_dash : TrapEvent → String
ref_or_dash event = elim event.decoy_ref [ none ↦ "-" | some r ↦ or_else r "-" ]

module _ (env : Env) where
  module _ (event : TrapEvent) (asset : AssetProfile) (dry : Bool) where
    pub tier : TierResult
    tier = classify env.text event asset

    pub title : String
    title = "Zee tripwire [" <> tier.label <> "] (" <> event.op_class <> "): " <> event.asset_id

    -- step 1
    announce : Exec Bool
    announce = notify env title (
        event.detail
        <> " | decoy_ref="
        <> ref_or_dash event
        <> "\n"
        <> reason_line tier detect
        <> "\n"
        <> hint_for event.op_class event.asset_id)

    -- step 2
    dispatch_webhook : Exec (Unit {0})
    dispatch_webhook w = (
      ok tt,
      if env.has_webhook
          then (emit
              (start_webhook title (record {
                asset_id = event.asset_id;
                source = event.source;
                confidence = event.confidence;
                op_class = event.op_class;
                decoy_ref = event.decoy_ref;
                detected_at = env.iso.isoformat event.detected_at;
                detail = event.detail;
                hint = hint_for event.op_class event.asset_id;
                tier = tier.label;
                tier_reason = reason_line tier detect;
              }))
              w).1
          else w,
    )

    request : CutRequest
    request = record {
      asset_id = event.asset_id;
      op_class = event.op_class;
      confidence = event.confidence;
    }

    method_of : Option String → String
    method_of none = "full"
    method_of (some m) = if m == "egress" then "egress" else "full"

    show_method : Option String → String
    show_method none = "None"
    show_method (some m) = m

    rehearse : Option String → Exec CutStep
    rehearse method = do
      t ← read_clock env
      _ ← notify env ("Zee dry_run: would cut [" <> tier.label <> "] " <> event.asset_id) (
          "cut_method="
          <> show_method method
          <> " (no real cut performed)\n"
          <> reason_line tier dry_run)
      pure (record untouched {
        would = true;
        would_have_done_at = some t;
        detail = "dry_run: would have called cut_" <> method_of method;
      })

    -- [privsep]: the root daemon decides and cuts
    make_cut : Option String → Exec (Bool × String)
    make_cut method w = elim env.privsep [
      | some send ↦
          (ok (send request), record w { effects = w.effects ++ privsep_cut request ∷ [] })
      | none ↦ network_cut env (method_of method) event.asset_id w
    ]

    how_to_recover : Option LedgerFile → String
    how_to_recover ledger =
        if is_some env.privsep
        then "recover with a signed request: zee privsep challenge restore asset_id="
          <> event.asset_id <> " scope=recorded"
        else recover_hint env.iso ledger event.asset_id

    real_cut : Option String → Exec CutStep
    real_cut method = do
      (done, detail) ← make_cut method
      t ← read_clock env
      ledger ← current_ledger
      _ ←
          notify env
            ("Zee cut "
              <> (if done then "applied" else "FAILED (Z404)")
              <> " ["
              <> tier.label
              <> "]: "
              <> event.asset_id)
            ("reason: "
              <> event.detail
              <> "\ndecoy_ref: "
              <> ref_or_dash event
              <> "\n"
              <> reason_line tier (if done then contain else contain_failed)
              <> "\n"
              <> (if done then "" else "traffic may NOT be stopped. detail: " <> detail <> "\n")
              <> how_to_recover ledger)
      pure (record untouched {
        executed = done;
        done_at = some t;
        detail = detail;
        failed = not done;
      })

    -- the boundary re-validates the request; a refusal never cuts
    checked_cut : Option String → Exec CutStep
    checked_cut method w = elim (refusal request asset dry) [
      | some refused ↦ (ok (record untouched { skipped_reason = some ("boundary:" <> refused) }), w)
      | none ↦ real_cut method w
    ]

    -- step 4 in contain mode
    gated_cut : Option String → Exec CutStep
    gated_cut method w =
        if not (event.confidence == "high")
        then raise invalid_confidence_for_contain w
        else if not (event.op_class == "change")
        then (ok (record untouched { skipped_reason = some ("op_class=" <> event.op_class) }), w)
        else if dry
        then rehearse method w
        else checked_cut method w

    -- steps 3 and 4
    cut_step : Exec CutStep
    cut_step w =
        if is_contain (resolve asset).mode
        then gated_cut (resolve asset).cut_method w
        else (ok untouched, w)

    -- step 5, and the result
    finish : Bool → Instant → CutStep → Exec ResponderResult
    finish notified_locally alert_sent_at s = do
      emit (
          log_latency (record {
            asset_id = event.asset_id;
            detected_at = event.detected_at;
            alert_sent_at = alert_sent_at;
            cut_done_at = s.done_at;
            cut_would_have_done_at = s.would_have_done_at;
            dry_run = dry;
            mode = (resolve asset).mode;
          }))
      pure (record {
        asset_id = event.asset_id;
        mode = (resolve asset).mode;
        cut_executed = s.executed;
        cut_would_have_been_executed = s.would;
        cut_detail = s.detail;
        notified_locally = notified_locally;
        cut_skipped_reason = s.skipped_reason;
        cut_failed = s.failed;
      })

    pub handle : Exec ResponderResult
    handle = do
      emit (log_event event)
      notified_locally ← announce
      alert_sent_at ← read_clock env
      dispatch_webhook
      s ← cut_step
      finish notified_locally alert_sent_at s
