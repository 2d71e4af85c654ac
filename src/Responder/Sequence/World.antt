-- ===== src/Responder/Sequence/World.antt =====
-- src/zee/responder/sequence.py: the effects of the sequence, the world that answers, its results,
-- and the monad that its steps run in.
use zee.Prelude.{ℕ, suc, String, Bool, false, Option, none, List, [], ◌∷◌, ◌++◌}
use zee.Prelude.Time.{Instant, IsoTime}
use zee.Errors.{ZeeError, Result, ok, err}
use zee.Events.{TrapEvent}
use zee.Policy.{ResolvedMode}
use zee.Notifier.Tier.{PathText}
use zee.Telemetry.CutState.Ledger.{LedgerFile}
use zee.Responder.Blocker.{CutRequest}

pub record LatencyRecord : Type 0 where
  pub asset_id : String
  pub detected_at : Instant
  pub alert_sent_at : Instant
  pub cut_done_at : Option Instant
  pub cut_would_have_done_at : Option Instant
  pub dry_run : Bool
  pub mode : ResolvedMode

pub record Payload : Type 0 where
  pub asset_id : String
  pub source : String
  pub confidence : String
  pub op_class : String
  pub decoy_ref : Option String
  pub detected_at : String
  pub detail : String
  pub hint : String
  pub tier : String
  pub tier_reason : String

pub data Effect : Type 0 where
  log_event : TrapEvent → Effect
  notify_local : String → String → Effect
  start_webhook : String → Payload → Effect  -- the thread; its result is logged later
  privsep_cut : CutRequest → Effect
  cut_network : String → String → Effect  -- method ("egress" or "full"), asset
  log_latency : LatencyRecord → Effect

-- What the caller passes in, and how the world answers. A cut may write the ledger.
pub record Env : Type 0 where
  pub iso : IsoTime
  pub text : PathText
  pub now : ℕ → Instant  -- the n-th reading of the clock
  pub notified : String → String → Bool
  pub has_webhook : Bool
  pub privsep : Option (CutRequest → Bool × String)
  pub network : String → String → Option LedgerFile → Bool × String × Option LedgerFile

pub record World : Type 0 where
  pub effects : List Effect
  pub readings : ℕ
  pub ledger : Option LedgerFile

abbrev pub Exec : Type 0 → Type 0
Exec A = World → Result A × World

unfoldable pub pure : {A : Type 0} → A → Exec A
pure a w = (ok a, w)

unfoldable pub raise : {A : Type 0} → ZeeError → Exec A
raise e w = (err e, w)

unfoldable pub then_run : {A B : Type 0} → (A → Exec B) → Result A × World → Result B × World
then_run f (ok a, w) = f a w
then_run f (err e, w) = (err e, w)

infixl 5 ◌>>=◌ ◌>>◌
unfoldable pub ◌>>=◌ : {A B : Type 0} → Exec A → (A → Exec B) → Exec B
unfolding then_run
◌>>=◌ m f w = then_run f (m w)

abbrev pub ◌>>◌ : {B : Type 0} → Exec (Unit {0}) → Exec B → Exec B
m >> k = m >>= λ _. k

unfoldable pub emit : Effect → Exec (Unit {0})
emit e w = (ok tt, record w { effects = w.effects ++ e ∷ [] })

pub record ResponderResult : Type 0 where
  pub asset_id : String
  pub mode : ResolvedMode
  pub cut_executed : Bool
  pub cut_would_have_been_executed : Bool
  pub cut_detail : String
  pub notified_locally : Bool
  pub cut_skipped_reason : Option String
  pub cut_failed : Bool

-- The variables that step 4 sets.
pub record CutStep : Type 0 where
  pub executed : Bool
  pub would : Bool
  pub detail : String
  pub failed : Bool
  pub done_at : Option Instant
  pub would_have_done_at : Option Instant
  pub skipped_reason : Option String

abbrev pub untouched : CutStep
untouched = record {
  executed = false;
  would = false;
  detail = "";
  failed = false;
  done_at = none;
  would_have_done_at = none;
  skipped_reason = none;
}

unfoldable pub current_ledger : Exec (Option LedgerFile)
current_ledger w = (ok w.ledger, w)

module _ (env : Env) where
  unfoldable pub read_clock : Exec Instant
  read_clock w = (ok (env.now w.readings), record w { readings = suc w.readings })

  unfoldable pub notify : String → String → Exec Bool
  notify title body w = (
    ok (env.notified title body),
    record w { effects = w.effects ++ notify_local title body ∷ [] },
  )

  unfoldable pub network_cut : String → String → Exec (Bool × String)
  network_cut method asset_id w =
      let (done, detail, ledger) = env.network method asset_id w.ledger in
      (
        ok (done, detail),
        record w { effects = w.effects ++ cut_network method asset_id ∷ []; ledger = ledger },
      )
