-- ===== src/Events.antt =====
-- src/zee/events.py: the event that passes from a watcher to the responder.
use zee.Prelude.{String, not, ◌&&◌, Option, ◌==◌, if◌then◌else◌}
use zee.Prelude.Time.{Instant}
use zee.Errors.{Result, ok, err, value_error}

pub record TrapEvent : Type 0 where
  pub source : String
  pub confidence : String
  pub asset_id : String
  pub decoy_path : Option String
  pub detected_at : Instant
  pub detail : String
  pub op_class : String
  pub decoy_ref : Option String

-- `__post_init__`: a decoy touch is refused unless its confidence is high
unfoldable pub make : TrapEvent → Result TrapEvent
make e = if e.source == "decoy_touch" && not (e.confidence == "high") then err value_error else ok e
