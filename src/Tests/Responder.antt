-- ===== src/Tests/Responder.antt =====
-- The sequence, the permission and the boundary on one touch of a decoy.
use zee.Prelude.{
  String, true, false, ◌≡◌, ◌↔◌, refl, none, some, List, [], ◌∷◌, ◌++◌, ◌==◌, truthy, leb, is_blank,
  is_hex64,
}
use zee.Prelude.Json
use zee.Prelude.Json.{pos, obj}
use zee.Errors.{ok, ◌>>=◌}
use zee.Notifier.Tier.{PathText, classify, sensitivity}
use zee.Notifier.Tier.Levels.{classify_critical}
use zee.Responder.Blocker.{CutRequest, refusal, refusal-none}
use zee.Responder.Permission.{
  Permission, permission, FileView, not_found, opened, file_mode, dir_mode, encode, decode_fields,
  save, load, decide, policy_hash,
}
use zee.Responder.Permission.Policy.{PolicyEntry}
use zee.Responder.Permission.Decision.{decide_iff, load-Believed, Believed}
use zee.Responder.Permission.RoundTrip.{load-save}
use zee.Responder.Sequence.{handle, title}
use zee.Responder.Sequence.World.{Env, World, Effect, log_event, notify_local}
use zee.Responder.Sequence.Gate.{attempted, HandleOutcome, handle-attempted, handle-outcome}
use zee.Responder.Sequence.Order.{handle-notifies_first}
use zee.Tests.Data.{clock, noon, laptop, armed, touch}

abbrev paths : PathText
paths = record { name_lower = λ p. p; ends_with = λ s t. s == t }

-- The cut succeeds and needs no ledger; there is no daemon and no webhook.
abbrev env : Env
env = record {
  iso = clock;
  text = paths;
  now = λ n. record { at = n; aware = true };
  notified = λ title body. true;
  has_webhook = false;
  privsep = none;
  network = λ method asset_id ledger. (true, "cut", ledger);
}

abbrev start : World
start = record { effects = []; readings = 0; ledger = none }

handle-attempted_example : attempted (handle env touch laptop false start).1.effects ≡ true
unfolding truthy
handle-attempted_example = handle-attempted env touch laptop false start

handle-outcome_example :
    HandleOutcome env touch laptop false (handle env touch laptop false start).0
handle-outcome_example = handle-outcome env touch laptop false start

handle-notifies_first_example :
    (body : String) × (rest : List Effect) × ((handle env touch laptop true start).1.effects
      ≡ [] ++ log_event touch ∷ notify_local (title env touch laptop true) body ∷ rest)
handle-notifies_first_example = handle-notifies_first env touch laptop true start

abbrev digest : List PolicyEntry → String
digest ps = "00000000000000000000000000000000000000000000000000000000000000aa"

abbrev granted : Permission
granted = record {
  schema_version = pos 1;
  enabled = true;
  revision = pos 3;
  instance_id = "state";
  policy_hash = "00000000000000000000000000000000000000000000000000000000000000aa";
  disclosure_version = "1";
  changed_by = "operator";
  changed_at = noon;
}

decide_iff_example :
    ((decide digest touch laptop armed (permission granted)).0 ≡ true)
    × (((decide digest touch laptop armed (permission granted)).1 ≡ none)
        ↔ ((decide digest touch laptop armed (permission granted)).0 ≡ true))
unfolding policy_hash
decide_iff_example = decide_iff digest touch laptop armed (permission granted)

abbrev no_file : FileView
no_file = record { parent_is_link = false; is_link = false; posix = true; opening = not_found }

abbrev saved : FileView
saved = record no_file {
  opening = opened (record {
    regular = true;
    mode = file_mode;
    parent_mode = dir_mode;
    content = some (obj (encode clock granted));
  });
}

granted-saved : save clock "state" granted no_file ≡ ok saved
unfolding save encode decode_fields ◌>>=◌ Json.get is_blank is_hex64
granted-saved = refl

load-save_example : load clock "state" saved ≡ permission granted
load-save_example = load-save clock "state" granted no_file saved granted-saved

load-Believed_example : Believed clock "state" saved granted
load-Believed_example =
    load-Believed clock "state" saved granted
      (load-save clock "state" granted no_file saved granted-saved)

abbrev wanted : CutRequest
wanted = record { asset_id = "laptop"; op_class = "change"; confidence = "high" }

refusal-none_example : (refusal wanted laptop false ≡ none) ↔ (
    (false ≡ false)
    × (truthy wanted.asset_id ≡ true)
    × (wanted.asset_id ≡ laptop.id)
    × (laptop.response_mode ≡ "auto")
    × (wanted.confidence ≡ "high")
    × (wanted.op_class ≡ "change"))
refusal-none_example = refusal-none wanted laptop false

classify_critical_example :
    (leb 4 (classify paths touch laptop).level ≡ false)
    × (leb 3 (classify paths touch laptop).level ≡ true)
unfolding sensitivity
classify_critical_example = classify_critical paths touch laptop
