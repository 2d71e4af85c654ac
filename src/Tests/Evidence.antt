-- ===== src/Tests/Evidence.antt =====
-- The evidence log on a few records, with a hash that is the same for every text.
use zee.Prelude.{String, true, false, ◌≡◌, refl, subst, some, List, [], ◌∷◌, map, is_hex64, arith}
use zee.Prelude.Json
use zee.Prelude.Json.{Fields, str, obj, field, end, drop2}
use zee.Telemetry.EventsLog.{
  LogLine, value, Hashing, hash_of, record_hash, chained_line, genesis_hash, whole, failed,
}
use zee.Telemetry.EventsLog.Links.{lines_of}
use zee.Telemetry.EventsLog.Chain.{ok, link_status, verify_line, verify_lines, verify_log}
use zee.Telemetry.EventsLog.Chain.Appends.{
  Attempt, IsAppended, appends, empty_log, verify_log-appends,
}
use zee.Telemetry.EventsLog.Chain.Damage.{edit-collides}

abbrev digest : String
digest = "00000000000000000000000000000000000000000000000000000000000000aa"

pub digest-is_hex64 : (t h : String) → some digest ≡ some h → is_hex64 h ≡ true
unfolding is_hex64
digest-is_hex64 t h e = let same : digest ≡ h = cc e in subst (λ s. is_hex64 s ≡ true) same refl

abbrev hashing : Hashing
hashing = record {
  canonical_json = λ fs. "{}";
  sha256 = λ t. some digest;
  line_size = λ fs. 200;
  sha256-is_hex64 = digest-is_hex64;
}

abbrev touched : Fields
touched = field "type" (str "event") end

touched-IsAppended : IsAppended hashing (true, whole, touched)
unfolding Json.get
touched-IsAppended = (refl, refl, (refl, refl), λ prev h. ground arith)

failed-IsAppended : IsAppended hashing (true, failed, touched)
unfolding Json.get
failed-IsAppended = (refl, refl, (refl, refl), λ prev h. ground arith)

abbrev history : List Attempt
history = (true, whole, touched) ∷ (true, failed, touched) ∷ (true, whole, touched) ∷ []

verify_log-appends_example :
    let log = appends hashing 100 history empty_log in
    verify_log hashing log ≡ (map (λ _. ok) (lines_of log), false)
verify_log-appends_example =
    verify_log-appends hashing 100 history
      (touched-IsAppended, (failed-IsAppended, (touched-IsAppended, tt)))

abbrev first_line : LogLine
first_line = chained_line hashing touched genesis_hash digest

abbrev first_fields : Fields
first_fields =
    field "type" (str "event")
      (field "prev_hash" (str genesis_hash) (field "record_hash" (str digest) end))

abbrev edited_fields : Fields
edited_fields =
    field "type" (str "edited")
      (field "prev_hash" (str genesis_hash) (field "record_hash" (str digest) end))

abbrev next_fields : Fields
next_fields =
    field "type" (str "event")
      (field "prev_hash" (str digest) (field "record_hash" (str digest) end))

abbrev next_line : LogLine
next_line = record { content = value (obj next_fields); terminated = true; size = 200 }

edit-collides_example :
    (prev : String) × (hash_of (Json.get "prev_hash" first_fields) ≡ some prev)
    × (hash_of (Json.get "prev_hash" edited_fields) ≡ some prev)
    × (some digest ≡ some digest)
unfolding verify_lines verify_line link_status record_hash hash_of Json.get drop2 is_hex64
edit-collides_example =
    edit-collides hashing true [] [] next_line next_line next_line first_fields edited_fields
      next_fields refl refl
