-- ===== src/Privsep/Reply.antt =====
-- src/zee/privsep/daemon.py: what the daemon answers, and the code of an answer that is not ok.
use zee.Prelude.{
  ℕ, String, Bool, true, false, Option, none, some, List, [], ◌∷◌, ◌==◌, contains, if◌then◌else◌,
}
use zee.Egress.Payload.{Request}

-- what `status` reports, beside texts for people
pub record Status : Type 0 where
  pub dry_run : Option Bool
  pub auto : String
  pub tamper_action : String
  pub findings : List String
  pub unresolved : List String
  pub keys : ℕ
  pub watch_seen_s_ago : Option ℕ

-- The fields of a reply that its code and its reader look at.
pub record Reply : Type 0 where
  pub ok : Bool
  pub error : Option String
  pub refused : Option String
  pub detail : Option String
  pub challenge : Option Request
  pub status : Option Status

abbrev pub bare : Bool → Reply
bare b = record {
  ok = b;
  error = none;
  refused = none;
  detail = none;
  challenge = none;
  status = none;
}

abbrev pub failed_with : String → Reply
failed_with e = record (bare false) { error = some e }

abbrev pub refuse : String → Reply
refuse why = record (bare false) { refused = some why }

abbrev pub result : Bool × String → Reply
result (ok, detail) = record (bare ok) { detail = some detail }

abbrev is_text : String → Option String → Bool
is_text s none = false
is_text s (some t) = t == s

abbrev is_one_of : List String → Option String → Bool
is_one_of ss none = false
is_one_of ss (some t) = contains t ss

abbrev given : Option String → Bool
given none = false
given (some _) = true

-- `reply_code`
unfoldable pub reply_code : Reply → String
unfolding contains
reply_code r =
    if is_text "malformed" r.error
    then "Z711"
    else if is_one_of ("peer_not_allowed" ∷ "root_only" ∷ "peer_unknown" ∷ []) r.error
    then "Z712"
    else if is_text "unknown_op" r.error
    then "Z713"
    else if is_one_of
        ("unknown_request" ∷ "expired" ∷ "payload_mismatch" ∷ "code_mismatch" ∷ "unknown_key"
          ∷ "replay" ∷ "bad_signature" ∷ "would_leave_one_key" ∷ "malformed" ∷ [])
        r.refused
    then "Z714"
    else if is_text "rate_limited" r.refused
    then "Z717"
    else if given r.refused
    then "Z715"
    else if given r.error
    then "Z716"
    else "Z718"
