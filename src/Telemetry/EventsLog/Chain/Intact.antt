-- ===== src/Telemetry/EventsLog/Chain/Intact.antt =====
-- What src/zee/telemetry/events_log.py writes, its own verifier accepts: logs that only `_append`
-- and rotation have touched.
use mathlib.Core.List.{append-nil, map-append}
use zee.Prelude.{
  ◌<◌, String, Bool, true, false, ◌≡◌, refl, sym, ap, ◌∙◌, concat, concat-append, Option, none,
  some, List, [], ◌∷◌, ◌++◌, map, arith, eq_iff, eq_refl, is_hex64,
}
use zee.Prelude.Json
use zee.Prelude.Json.{Json, Fields, str, obj, field, end, drop2}
use zee.Telemetry.EventsLog.{
  LogLine, Hashing, hash_of, line_hash, tail_window, Log, with_hashes, or_genesis, record_hash,
  chained_line,
}
use zee.Telemetry.EventsLog.Links.{IsLink, Links, Links-split, Links-some, lines_of, IsIntact}
use zee.Telemetry.EventsLog.Chain.{
  ok, link_status, hashed_status, object_status, verify_content, verify_line, verify_lines,
  verify_segments, verify_chain, verify_log, readable, files,
}

-- A record as the callers make it: it has none of the two fields of the chain.
abbrev pub IsBare : Fields → Type 0
IsBare fs = (Json.get "record_hash" fs ≡ none) × (Json.get "prev_hash" fs ≡ none)

get-with_hashes :
    (fs : Fields) (prev h : String)
    → IsBare fs
    → (Json.get "record_hash" (with_hashes fs prev h) ≡ some (str h))
      × (Json.get "prev_hash" (with_hashes fs prev h) ≡ some (str prev))
unfolding with_hashes Json.get
get-with_hashes end prev h b = (refl, refl)
get-with_hashes (field k v fs) prev h b = ground (arith, get-with_hashes fs prev h)

drop2-with_hashes :
    (fs : Fields) (prev h : String)
    → IsBare fs
    → drop2 "record_hash" "prev_hash" (with_hashes fs prev h) ≡ fs
unfolding with_hashes drop2 Json.get
drop2-with_hashes end prev h b = refl
drop2-with_hashes (field k v fs) prev h b = ground (
  arith,
  drop2-with_hashes fs prev h,
  eq_iff k "record_hash",
  eq_iff k "prev_hash",
  eq_iff "record_hash" k,
  eq_iff "prev_hash" k,
)

-- The verifier accepts the hash that the writer chained from.
link_status-own : (e : Option String) (h : String) → link_status h (or_genesis e) (some h) e ≡ ok
unfolding link_status
link_status-own none h = rw (eq_refl h)
link_status-own (some g) h = rw (eq_refl h, eq_refl g)

module _ (hs : Hashing) where
  -- The line of a record accepts itself behind the hash that the writer chained it from.
  pub chained_line-IsLink :
      (e : Option String) (bare : Fields) (h : String)
      → IsBare bare
      → is_hex64 (or_genesis e) ≡ true
      → is_hex64 h ≡ true
      → record_hash hs (or_genesis e) bare ≡ some h
      → hs.line_size (with_hashes bare (or_genesis e) h) < tail_window
      → IsLink hs e (chained_line hs bare (or_genesis e) h) h
  unfolding chained_line verify_line verify_content object_status hashed_status hash_of line_hash
  chained_line-IsLink e bare h b x y d s =
      let (rh, ph) = get-with_hashes bare (or_genesis e) h b in
      let rest = drop2-with_hashes bare (or_genesis e) h b in
      record {
        accepted = λ newest. rw (rh, ph, x, y, rest, d) (rw (link_status-own e h));
        own_hash = rw (rh, y);
        hex = y;
        ended = refl;
        fits = s;
      }

  verify_lines-linked :
      (newest : Bool) (e f : Option String) (ls : List LogLine)
      → Links hs e ls f
      → verify_lines hs newest ls e ≡ (map (λ _. ok) ls, f)
  unfolding verify_lines
  verify_lines-linked newest e f [] a = ap (λ o. ([], o)) a
  verify_lines-linked newest e f (l ∷ ls) (h, k, a) =
      rw (k.accepted newest) (rw (verify_lines-linked newest (some h) f ls a))

  verify_segments-linked :
      (e f : Option String) (segs : List (List LogLine))
      → Links hs e (concat segs) f
      → verify_segments hs (map readable segs) e ≡ (map (λ _. ok) (concat segs), false)
  unfolding verify_segments
  verify_segments-linked e f [] a = refl
  verify_segments-linked e f (ls ∷ segs) a =
      let (m, b, c) = Links-split hs e f ls (concat segs) a in
      rw (verify_lines-linked _ e m ls b, verify_segments-linked m f segs c)
        (ap (λ ss. (ss, false)) (sym (map-append (λ _. ok) ls (concat segs))))

  concat-files : (log : Log) → concat (files log) ≡ lines_of log
  concat-files log = by_current log.rotated log.current
    where
      by_current :
          (segs : List (List LogLine)) (ls : List LogLine)
          → concat (files (record { rotated = segs; current = ls })) ≡ concat segs ++ ls
      by_current segs [] = sym (append-nil _)
      by_current segs (l ∷ ls) =
          concat-append segs ((l ∷ ls) ∷ []) ∙ ap (λ xs. concat segs ++ xs) (append-nil (l ∷ ls))

  -- The verifier accepts each line of an intact log.
  pub verify_log-intact :
      (log : Log) (f : Option String)
      → IsIntact hs log f
      → verify_log hs log ≡ (map (λ _. ok) (lines_of log), false)
  unfolding verify_log verify_chain
  verify_log-intact log f a =
      verify_segments-linked none f (files log) (rw (concat-files log) a)
      ∙ ap (λ ls. (map (λ _. ok) ls, false)) (concat-files log)

  -- The hash to chain from is one that `_is_hash` accepts.
  pub or_genesis-hex :
      (f : Option String) (ls : List LogLine) → Links hs none ls f → is_hex64 (or_genesis f) ≡ true
  unfolding is_hex64
  or_genesis-hex none ls a = refl
  or_genesis-hex (some g) [] a = absurd (cc a)
  or_genesis-hex (some g) (l ∷ ls) a =
      let (h, same, x) = Links-some hs none (some g) l ls a in ap is_hex64 (ap or_genesis same) ∙ x
