-- ===== src/Telemetry/EventsLog/Chain.antt =====
-- src/zee/telemetry/events_log.py, `verify_chain`: what the reader reports of each line.
-- The file names, line numbers and reasons of the report are left out.
pub mod Intact
pub mod Appends
pub mod Damage
use zee.Prelude.{
  String, Bool, true, false, not, ◌&&◌, ◌||◌, Option, none, some, List, [], ◌∷◌, ◌++◌, ◌==◌,
  is_some, map, if◌then◌else◌,
}
use zee.Prelude.Json
use zee.Prelude.Json.{Json, Fields, obj, drop2}
use zee.Telemetry.EventsLog.{
  Content, blank, bad, value, LogLine, Hashing, hash_of, record_hash, genesis_hash, Log, non_empty,
}

pub data Status : Type 0 where
  ok legacy legacy_after_chain corrupted chain_break head_missing partial : Status

-- A segment as it is read: the lines that came, and whether an OSError then ended the reading.
pub record Segment : Type 0 where
  pub lines : List LogLine
  pub fails : Bool

-- `if h == v`, where the hash may not exist
abbrev is_hash : String → Option String → Bool
is_hash rh none = false
is_hash rh (some h) = h == rh

-- a line with both hashes, the content's own hash, and the hash expected before it
unfoldable pub link_status : String → String → Option String → Option String → Status
link_status rh ph own expected = if not (is_hash rh own) then corrupted else elim expected [
  | none ↦ if ph == genesis_hash then ok else head_missing
  | some h ↦ if ph == h then ok else chain_break
]

module _ (hs : Hashing) where
  -- both fields once `_is_hash` has read them; the claimed hash is followed whatever the status
  hashed_status : Option String → Option String → Fields → Option String → Status × Option String
  unfolding link_status
  hashed_status (some rh) (some ph) fs expected =
      (link_status rh ph (record_hash hs ph (drop2 "record_hash" "prev_hash" fs)) expected, some rh)
  hashed_status _ _ fs expected = (corrupted, expected)

  object_status : Fields → Option String → Status × Option String
  unfolding hashed_status
  object_status fs expected =
      if not (is_some (Json.get "record_hash" fs)) && not (is_some (Json.get "prev_hash" fs))
      then (if is_some expected then legacy_after_chain else legacy, expected)
      else hashed_status (hash_of (Json.get "record_hash" fs)) (hash_of (Json.get "prev_hash" fs))
          fs expected

  -- One line: its status (none for a blank one), and the hash expected next.
  verify_content : Bool → Content → Option String → Option Status × Option String
  unfolding object_status
  verify_content open_end blank expected = (none, expected)
  verify_content open_end bad expected = (some (if open_end then partial else corrupted), expected)
  verify_content open_end (value (obj fs)) expected =
      let (s, next) = object_status fs expected in (some s, next)
  verify_content open_end (value _) expected = (some corrupted, expected)

  unfoldable pub verify_line : Bool → LogLine → Option String → Option Status × Option String
  unfolding verify_content
  verify_line newest l = verify_content (newest && not l.terminated) l.content

  abbrev cons_some : Option Status → List Status → List Status
  cons_some none ss = ss
  cons_some (some s) ss = s ∷ ss

  -- the inner loop
  unfoldable pub verify_lines : Bool → List LogLine → Option String → List Status × Option String
  unfolding verify_line
  verify_lines newest [] expected = ([], expected)
  verify_lines newest (l ∷ ls) expected =
      let (s, next) = verify_line newest l expected in
      let (ss, final) = verify_lines newest ls next in (cons_some s ss, final)

  abbrev is_last : List Segment → Bool
  is_last [] = true
  is_last (_ ∷ _) = false

  -- the loop over the segments; the second component is `read_error`
  unfoldable pub verify_segments : List Segment → Option String → List Status × Bool
  unfolding verify_lines
  verify_segments [] expected = ([], false)
  verify_segments (seg ∷ segs) expected =
      let (ss, next) = verify_lines (is_last segs) seg.lines expected in
      let (rest, failed) = verify_segments segs next in
      if seg.fails then (ss, true) else (ss ++ rest, failed)

  -- `none`: the directory cannot be listed
  unfoldable pub verify_chain : Option (List Segment) → List Status × Bool
  unfolding verify_segments
  verify_chain none = ([], true)
  verify_chain (some segs) = verify_segments segs none

abbrev pub readable : List LogLine → Segment
readable ls = record { lines = ls; fails = false }

-- `log_segments`
abbrev pub files : Log → List (List LogLine)
files log = if non_empty log.current then log.rotated ++ log.current ∷ [] else log.rotated

-- `verify_chain` where nothing fails on reading
unfoldable pub verify_log : Hashing → Log → List Status × Bool
unfolding verify_chain
verify_log hs log = verify_chain hs (some (map readable (files log)))
