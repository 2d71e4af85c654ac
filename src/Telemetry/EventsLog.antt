-- ===== src/Telemetry/EventsLog.antt =====
-- src/zee/telemetry/events_log.py: the hash-chained evidence log, its writer and its verifier.
-- A file is the list of its lines, a missing or empty file the empty list; `json.dumps` and SHA-256 are parameters.
pub mod Chain
pub mod Links
use zee.Prelude.{
  ◌≡◌, nat_eq, ℕ, ◌+◌, String, Bool, true, false, not, ◌&&◌, ◌||◌, Option, none, some, List, [],
  ◌∷◌, ◌++◌, ◌<>◌, leb, ltb, is_some, is_hex64, if◌then◌else◌,
}
use zee.Prelude.Json
use zee.Prelude.Json.{Json, Fields, str, obj, field, end, drop2}

abbrev pub tail_window : ℕ
tail_window = 65536

abbrev pub genesis_hash : String
genesis_hash = "0000000000000000000000000000000000000000000000000000000000000000"

-- What one line of a log file holds, up to its newline.
pub data Content : Type 0 where
  blank : Content
  bad : Content  -- no UTF-8 or no JSON
  value : Json → Content

pub record LogLine : Type 0 where
  pub content : Content
  pub terminated : Bool  -- only the last line of a file may lack its newline
  pub size : ℕ

-- `text` is the canonical JSON; `sha256` has no value where the text cannot be encoded.
pub record Hashing : Type 0 where
  pub canonical_json : Fields → String
  pub sha256 : String → Option String
  pub line_size : Fields → ℕ
  pub sha256-is_hex64 : (t h : String) → sha256 t ≡ some h → is_hex64 h ≡ true

-- `_is_hash`
unfoldable pub hash_of : Option Json → Option String
hash_of (some (str s)) = if is_hex64 s then some s else none
hash_of _ = none

-- the hash of a line that the writer may chain from
unfoldable pub line_hash : LogLine → Option String
unfolding hash_of
line_hash l = elim l.content [ value (obj fs) ↦ hash_of (Json.get "record_hash" fs) | _ ↦ none ]

abbrev pub bytes : List LogLine → ℕ
bytes [] = 0
bytes (l ∷ ls) = l.size + bytes ls

-- The pieces of the last `tail_window` bytes; where the file is longer, a piece counts only if it
-- begins strictly inside.
in_window : ℕ → List LogLine → List LogLine
in_window total [] = []
in_window total (l ∷ ls) =
    let rest = in_window total ls in
    if leb total tail_window || ltb (bytes (l ∷ ls)) tail_window then l ∷ rest else rest

-- the last hash among the terminated lines
last_hash : List LogLine → Option String
unfolding line_hash
last_hash [] = none
last_hash (l ∷ ls) =
    let later = last_hash ls in
    if is_some later then later else if l.terminated then line_hash l else none

abbrev pub ends_nl : List LogLine → Bool
ends_nl [] = true
ends_nl (l ∷ []) = l.terminated
ends_nl (_ ∷ l ∷ ls) = ends_nl (l ∷ ls)

abbrev pub non_empty : List LogLine → Bool
non_empty [] = false
non_empty (_ ∷ _) = true

-- `_tail`, its first component
unfoldable pub tail_hash : List LogLine → Option String
unfolding in_window last_hash
tail_hash ls = last_hash (in_window (bytes ls) ls)

-- Rotated segments, oldest first, and the current file.
pub record Log : Type 0 where
  pub rotated : List (List LogLine)
  pub current : List LogLine

-- over the rotated segments, from the oldest: the newest with a line decides
rotated_tail : List (List LogLine) → Option String × Bool
unfolding tail_hash
rotated_tail [] = (none, false)
rotated_tail (seg ∷ segs) =
    let later = rotated_tail segs in if later.1 then later else (tail_hash seg, non_empty seg)

-- `_chain_tail`: the hash to chain from, and whether a newline is needed first
unfoldable pub chain_tail : Log → Option String × Bool
unfolding tail_hash rotated_tail
chain_tail log =
    if non_empty log.current
    then (tail_hash log.current, not (ends_nl log.current))
    else ((rotated_tail log.rotated).0, false)

-- the tail, or what stands for it where reading it raises: the chain then starts again
unfoldable pub read_tail : Bool → Log → Option String × Bool
read_tail tail_read log = if tail_read then chain_tail log else (none, false)

-- `_rotate_if_needed`: the current file becomes the newest segment
unfoldable pub rotate : ℕ → Log → Log
rotate max_bytes log =
    if non_empty log.current && leb max_bytes (bytes log.current)
    then record { rotated = log.rotated ++ log.current ∷ []; current = [] }
    else log

-- the newline that ends an unterminated last line
terminate : List LogLine → List LogLine
terminate [] = []
terminate (l ∷ []) = record l { terminated = true; size = l.size + 1 } ∷ []
terminate (l ∷ m ∷ ls) = l ∷ terminate (m ∷ ls)

-- Two texts on one line: behind anything but white space an object is no JSON.
joined : Content → Content → Content
joined blank c = c
joined _ c = bad

-- the lines with bytes behind them, which go on an unterminated last line
glued : List LogLine → LogLine → List LogLine
unfolding joined
glued [] l = l ∷ []
glued (k ∷ []) l =
    if k.terminated
    then k ∷ l ∷ []
    else record {
      content = joined k.content l.content;
      terminated = l.terminated;
      size = k.size + l.size;
    }
      ∷ []
glued (k ∷ m ∷ ls) l = let rest = glued (m ∷ ls) l in k ∷ rest

-- How the write of a record ends: whole, not at all, or cut short after some bytes of it, which are
-- then the content of an unterminated line.
pub data WriteResult : Type 0 where
  whole : WriteResult
  failed : WriteResult
  torn : Content → ℕ → WriteResult

-- `dict(record)` with the two hashes put in last
pub with_hashes : Fields → String → String → Fields
with_hashes end prev h = field "prev_hash" (str prev) (field "record_hash" (str h) end)
with_hashes (field k v fs) prev h = field k v (with_hashes fs prev h)

abbrev pub or_genesis : Option String → String
or_genesis none = genesis_hash
or_genesis (some h) = h

module _ (hs : Hashing) where
  -- `_record_hash`
  unfoldable pub record_hash : String → Fields → Option String
  record_hash prev bare = hs.sha256 (prev <> hs.canonical_json bare)

  -- the line of a chained record
  unfoldable pub chained_line : Fields → String → String → LogLine
  unfolding with_hashes
  chained_line bare prev h = record {
    content = value (obj (with_hashes bare prev h));
    terminated = true;
    size = hs.line_size (with_hashes bare prev h);
  }

  -- The file with a line behind it. Where its tail was read, it ends in a newline by now.
  behind : Bool → List LogLine → LogLine → List LogLine
  unfolding glued
  behind tail_read ls l = if tail_read then ls ++ l ∷ [] else glued ls l

  written : Bool → WriteResult → LogLine → List LogLine → List LogLine
  unfolding behind
  written tail_read whole l ls = behind tail_read ls l
  written tail_read failed l ls = ls
  written tail_read (torn c n) l ls =
      if nat_eq n 0
      then ls
      else behind tail_read ls (record { content = c; terminated = false; size = n })

  -- the write itself, behind the newline that an unterminated line needs; a write that fails at once
  -- leaves that newline out as well
  write_line : Bool → WriteResult → Bool → LogLine → List LogLine → List LogLine
  unfolding written terminate
  write_line tail_read failed needs_nl l ls = ls
  write_line tail_read w needs_nl l ls =
      written tail_read w l (if needs_nl then terminate ls else ls)

  append_hashed : Bool → WriteResult → Bool → Fields → String → Option String → Log → Log
  unfolding write_line chained_line
  append_hashed tail_read w needs_nl bare prev none log = log
  append_hashed tail_read w needs_nl bare prev (some h) log = record log {
    current = write_line tail_read w needs_nl (chained_line bare prev h) log.current;
  }

  -- `_append`, once the lock is held: it returns whatever happens, also where the tail cannot be read
  pub append : Bool → ℕ → WriteResult → Fields → Log → Log
  unfolding append_hashed record_hash rotate read_tail
  append tail_read max_bytes w bare log =
      let (tail, needs_nl) = read_tail tail_read log in
      let log' = rotate max_bytes log in
      let prev = or_genesis tail in
      append_hashed tail_read w (needs_nl && non_empty log'.current) bare prev
        (record_hash prev bare) log'
