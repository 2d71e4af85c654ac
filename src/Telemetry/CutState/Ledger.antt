-- ===== src/Telemetry/CutState/Ledger.antt =====
-- src/zee/telemetry/cut_state.py, `CutStateLog`: the file as its lines, its writers and its reader.
use Prim.Native.Char.{code}
use zee.Prelude.{
  any, nat_eq, String, Bool, true, false, not, ◌&&◌, ◌||◌, Option, none, some, List, [], ◌∷◌, ◌++◌,
  ◌==◌, without, if◌then◌else◌,
}
use zee.Prelude.Json.{Json, Items, Fields, str, arr, obj, nil, cons, field, end}
use zee.Prelude.Time.{Instant, IsoTime}
use zee.Errors.{Result, ok, err}
use zee.Telemetry.CutState.{
  Kind, firewall, nmcli, iface, CutRecord, Entry, cut, resolved, entries, parse,
}

-- What `json.loads` makes of a stripped line.
pub data Line : Type 0 where
  blank : Line
  malformed : Line
  value : Json → Line

-- `missing`: no file. `unreadable`: an OSError or invalid UTF-8 on reading. `unended`: the last line lacks its
-- newline.
pub data LedgerFile : Type 0 where
  missing : LedgerFile
  unreadable : LedgerFile
  lines : List Line → LedgerFile
  unended : List Line → Line → LedgerFile

-- a character that `json.dumps` writes as it is and at which `str.splitlines` breaks a line
unfoldable pub breaks : String → Bool
breaks String.[] = false
breaks (String.◌∷◌ c s) =
    nat_eq (code c) 0x85 || nat_eq (code c) 0x2028 || nat_eq (code c) 0x2029 || breaks s

-- The line of a record as the reader finds it, by the texts in it. A text that breaks leaves the record
-- in pieces, of which the first is an open string and none is a record.
unfoldable pub line_of : List String → Json → Line
line_of texts rec = if any breaks texts then malformed else value rec

-- Two texts on one line: behind anything but white space an object is no JSON.
joined : Line → Line → Line
joined blank l = l
joined _ l = malformed

ended : Bool → List Line → Line → LedgerFile
ended true ls l = lines (ls ++ l ∷ [])
ended false ls l = unended ls l

-- what the file is with a text behind what it held, with or without a newline at its end
unfoldable pub put_line : Bool → Line → LedgerFile → LedgerFile
unfolding joined ended
put_line newline l missing = ended newline [] l
put_line newline l unreadable = unreadable
put_line newline l (lines ls) = ended newline ls l
put_line newline l (unended ls k) = ended newline ls (joined k l)

-- How the write ends: whole, before its first byte, or after some of them, with what these read as.
pub data Written : Type 0 where
  whole : Written
  failed : Written
  part : Line → Written

-- `_append`
unfoldable pub append : Written → List String → Json → LedgerFile → LedgerFile
append whole texts rec file = put_line true (line_of texts rec) file
append failed texts rec file = file
append (part l) texts rec file = put_line false l file

unfoldable pub items_of : List String → Items
items_of [] = nil
items_of (s ∷ ss) = cons (str s) (items_of ss)

module _ (iso : IsoTime) where
  -- `record_cut`; the optional "verified" note comes last
  unfoldable pub cut_json : String → String → String → List String → Option String → Instant → Json
  unfolding items_of
  cut_json asset_id method platform modified verified now =
      let note : Fields = elim verified [ none ↦ end | some v ↦ field "verified" (str v) end ] in
      obj (
        field "type" (str "cut") (
          field "asset_id" (str asset_id) (
            field "cut_at" (str (iso.isoformat now)) (
              field "method" (str method) (
                field "platform" (str platform)
                  (field "modified" (arr (items_of modified)) note))))))

  -- the texts of that record
  unfoldable pub cut_texts :
      String → String → String → List String → Option String → Instant → List String
  cut_texts asset_id method platform modified verified now =
      asset_id
      ∷ iso.isoformat now
      ∷ method
      ∷ platform
      ∷ (modified ++ elim verified [ none ↦ [] | some v ↦ v ∷ [] ])

  -- where the write comes whole
  unfoldable pub record_cut :
      String → String → String → List String → Option String → Instant → LedgerFile → LedgerFile
  unfolding append put_line cut_json
  record_cut asset_id method platform modified verified now =
      append whole (cut_texts asset_id method platform modified verified now)
        (cut_json asset_id method platform modified verified now)

  unfoldable pub resolved_json : String → Instant → Json
  resolved_json asset_id now = obj (
      field "type" (str "resolved")
        (field "asset_id" (str asset_id) (field "resolved_at" (str (iso.isoformat now)) end)))

  unfoldable pub mark_resolved : Written → String → Instant → LedgerFile → LedgerFile
  unfolding append put_line resolved_json
  mark_resolved written asset_id now =
      append written (asset_id ∷ iso.isoformat now ∷ []) (resolved_json asset_id now)

abbrev pub kind_eq : Kind → Kind → Bool
kind_eq firewall firewall = true
kind_eq nmcli nmcli = true
kind_eq iface iface = true
kind_eq _ _ = false

-- `p in pairs`
unfoldable pub has_pair : Kind × String → List (Kind × String) → Bool
has_pair p [] = false
has_pair p (q ∷ qs) = kind_eq p.0 q.0 && p.1 == q.1 || has_pair p qs

-- `tuple(p for p in new if p not in old)`
unfoldable pub without_pairs : List (Kind × String) → List (Kind × String) → List (Kind × String)
unfolding has_pair
without_pairs old [] = []
without_pairs old (p ∷ ps) =
    let rest = without_pairs old ps in if has_pair p old then rest else p ∷ rest

-- The ordered union of what the earlier cuts changed with what this one did.
unfoldable pub merge : Option CutRecord → CutRecord → CutRecord
unfolding without without_pairs entries
merge none r = record r {
  modified = [] ++ without [] r.modified;
  pairs = without_pairs [] (entries r);
}
merge (some c) r = record r {
  modified = c.modified ++ without c.modified r.modified;
  pairs = entries c ++ without_pairs (entries c) (entries r);
}

-- (candidate, damaged)
abbrev pub Scan : Type 0
Scan = Option CutRecord × Bool

abbrev pub platform_differs : Option CutRecord → CutRecord → Bool
platform_differs none r = false
platform_differs (some c) r = not (c.platform == r.platform)

-- One well-formed line; only the asset's own lines count.
unfoldable pub scan_entry : String → Entry → Scan → Scan
unfolding merge
scan_entry a (cut r) (candidate, damaged) =
    if r.asset_id == a
    then (some (merge candidate r), damaged || platform_differs candidate r)
    else (candidate, damaged)
scan_entry a (resolved b) (candidate, damaged) =
    if b == a then (none, damaged) else (candidate, damaged)

abbrev pub scan_parsed : String → Result Entry → Scan → Scan
scan_parsed a (ok e) s = scan_entry a e s
scan_parsed a (err _) (candidate, damaged) = (candidate, true)

module _ (iso : IsoTime) where
  unfoldable pub scan_line : String → Line → Scan → Scan
  unfolding scan_entry
  scan_line a blank s = s
  scan_line a malformed (candidate, damaged) = (candidate, true)
  scan_line a (value v) s = scan_parsed a (parse iso v) s

  -- the loop over the lines
  unfoldable pub scan : String → List Line → Scan → Scan
  scan a [] s = s
  scan a (l ∷ ls) s = scan a ls (scan_line a l s)

  unfoldable pub unresolved_for : String → LedgerFile → Scan
  unfolding scan
  unresolved_for a missing = (none, false)
  unresolved_for a unreadable = (none, true)
  unresolved_for a (lines ls) = scan a ls (none, false)
  unresolved_for a (unended ls l) = scan a (ls ++ l ∷ []) (none, false)

  unfoldable pub latest_unresolved_for : String → LedgerFile → Option CutRecord
  unfolding unresolved_for
  latest_unresolved_for a f = (unresolved_for a f).0
