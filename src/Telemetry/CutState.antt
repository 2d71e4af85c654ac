-- ===== src/Telemetry/CutState.antt =====
-- src/zee/telemetry/cut_state.py: the append-only ledger of cuts and their resolution.
pub mod Ledger
pub mod Merge
pub mod Outstanding
pub mod RoundTrip
use zee.Prelude.{
  String, Bool, true, false, not, ◌&&◌, ◌||◌, Option, none, some, List, [], ◌∷◌, ◌++◌, map, ◌==◌,
  ◌<>◌, any, contains, truthy, starts_with, if◌then◌else◌,
}
use zee.Prelude.Json
use zee.Prelude.Json.{Json, Fields, str, arr, obj, texts}
use zee.Prelude.Time.{Instant, IsoTime}
use zee.Errors.{Result, ok, err, ◌>>=◌, ◌>>◌, require, value_error}

abbrev pub sentinel_linux_nmcli : String
sentinel_linux_nmcli = "__zee_nmcli_networking__"

abbrev pub sentinel_linux_iptables_egress : String
sentinel_linux_iptables_egress = "__zee_iptables_egress_chain__"

abbrev pub sentinel_linux_ip6tables_egress : String
sentinel_linux_ip6tables_egress = "__zee_ip6tables_egress_chain__"

abbrev pub ipt_backend_prefix : String
ipt_backend_prefix = "__zee_iptables_backend__:"

-- The first part of a pair of `entries`.
pub data Kind : Type 0 where
  firewall nmcli iface : Kind

pub record CutRecord : Type 0 where
  pub asset_id : String
  pub cut_at : Instant
  pub method : String
  pub platform : String
  pub modified : List String
  pub pairs : List (Kind × String)

-- `_kind`: from the cut method of the line that recorded the name
unfoldable pub kind_of : String → String → String → Kind × String
kind_of method platform name =
    if method == "egress"
    then (firewall, name)
    else if starts_with platform "linux" && name == sentinel_linux_nmcli
    then (nmcli, name)
    else (iface, name)

or_pairs : List (Kind × String) → List (Kind × String) → List (Kind × String)
or_pairs [] ps = ps
or_pairs (p ∷ qs) ps = p ∷ qs

-- `self.pairs or tuple(_kind(…) for m in self.modified)`
unfoldable pub entries : CutRecord → List (Kind × String)
unfolding or_pairs kind_of
entries r = or_pairs r.pairs (map (kind_of r.method r.platform) r.modified)

-- A line of the ledger, once validated.
pub data Entry : Type 0 where
  cut : CutRecord → Entry
  resolved : String → Entry

-- `raw[key]` where a text is needed
unfoldable pub text_at : String → Fields → Result String
text_at k raw = elim (Json.get k raw) [ some (str s) ↦ ok s | _ ↦ err value_error ]

-- `raw.get(key) == text`
unfoldable pub has_text : String → String → Fields → Bool
has_text k t raw = elim (Json.get k raw) [ some (str s) ↦ s == t | _ ↦ false ]

-- `raw["modified"]`: a non-empty list of non-empty texts
unfoldable pub modified_of : Option Json → Result (List String)
unfolding texts truthy
modified_of (some (arr xs)) = elim (texts xs) [
  | none ↦ err value_error
  | some [] ↦ err value_error
  | some (m ∷ ms) ↦ if any (λ s. not (truthy s)) (m ∷ ms) then err value_error else ok (m ∷ ms)
]
modified_of _ = err value_error

-- An iptables cut that does not name its backend is recorded as made on an unknown one.
unfoldable pub with_backend : List String → List String
with_backend ms =
    if (contains sentinel_linux_iptables_egress ms || contains sentinel_linux_ip6tables_egress ms)
      && not (any (λ m. starts_with m ipt_backend_prefix) ms)
    then ms ++ (ipt_backend_prefix <> "unknown") ∷ []
    else ms

abbrev pub known_platform : String → Bool
known_platform p = starts_with p "linux" || starts_with p "darwin" || starts_with p "win32"

abbrev pub known_method : String → Bool
known_method m = m == "full" || m == "egress"

module _ (iso : IsoTime) where
  -- `datetime.fromisoformat(raw[key])`
  unfoldable pub instant_at : String → Fields → Result Instant
  unfolding text_at
  instant_at k raw =
      text_at k raw >>= λ s. elim (iso.fromisoformat s) [ none ↦ err value_error | some t ↦ ok t ]

  parse_cut : String → Fields → Result Entry
  unfolding instant_at modified_of with_backend
  parse_cut asset_id raw = do
    cut_at ← instant_at "cut_at" raw
    method ← text_at "method" raw
    require (known_method method) value_error
    platform ← text_at "platform" raw
    require (known_platform platform) value_error
    modified ← modified_of (Json.get "modified" raw)
    ok (
        cut (record {
          asset_id = asset_id;
          cut_at = cut_at;
          method = method;
          platform = platform;
          modified = with_backend modified;
          pairs = [];
        }))

  parse_resolved : String → Fields → Result Entry
  unfolding instant_at
  parse_resolved asset_id raw = do
    t ← instant_at "resolved_at" raw
    require t.aware value_error
    ok (resolved asset_id)

  -- the tests on `raw.get("type")`
  parse_typed : String → Fields → Result Entry
  unfolding parse_cut parse_resolved has_text
  parse_typed asset_id raw =
      if has_text "type" "resolved" raw
      then parse_resolved asset_id raw
      else if has_text "type" "cut" raw
      then parse_cut asset_id raw
      else err value_error

  -- `_parse`, with every ValueError, KeyError and TypeError as `value_error`
  unfoldable pub parse : Json → Result Entry
  unfolding parse_typed truthy text_at
  parse (obj raw) = do
    asset_id ← text_at "asset_id" raw
    require (truthy asset_id) value_error
    parse_typed asset_id raw
  parse _ = err value_error
