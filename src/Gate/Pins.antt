-- ===== src/Gate/Pins.antt =====
-- src/zee/gate/pins.py: the registry of promoted artifacts, from its lines once they are decoded.
pub mod Latest
use Prim.Native.Nat.{Ordering}
use Prim.Native.String.{compare}
use zee.Prelude.{
  String, Bool, true, false, ◌≡◌, refl, Option, none, some, List, [], ◌∷◌, ◌==◌, arith,
  if◌then◌else◌,
}
use zee.Prelude.Json
use zee.Prelude.Json.{Json, Fields, str, obj, field, end}
use zee.Prelude.Time.{Instant, IsoTime}
use zee.Errors.{Result, ok, err, ◌>>=◌, value_error}

pub record Pin : Type 0 where
  pub name : String
  pub kind : String
  pub source : String
  pub content_hash : String
  pub install_dir : String
  pub pinned_at : Instant

-- A field that later code uses as a text; `from_dict` itself does not check the type.
text_of : Option Json → Result String
text_of (some (str s)) = ok s
text_of _ = err value_error

module _ (iso : IsoTime) where
  instant_of : String → Result Instant
  instant_of s = elim (iso.fromisoformat s) [ none ↦ err value_error | some t ↦ ok t ]

  -- `Pin.from_dict`, on values that are texts
  pub from_dict : Fields → Result Pin
  unfolding text_of instant_of
  from_dict d = do
    name ← text_of (Json.get "name" d)
    kind ← text_of (some (Json.get_or "kind" (str "package") d))
    source ← text_of (some (Json.get_or "source" (str "") d))
    content_hash ← text_of (Json.get "content_hash" d)
    install_dir ← text_of (Json.get "install_dir" d)
    stamp ← text_of (Json.get "pinned_at" d)
    pinned_at ← instant_of stamp
    ok (record {
      name = name;
      kind = kind;
      source = source;
      content_hash = content_hash;
      install_dir = install_dir;
      pinned_at = pinned_at;
    })

  -- `Pin.to_dict`
  pub to_dict : Pin → Fields
  to_dict p = field "name" (str p.name) (
      field "kind" (str p.kind) (
        field "source" (str p.source) (
          field "content_hash" (str p.content_hash) (
            field "install_dir" (str p.install_dir)
              (field "pinned_at" (str (iso.isoformat p.pinned_at)) end)))))

  -- A pin that is written is read back as it was.
  pub from_dict-to_dict : (p : Pin) → from_dict (to_dict p) ≡ ok p
  unfolding from_dict to_dict Json.get Json.get_or ◌>>=◌
  from_dict-to_dict p = ground (arith, iso.fromisoformat-isoformat p.pinned_at)

  -- `_read_all`: a line that is blank or malformed (`none`) or no pin is skipped
  pub read_all : List (Option Json) → List Pin
  unfolding from_dict
  read_all [] = []
  read_all (some (obj d) ∷ ls) = elim (from_dict d) [ ok p ↦ p ∷ read_all ls | err _ ↦ read_all ls ]
  read_all (_ ∷ ls) = read_all ls

-- `latest[rec.install_dir] = rec`
upsert : Pin → List Pin → List Pin
upsert p [] = p ∷ []
upsert p (q ∷ qs) =
    let rest = upsert p qs in if p.install_dir == q.install_dir then p ∷ qs else q ∷ rest

latest_from : List Pin → List Pin → List Pin
unfolding upsert
latest_from acc [] = acc
latest_from acc (p ∷ ps) = latest_from (upsert p acc) ps

dir_le : String → String → Bool
dir_le a b = elim (compare a b) [ Ordering.gt ↦ false | _ ↦ true ]

insert_pin : Pin → List Pin → List Pin
unfolding dir_le
insert_pin p [] = p ∷ []
insert_pin p (q ∷ qs) =
    let rest = insert_pin p qs in
    if dir_le p.install_dir q.install_dir then p ∷ q ∷ qs else q ∷ rest

-- `sorted(…, key=lambda p: p.install_dir)`
sort_pins : List Pin → List Pin
unfolding insert_pin
sort_pins [] = []
sort_pins (p ∷ ps) = insert_pin p (sort_pins ps)

-- `PinRegistry.all`
unfoldable pub all_pins : List Pin → List Pin
unfolding latest_from sort_pins
all_pins recs = sort_pins (latest_from [] recs)
