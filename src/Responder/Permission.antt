-- ===== src/Responder/Permission.antt =====
-- src/zee/responder/permission.py: the operator's permission for automatic containment.
-- The file is what one reading of it meets; the reason texts of `Invalid` are left out.
pub mod Policy
pub mod Decision
pub mod RoundTrip
use zee.Prelude.{
  ℕ, zero, suc, String, Bool, true, false, not, ◌&&◌, ◌||◌, Option, none, some, List, [], ◌∷◌, ◌==◌,
  nat_eq, contains, is_blank, is_hex64, if◌then◌else◌,
}
use zee.Prelude.Json
use zee.Prelude.Json.{Json, Fields, ℤ, pos, negsuc, str, int, bool, obj, field, end}
use zee.Prelude.Time.{Instant, IsoTime}
use zee.Errors.{ZeeError, Result, ok, err, ◌>>=◌, ◌>>◌, require, value_error}
use zee.Config.{AssetProfile, Config}
use zee.Events.{TrapEvent}
use zee.Policy.{resolve, is_contain}
use Policy.{PolicyEntry, policy_entries}

pub record Permission : Type 0 where
  pub schema_version : ℤ
  pub enabled : Bool
  pub revision : ℤ
  pub instance_id : String
  pub policy_hash : String
  pub disclosure_version : String
  pub changed_by : String
  pub changed_at : Instant

-- `Permission | Invalid | None`
pub data Loaded : Type 0 where
  permission : Permission → Loaded
  invalid : Loaded
  absent : Loaded

abbrev permission_keys : List String
permission_keys =
    "schema_version" ∷ "enabled" ∷ "revision" ∷ "instance_id" ∷ "policy_hash" ∷ "disclosure_version"
    ∷ "changed_by" ∷ "changed_at" ∷ []

-- `Permission(**raw)` takes no other key
known_keys : Fields → Bool
unfolding contains
known_keys end = true
known_keys (field k v fs) = contains k permission_keys && known_keys fs

is_one : ℤ → Bool
is_one (pos n) = nat_eq n 1
is_one (negsuc n) = false

is_positive : ℤ → Bool
is_positive (pos zero) = false
is_positive (pos (suc n)) = true
is_positive (negsuc n) = false

int_at : String → Fields → Result ℤ
int_at k raw = elim (Json.get k raw) [ some (int n) ↦ ok n | _ ↦ err value_error ]

bool_at : String → Fields → Result Bool
bool_at k raw = elim (Json.get k raw) [ some (bool b) ↦ ok b | _ ↦ err value_error ]

-- a text that is not blank
filled_of : Option Json → Result String
filled_of (some (str s)) = if is_blank s then err value_error else ok s
filled_of _ = err value_error

module _ (iso : IsoTime) where
  changed_at_of : String → Result Instant
  changed_at_of s = elim (iso.fromisoformat s) [ none ↦ err value_error | some t ↦ ok t ]

  -- `_decode` on an object
  unfoldable pub decode_fields : Fields → Result Permission
  unfolding int_at bool_at filled_of changed_at_of is_one is_positive known_keys
  decode_fields raw = do
    version ← int_at "schema_version" raw
    require (is_one version) value_error
    enabled ← bool_at "enabled" raw
    revision ← int_at "revision" raw
    require (is_positive revision) value_error
    instance_id ← filled_of (Json.get "instance_id" raw)
    policy_hash ← filled_of (Json.get "policy_hash" raw)
    disclosure_version ← filled_of (Json.get "disclosure_version" raw)
    changed_by ← filled_of (Json.get "changed_by" raw)
    changed_text ← filled_of (Json.get "changed_at" raw)
    require (is_hex64 policy_hash) value_error
    require (disclosure_version == "1") value_error
    changed_at ← changed_at_of changed_text
    require changed_at.aware value_error
    require (known_keys raw) value_error
    ok (record {
      schema_version = version;
      enabled = enabled;
      revision = revision;
      instance_id = instance_id;
      policy_hash = policy_hash;
      disclosure_version = disclosure_version;
      changed_by = changed_by;
      changed_at = changed_at;
    })

  pub decode : Json → Result Permission
  unfolding decode_fields
  decode (obj raw) = decode_fields raw
  decode _ = err value_error

-- What opening and reading the file meets.
pub record FileState : Type 0 where
  pub regular : Bool
  pub mode : ℕ
  pub parent_mode : ℕ
  pub content : Option Json  -- `none`: no JSON, or no UTF-8

pub data OpenResult : Type 0 where
  not_found os_error : OpenResult
  opened : FileState → OpenResult

-- The path as `load` finds it.
pub record FileView : Type 0 where
  pub parent_is_link : Bool
  pub is_link : Bool
  pub posix : Bool  -- `os.name != "nt"`
  pub opening : OpenResult

abbrev pub file_mode : ℕ
file_mode = 0o600

abbrev pub dir_mode : ℕ
dir_mode = 0o700

module _ (iso : IsoTime) where
  -- `json.dumps(asdict(perm))`
  unfoldable pub encode : Permission → Fields
  encode p = field "changed_at" (str (iso.isoformat p.changed_at)) (
      field "changed_by" (str p.changed_by) (
        field "disclosure_version" (str p.disclosure_version) (
          field "enabled" (bool p.enabled) (
            field "instance_id" (str p.instance_id) (
              field "policy_hash" (str p.policy_hash) (
                field "revision" (int p.revision)
                  (field "schema_version" (int p.schema_version) end)))))))

-- `instance_id` is the hash of the resolved state directory
module _ (iso : IsoTime) (instance_id : String) where
  accept : Result Permission → Loaded
  accept (ok perm) = if perm.instance_id == instance_id then permission perm else invalid
  accept (err _) = invalid

  read_content : Option Json → Loaded
  unfolding accept
  read_content none = invalid
  read_content (some v) = accept (decode iso v)

  read_file : Bool → FileState → Loaded
  unfolding read_content
  read_file posix f =
      if not f.regular
      then invalid
      else if posix && (not (nat_eq f.mode file_mode) || not (nat_eq f.parent_mode dir_mode))
      then invalid
      else read_content f.content

  load_opened : Bool → OpenResult → Loaded
  unfolding read_file
  load_opened posix not_found = absent
  load_opened posix os_error = invalid
  load_opened posix (opened f) = read_file posix f

  pub load : FileView → Loaded
  unfolding load_opened
  load v = if v.parent_is_link || v.is_link then invalid else load_opened v.posix v.opening

  -- `save` where no OSError stops it: a refused link or a bad record raises, else the file is
  -- replaced by a regular one with the owner's modes.
  unfoldable pub save : Permission → FileView → Result FileView
  save p v = do
    _ ← decode_fields iso (encode iso p)
    require (p.instance_id == instance_id) value_error
    require (not v.is_link) value_error
    require (not v.parent_is_link) value_error
    ok (record v {
      opening = opened (record {
        regular = true;
        mode = file_mode;
        parent_mode = dir_mode;
        content = some (obj (encode iso p));
      });
    })

module _ (digest : List PolicyEntry → String) where
  -- `policy_hash`
  unfoldable pub policy_hash : Config → String
  policy_hash c = digest (policy_entries c.assets)

  permitted : Loaded → Config → Bool × Option String
  unfolding policy_hash
  permitted absent config = (false, some "no_permission")
  permitted invalid config = (false, some "state_invalid")
  permitted (permission perm) config =
      if not perm.enabled
      then (false, some "auto_off")
      else if not (perm.policy_hash == policy_hash config)
      then (false, some "policy_mismatch")
      else (true, none)

  -- `decide`, by what it reads of the event
  unfoldable pub decide_on :
      (confidence op_class : String) → AssetProfile → Config → Loaded → Bool × Option String
  unfolding permitted
  decide_on confidence op_class asset config perm =
      if not (is_contain (resolve asset).mode)
      then (false, some "mode_not_contain")
      else if not (confidence == "high")
      then (false, some "confidence_not_high")
      else if not (op_class == "change")
      then (false, some "op_class_not_change")
      else if config.dry_run
      then (false, some "dry_run")
      else permitted perm config

  pub decide : TrapEvent → AssetProfile → Config → Loaded → Bool × Option String
  decide event = decide_on event.confidence event.op_class
