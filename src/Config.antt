-- ===== src/Config.antt =====
-- src/zee/config/schema.py: the asset profiles, and the loader of assets.toml from parsed TOML.
pub mod Validity
pub mod Decoys
use zee.Prelude.{
  ℕ, String, Bool, true, false, not, ◌&&◌, Option, none, some, List, [], ◌∷◌, ◌==◌, contains,
  has_nul, starts_with, if◌then◌else◌,
}
use zee.Prelude.Json
use zee.Prelude.Json.{Json, Items, Fields, str, int, arr, obj, nil, cons, texts, show_int, truth}
use zee.Errors.{
  ZeeError, Result, ok, err, ◌>>=◌, ◌>>◌, require, invalid_asset_config, invalid_response_mode,
  invalid_cut_method,
}

abbrev pub valid_response_modes : List String
valid_response_modes = "auto" ∷ "staged" ∷ "notify" ∷ []

abbrev pub valid_cut_methods : List String
valid_cut_methods = "full" ∷ "egress" ∷ []

abbrev pub valid_asset_types : List String
valid_asset_types = "workstation" ∷ "server" ∷ "ot" ∷ []

-- `id` is a word of the source that stays a field name here.
pub record AssetProfile : Type 0 where
  pub id : String
  pub type : String
  pub overnight_active : Bool
  pub decoy_paths : List String
  pub response_mode : String
  pub cut_method : String

pub record Config : Type 0 where
  pub assets : List AssetProfile
  pub dry_run : Bool
  pub privsep_socket : Option String

-- An integer id is taken by its digits; a bool is no integer here.
asset_id_of : Option Json → Result String
asset_id_of (some (str s)) = ok s
asset_id_of (some (int n)) = ok (show_int n)
asset_id_of _ = err invalid_asset_config

decoys_of : Json → Result (List String)
decoys_of (arr xs) = elim (texts xs) [ none ↦ err invalid_asset_config | some ds ↦ ok ds ]
decoys_of _ = err invalid_asset_config

-- `v = raw.get(key, default)`, refused with `e` unless it is one of the texts `valid`
choice_of : List String → ZeeError → Json → Result String
choice_of valid e (str s) = if contains s valid then ok s else err e
choice_of valid e _ = err e

unfoldable pub parse_asset : Fields → Result AssetProfile
unfolding asset_id_of decoys_of choice_of
parse_asset raw = do
  asset_id ← asset_id_of (Json.get "id" raw)
  decoys ← decoys_of (Json.get_or "decoy_paths" (arr nil) raw)
  asset_type ←
      choice_of valid_asset_types invalid_asset_config (Json.get_or "type" (str "workstation") raw)
  response_mode ←
      choice_of valid_response_modes invalid_response_mode
        (Json.get_or "response_mode" (str "notify") raw)
  cut_method ←
      choice_of valid_cut_methods invalid_cut_method (Json.get_or "cut_method" (str "full") raw)
  ok (record {
    id = asset_id;
    type = asset_type;
    overnight_active = truth (Json.get_or "overnight_active" (Json.bool false) raw);
    decoy_paths = decoys;
    response_mode = response_mode;
    cut_method = cut_method;
  })

asset_of : Json → Result AssetProfile
unfolding parse_asset
asset_of (obj a) = parse_asset a
asset_of _ = err invalid_asset_config

-- the loop over `raw_assets`: the first bad table ends the load
assets_of : Items → Result (List AssetProfile)
unfolding asset_of
assets_of nil = ok []
assets_of (cons a rest) = asset_of a >>= λ asset. assets_of rest >>= λ assets. ok (asset ∷ assets)

asset_list_of : Json → Result (List AssetProfile)
unfolding assets_of
asset_list_of (arr xs) = assets_of xs
asset_list_of _ = err invalid_asset_config

socket_path_of : Option Json → Result (Option String)
unfolding has_nul
socket_path_of (some (str sock)) =
    if not (starts_with sock "/")
    then err invalid_asset_config
    else if has_nul sock
    then err invalid_asset_config
    else ok (some sock)
socket_path_of _ = err invalid_asset_config

-- `[privsep]`: absent is `None`; anything but a table with an absolute `socket` is refused
socket_of : Option Json → Result (Option String)
unfolding socket_path_of
socket_of none = ok none
socket_of (some (obj privsep)) = socket_path_of (Json.get "socket" privsep)
socket_of (some _) = err invalid_asset_config

-- `load_file` after `tomllib.load`: `none` stands for its OSError or ValueError.
unfoldable pub load_file : Option Json → Result Config
unfolding asset_list_of socket_of
load_file (some (obj raw)) = do
  assets ← asset_list_of (Json.get_or "assets" (arr nil) raw)
  let dry_run = truth (Json.get_or "dry_run" (Json.bool true) raw)
  sock ← socket_of (Json.get "privsep" raw)
  ok (record { assets = assets; dry_run = dry_run; privsep_socket = sock })
load_file _ = err invalid_asset_config

find_asset : List AssetProfile → String → Option AssetProfile
find_asset [] asset_id = none
find_asset (a ∷ rest) asset_id = if a.id == asset_id then some a else find_asset rest asset_id

unfoldable pub find : Config → String → Option AssetProfile
unfolding find_asset
find c asset_id = find_asset c.assets asset_id
