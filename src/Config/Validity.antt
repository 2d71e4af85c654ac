-- ===== src/Config/Validity.antt =====
-- What the loader of src/zee/config/schema.py promises of a profile that it accepts.
use zee.Prelude.{String, true, ◌≡◌, refl, none, some, List, arith, All, contains}
use zee.Prelude.Json
use zee.Prelude.Json.{Json, Items, Fields, str, arr, obj, bool, nil, cons, field, end, truth}
use zee.Errors.{
  ZeeError, ok, invalid_asset_config, invalid_response_mode, invalid_cut_method, Ensures,
  bind-Ensures, trivial-Ensures, ok-Ensures, err-Ensures,
}
use zee.Config.{
  AssetProfile, Config, parse_asset, choice_of, asset_of, assets_of, asset_list_of, load_file,
  valid_asset_types, valid_response_modes, valid_cut_methods,
}

pub record IsValid (a : AssetProfile) : Type 0 where
  pub type_known : contains a.type valid_asset_types ≡ true
  pub mode_known : contains a.response_mode valid_response_modes ≡ true
  pub method_known : contains a.cut_method valid_cut_methods ≡ true

choice_of-known :
    (valid : List String) (e : ZeeError) (v : Json)
    → Ensures (λ s. contains s valid ≡ true) (choice_of valid e v)
unfolding choice_of
choice_of-known valid e (str t) = record { holds = λ s h. ground arith }
choice_of-known valid e Json.null = err-Ensures _ _
choice_of-known valid e _ = err-Ensures _ _

parse_asset-IsValid : (raw : Fields) → Ensures IsValid (parse_asset raw)
unfolding parse_asset
parse_asset-IsValid raw = bind-Ensures (trivial-Ensures _) λ i _.
    bind-Ensures (trivial-Ensures _) λ ds _.
      bind-Ensures (choice_of-known valid_asset_types invalid_asset_config _) λ t ht.
        bind-Ensures (choice_of-known valid_response_modes invalid_response_mode _) λ m hm.
          bind-Ensures (choice_of-known valid_cut_methods invalid_cut_method _)
            λ c hc. ok-Ensures _ (record { type_known = ht; mode_known = hm; method_known = hc })

asset_of-IsValid : (v : Json) → Ensures IsValid (asset_of v)
unfolding asset_of
asset_of-IsValid (obj raw) = parse_asset-IsValid raw
asset_of-IsValid Json.null = err-Ensures _ _
asset_of-IsValid _ = err-Ensures _ _

assets_of-IsValid : (xs : Items) → Ensures (All IsValid) (assets_of xs)
unfolding assets_of
assets_of-IsValid nil = ok-Ensures _ tt
assets_of-IsValid (cons v rest) =
    bind-Ensures (asset_of-IsValid v)
      λ a ha. bind-Ensures (assets_of-IsValid rest) λ l hl. ok-Ensures _ (ha, hl)

asset_list_of-IsValid : (v : Json) → Ensures (All IsValid) (asset_list_of v)
unfolding asset_list_of
asset_list_of-IsValid (arr xs) = assets_of-IsValid xs
asset_list_of-IsValid Json.null = err-Ensures _ _
asset_list_of-IsValid _ = err-Ensures _ _

-- What the loader promises of the config that it makes from a top table.
abbrev pub Loaded : Fields → Config → Type 0
Loaded raw c = All IsValid c.assets × (Json.get "dry_run" raw ≡ none → c.dry_run ≡ true)

get_or-absent :
    (k : String) (d : Json) (fs : Fields) → Json.get k fs ≡ none → Json.get_or k d fs ≡ d
unfolding Json.get Json.get_or
get_or-absent k d end h = refl
get_or-absent k d (field j v fs) h = ground (arith, get_or-absent k d fs)

load_file-Loaded : (raw : Fields) → Ensures (Loaded raw) (load_file (some (obj raw)))
unfolding load_file truth
load_file-Loaded raw = bind-Ensures (asset_list_of-IsValid _) λ l hl.
    bind-Ensures (trivial-Ensures _)
      λ s _. ok-Ensures _ (hl, λ absent. rw (get_or-absent _ _ _ absent))

-- Whatever the parsed file holds, a config that `load_file` returns has in every asset a known
-- type, a known response mode and a known cut method.
pub load_file-IsValid :
    (raw : Fields) {c : Config} → load_file (some (obj raw)) ≡ ok c → All IsValid c.assets
load_file-IsValid raw {c} h = ((load_file-Loaded raw).holds c h).0

-- A config that `load_file` returns for a file whose top table has no `dry_run` key is a dry run.
pub load_file-dry_run_default :
    (raw : Fields) {c : Config}
    → load_file (some (obj raw)) ≡ ok c
    → Json.get "dry_run" raw ≡ none
    → c.dry_run ≡ true
load_file-dry_run_default raw {c} h absent = ((load_file-Loaded raw).holds c h).1 absent
