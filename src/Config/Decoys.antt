-- ===== src/Config/Decoys.antt =====
-- src/zee/config/schema.py, `check_decoy_paths` and `duplicate_decoys`: decoys under two assets.
pub mod Exclusive
use zee.Prelude.{
  String, Bool, true, false, not, ◌&&◌, ◌||◌, ◌≡◌, refl, sym, ap, ◌∙◌, Option-cases, inl, inr,
  Option, none, some, List, [], ◌∷◌, ◌++◌, ◌==◌, arith, any, any-append, has_nul, eq_iff, map,
  if◌then◌else◌,
}
use zee.Errors.{Result, ok, err, >>=-eq-ok, ◌>>=◌, ◌>>◌, require, invalid_asset_config}
use zee.Config.{AssetProfile, Config}

abbrev pub Owned : Type 0
Owned = String × String  -- a decoy's expanded path, and the id of an asset that lists it

-- path, first asset, other asset
pub record Duplicate : Type 0 where
  pub path : String
  pub first_asset : String
  pub other_asset : String

owner_of : String → List Owned → Option String
owner_of k [] = none
owner_of k ((j, o) ∷ seen) = if k == j then some o else owner_of k seen

-- `seen.setdefault(key, asset.id)`
set_default : String → String → List Owned → List Owned
unfolding owner_of
set_default k o seen = elim (owner_of k seen) [ none ↦ (k, o) ∷ seen | some _ ↦ seen ]

abbrev report_if : Option String → String → String → List Duplicate
report_if none raw o = []
report_if (some first) raw o =
    if first == o then [] else record { path = raw; first_asset = first; other_asset = o } ∷ []

-- `Path(d).expanduser()` raises RuntimeError where `expand` has no value.
module _ (expand : String → Option String) where
  check_paths : List String → Result (Unit {0})
  check_paths [] = ok tt
  check_paths (d ∷ ds) =
      if has_nul d
      then err invalid_asset_config
      else elim (expand d) [ none ↦ err invalid_asset_config | some _ ↦ check_paths ds ]

  check_assets : List AssetProfile → Result (Unit {0})
  unfolding check_paths
  check_assets [] = ok tt
  check_assets (a ∷ rest) = check_paths a.decoy_paths >>= λ _. check_assets rest

  unfoldable pub check_decoy_paths : Config → Result (Unit {0})
  unfolding check_assets
  check_decoy_paths config = check_assets config.assets

  -- The key of a path; every path expands once `check_decoy_paths` has passed.
  key_of : String → String
  key_of raw = elim (expand raw) [ none ↦ raw | some key ↦ key ]

  -- the inner loop, over the paths of one asset
  scan_paths : String → List String → List Owned → List Duplicate × List Owned
  unfolding set_default key_of
  scan_paths o [] seen = ([], seen)
  scan_paths o (raw ∷ raws) seen =
      let (dups, final) = scan_paths o raws (set_default (key_of raw) o seen) in
      (report_if (owner_of (key_of raw) seen) raw o ++ dups, final)

  scan_assets : List AssetProfile → List Owned → List Duplicate
  unfolding scan_paths
  scan_assets [] seen = []
  scan_assets (a ∷ rest) seen =
      let (dups, final) = scan_paths a.id a.decoy_paths seen in dups ++ scan_assets rest final

  unfoldable pub duplicate_decoys : Config → Result (List Duplicate)
  unfolding scan_assets
  duplicate_decoys config = check_decoy_paths config >>= λ _. ok (scan_assets config.assets [])

  -- Every (path, asset) of a config, in order.
  owned_by : String → List String → List Owned
  owned_by o [] = []
  owned_by o (raw ∷ raws) = (key_of raw, o) ∷ owned_by o raws

  pub owned : List AssetProfile → List Owned
  unfolding owned_by
  owned [] = []
  owned (a ∷ rest) = owned_by a.id a.decoy_paths ++ owned rest
