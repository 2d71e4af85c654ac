-- ===== src/Policy.antt =====
-- src/zee/policy/asset_profile.py: from an asset profile to the runtime response mode.
use zee.Prelude.{
  String, Bool, true, false, Option, none, some, ◌≡◌, ◌==◌, ◌<>◌, inl, inr, Bool-cases,
  if◌then◌else◌,
}
use zee.Config.{AssetProfile}

pub data ResolvedMode : Type 0 where
  contain staged notify : ResolvedMode

pub record Resolution : Type 0 where
  pub asset_id : String
  pub mode : ResolvedMode
  pub cut_method : Option String
  pub rationale : String

-- Any other response mode, an unexpected one too, is notify.
unfoldable pub resolve : AssetProfile → Resolution
resolve asset =
    if asset.response_mode == "auto"
    then record {
      asset_id = asset.id;
      mode = contain;
      cut_method = some asset.cut_method;
      rationale = "response_mode=auto";
    }
    else if asset.response_mode == "staged"
    then record {
      asset_id = asset.id;
      mode = staged;
      cut_method = some asset.cut_method;
      rationale = "response_mode=staged";
    }
    else record {
      asset_id = asset.id;
      mode = notify;
      cut_method = none;
      rationale = "response_mode=" <> asset.response_mode;
    }

-- `mode == "contain"`
abbrev pub is_contain : ResolvedMode → Bool
is_contain contain = true
is_contain _ = false

pub is_contain-resolve :
    (asset : AssetProfile) → is_contain (resolve asset).mode ≡ (asset.response_mode == "auto")
unfolding resolve
is_contain-resolve asset = elim (Bool-cases (asset.response_mode == "auto")) [
  | inl auto ↦ rw auto
  | inr other ↦ elim (Bool-cases (asset.response_mode == "staged")) [
    | inl s ↦ rw (other, s)
    | inr n ↦ rw (other, n)
  ]
]
