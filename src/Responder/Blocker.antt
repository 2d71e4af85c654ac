-- ===== src/Responder/Blocker.antt =====
-- src/zee/responder/blocker.py: the narrow request that an automatic cut must pass.
use zee.Prelude.{
  String, Bool, true, false, not, ◌≡◌, ◌↔◌, Option, none, some, ◌==◌, ◌||◌, arith, eq_iff, truthy,
  if◌then◌else◌,
}
use zee.Config.{AssetProfile}
use zee.Policy.{resolve, is_contain}

pub record CutRequest : Type 0 where
  pub asset_id : String
  pub op_class : String
  pub confidence : String

-- The reason why the request must not cut, or `none`.
unfoldable pub refusal : CutRequest → AssetProfile → Bool → Option String
unfolding truthy
refusal req asset dry_run =
    if dry_run
    then some "dry_run"
    else if not (truthy req.asset_id) || not (req.asset_id == asset.id)
    then some "asset_mismatch"
    else if not (is_contain (resolve asset).mode)
    then some "mode_not_contain"
    else if not (req.confidence == "high")
    then some "confidence_not_high"
    else if not (req.op_class == "change")
    then some "op_class_not_change"
    else none

-- The boundary lets a request through exactly if this is no dry run, the request names the asset
-- by its non-empty id, the asset's response mode is auto, and the touch was a change of high
-- confidence.
pub refusal-none :
    (req : CutRequest) (asset : AssetProfile) (dry_run : Bool)
    → (refusal req asset dry_run ≡ none) ↔ (
        (dry_run ≡ false)
        × (truthy req.asset_id ≡ true)
        × (req.asset_id ≡ asset.id)
        × (asset.response_mode ≡ "auto")
        × (req.confidence ≡ "high")
        × (req.op_class ≡ "change"))
unfolding refusal resolve
refusal-none req asset dry_run = ground (
  arith,
  eq_iff req.asset_id asset.id,
  eq_iff asset.response_mode "auto",
  eq_iff asset.response_mode "staged",
  eq_iff req.confidence "high",
  eq_iff req.op_class "change",
)
