-- ===== src/Notifier/Tier/Levels.antt =====
-- Which events get which display tier (src/zee/notifier/tier.py).
use zee.Prelude.{
  ℕ, zero, suc, ◌≤◌, String, Bool, true, not, ◌&&◌, ◌||◌, Option, ◌≡◌, ◌↔◌, ◌==◌, arith, leb,
  nat_eq, length, if◌then◌else◌,
}
use zee.Config.{AssetProfile}
use zee.Events.{TrapEvent}
use zee.Notifier.Tier.{
  PathText, sensitivity, authority, business_reach, base_level, classify, level_label,
}

-- The asset is more than one user's workstation.
abbrev pub is_shared : AssetProfile → Bool
is_shared asset = not (asset.type == "workstation")

-- At least three decoys, a shared asset, and active at night.
abbrev pub has_full_reach : AssetProfile → Bool
has_full_reach asset = leb 3 (length asset.decoy_paths) && is_shared asset && asset.overnight_active

sensitivity-le : (text : PathText) (p : Option String) → (sensitivity text p).0 ≤ 2
unfolding sensitivity
sensitivity-le text p = ground arith

business_reach-full :
    (asset : AssetProfile) → business_reach asset ≡ 2 ↔ has_full_reach asset ≡ true
unfolding business_reach
business_reach-full asset = ground arith

business_reach-le : (asset : AssetProfile) → business_reach asset ≤ 2
unfolding business_reach
business_reach-le asset = ground arith

-- The level by the sensitivity alone, given the reach; below 3 it stays open which of 1 and 2.
base_level-eq :
    (sens biz : ℕ) (type : String) (full : Bool)
    → sens ≤ 2
    → biz ≤ 2
    → biz ≡ 2 ↔ full ≡ true
    → let level = base_level sens (authority sens type) biz in
      (1 ≤ level)
      × (level ≤ 4)
      × (leb 3 level ≡ (nat_eq sens 2 || full))
      × (leb 4 level ≡ (nat_eq sens 2 && (not (type == "workstation") || full)))
unfolding base_level authority
base_level-eq zero biz type full h k e = ground arith
base_level-eq (suc zero) biz type full h k e = ground arith
base_level-eq (suc (suc zero)) biz type full h k e = ground arith
base_level-eq (suc (suc (suc n))) biz type full h k e = absurd (omega arith)

module _ (text : PathText) (event : TrapEvent) (asset : AssetProfile) where
  abbrev is_credential : Bool
  is_credential = nat_eq (sensitivity text event.decoy_path).0 2

  floor_facts :
      let level =
        base_level
          (sensitivity text event.decoy_path).0
          (authority (sensitivity text event.decoy_path).0 asset.type)
          (business_reach asset) in
      (1 ≤ level)
      × (level ≤ 4)
      × (leb 3 level ≡ (is_credential || has_full_reach asset))
      × (leb 4 level ≡ (is_credential && (is_shared asset || has_full_reach asset)))
  floor_facts =
      base_level-eq _ _ asset.type (has_full_reach asset) (sensitivity-le text event.decoy_path)
        (business_reach-le asset) (business_reach-full asset)

  -- The tier lies between 1 and 4, its label is that of its level, and a change has at least tier 2.
  pub classify_bounds :
      let r = classify text event asset in
      (1 ≤ r.level)
      × (r.level ≤ 4)
      × (r.label ≡ level_label r.level)
      × ((if event.op_class == "change" then 2 else 1) ≤ r.level)
  unfolding classify
  classify_bounds = ground (arith, floor_facts)

  -- Tier 4 is shown exactly for a credential decoy on a shared asset, and tier 3 or 4 exactly for a
  -- credential decoy or on an asset with full reach: three decoys or more, shared, active at night.
  pub classify_critical :
      (leb 4 (classify text event asset).level ≡ (is_credential && is_shared asset))
      × (leb 3 (classify text event asset).level ≡ (is_credential || has_full_reach asset))
  unfolding classify
  classify_critical = ground (arith, floor_facts)
