-- ===== src/Notifier/Tier.antt =====
-- src/zee/notifier/tier.py, and `_pick_template` of src/zee/decoy/seeder.py: the display tier.
pub mod Levels
use Prim.Native.Nat.{max}
use text.Mathlib.Text.{find?}
use zee.Prelude.{
  ℕ, ◌+◌, String, Bool, true, false, not, ◌&&◌, ◌||◌, Option, none, some, List, [], ◌∷◌, ◌++◌, ◌==◌,
  ◌<>◌, ltb, leb, nat_eq, any, contains, length, is_some, if◌then◌else◌,
}
use zee.Config.{AssetProfile}
use zee.Events.{TrapEvent}

pub data Sensitivity : Type 0 where
  unknown credential personal_data general : Sensitivity

abbrev pub sensitivity_label : Sensitivity → String
sensitivity_label unknown = "パス種別不明"
sensitivity_label credential = "認証情報・鍵"
sensitivity_label personal_data = "個人情報を含みうるデータ"
sensitivity_label general = "一般ファイル"

abbrev pub level_label : ℕ → String
level_label n =
    if nat_eq n 1 then "情報" else if nat_eq n 2 then "注意" else if nat_eq n 3 then "警戒" else "重大"

abbrev pub pii_keywords : List String
pii_keywords = "顧客" ∷ "customer" ∷ "personal" ∷ "患者" ∷ "名簿" ∷ "member" ∷ []

pub record TierResult : Type 0 where
  pub level : ℕ
  pub label : String
  pub sensitivity_category : String
  pub confirmed_axes : List String

-- `part in name` and `name.endswith(part)`
abbrev within : String → String → Bool
within part name = is_some (find? name part)

-- What `pathlib` and `str` give: `Path(p).name.lower()`, and `s.endswith(t)`.
pub record PathText : Type 0 where
  pub name_lower : String → String
  pub ends_with : String → String → Bool

module _ (text : PathText) where
  -- `_pick_template`
  unfoldable pub pick_template : String → String
  pick_template path =
      let name = text.name_lower path in
      if within "credential" name
      then "credentials"
      else if text.ends_with name ".env" || within "env" name
      then "env"
      else if within "id_rsa" name || within "ssh" name || text.ends_with name ".pem"
      then "ssh_key"
      else "notes"

  abbrev credential_templates : List String
  credential_templates = "credentials" ∷ "env" ∷ "ssh_key" ∷ []

  unfoldable pub sensitivity : Option String → ℕ × Sensitivity
  unfolding pick_template contains
  sensitivity none = (0, unknown)
  sensitivity (some path) =
      if contains (pick_template path) credential_templates
      then (2, credential)
      else if any (λ kw. within kw (text.name_lower path)) pii_keywords
      then (1, personal_data)
      else (0, general)

unfoldable pub authority : ℕ → String → ℕ
authority sensitivity_level asset_type =
    let shared = not (asset_type == "workstation") in
    if nat_eq sensitivity_level 2 then (if shared then 2 else 1) else (if shared then 1 else 0)

abbrev one_if : Bool → ℕ
one_if true = 1
one_if false = 0

unfoldable pub business_reach : AssetProfile → ℕ
business_reach asset =
    let true_count =
      one_if (leb 3 (length asset.decoy_paths))
      + one_if (not (asset.type == "workstation"))
      + one_if asset.overnight_active in
    if leb 3 true_count then 2 else if nat_eq true_count 2 then 1 else 0

-- The level before the floor: `high_count`, then `max_level`, of the three axes.
unfoldable pub base_level : ℕ → ℕ → ℕ → ℕ
base_level sens auth biz =
    let max_level = max sens (max auth biz) in
    let high_count = one_if (nat_eq sens 2) + one_if (nat_eq auth 2) + one_if (nat_eq biz 2) in
    if leb 2 high_count
    then 4
    else if nat_eq max_level 2
    then 3
    else if nat_eq max_level 1
    then 2
    else 1

abbrev is_unknown : Sensitivity → Bool
is_unknown unknown = true
is_unknown _ = false

confirmed : Sensitivity → AssetProfile → List String
confirmed key asset =
    (if is_unknown key then "パス種別は未確認" ∷ [] else [])
    ++ (if asset.type == "workstation" then "資産は単一ワークステーション" ∷ [] else "資産は共有領域" ∷ [])
    ++ (if asset.overnight_active then "夜間も稼働" ∷ [] else [])

module _ (text : PathText) where
  -- the axes and the floor for a change
  unfoldable pub tier_level : TrapEvent → AssetProfile → ℕ
  tier_level event asset =
      let sens = (sensitivity text event.decoy_path).0 in
      let level = base_level sens (authority sens asset.type) (business_reach asset) in
      if event.op_class == "change" && ltb level 2 then 2 else level

  -- `classify`; `safe_classify` returns the same, as no step of it raises here
  unfoldable pub classify : TrapEvent → AssetProfile → TierResult
  unfolding tier_level confirmed
  classify event asset =
      let level = tier_level event asset in
      let key = (sensitivity text event.decoy_path).1 in
      record {
        level = level;
        label = level_label level;
        sensitivity_category = sensitivity_label key;
        confirmed_axes = confirmed key asset;
      }

pub data Action : Type 0 where
  detect contain contain_failed dry_run : Action

-- `"、".join(xs)`
join_axes : List String → String
join_axes [] = ""
join_axes (x ∷ []) = x
join_axes (x ∷ y ∷ rest) = x <> "、" <> join_axes (y ∷ rest)

abbrev verb : Action → String
verb detect = "検知"
verb contain = "封じ込め"
verb contain_failed = ""
verb dry_run = "検知(dry_run、手動確認可)"

unfoldable pub reason_line : TierResult → Action → String
unfolding join_axes
reason_line r contain_failed =
    r.sensitivity_category <> "のパスへの接触を検知。遮断は失敗(手動確認が必要)。" <> join_axes r.confirmed_axes <> "。"
reason_line r action =
    r.sensitivity_category <> "のパスへの接触を" <> verb action <> "。" <> join_axes r.confirmed_axes <> "。"
