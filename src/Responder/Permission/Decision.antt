-- ===== src/Responder/Permission/Decision.antt =====
-- When src/zee/responder/permission.py lets an automatic cut go ahead, and which files it believes.
use zee.Prelude.{
  String, Bool, true, false, not, ◌&&◌, ◌||◌, ◌≡◌, ◌↔◌, refl, Option, none, some, List, ◌==◌, arith,
  eq_iff, nat_eq,
}
use zee.Prelude.Json.{Json}
use zee.Prelude.Time.{IsoTime}
use zee.Errors.{Result, ok, err}
use zee.Config.{AssetProfile, Config}
use zee.Events.{TrapEvent}
use zee.Policy.{is_contain-resolve}
use zee.Responder.Permission.{
  decide_on, Permission, Loaded, permission, invalid, absent, policy_hash, permitted, decide,
  FileView, FileState, OpenResult, opened, not_found, os_error, load, load_opened, read_file,
  read_content, accept, file_mode, dir_mode, decode,
}
use zee.Responder.Permission.Policy.{PolicyEntry}

-- The operator's permission stands, and was given for this very policy.
abbrev pub stands : (List PolicyEntry → String) → Loaded → Config → Bool
stands digest (permission p) config = p.enabled && p.policy_hash == policy_hash digest config
stands digest _ config = false

module _ (digest : List PolicyEntry → String) where
  permitted-stands :
      (config : Config) (perm : Loaded)
      → ((permitted digest perm config).0 ≡ stands digest perm config)
        × (((permitted digest perm config).1 ≡ none) ↔ (stands digest perm config ≡ true))
  unfolding permitted
  permitted-stands config absent = ground arith
  permitted-stands config invalid = ground arith
  permitted-stands config (permission p) = ground arith

  -- `decide` allows an automatic cut exactly for a change of high confidence on an asset in auto
  -- mode, under a config that is no dry run, with a loaded permission that is enabled and carries
  -- the hash of this config's policy; it gives a reason exactly where it refuses.
  pub decide_iff :
      (event : TrapEvent) (asset : AssetProfile) (config : Config) (perm : Loaded)
      → ((decide digest event asset config perm).0 ≡ (
          asset.response_mode == "auto"
          && event.confidence == "high"
          && event.op_class == "change"
          && not config.dry_run
          && stands digest perm config))
        × (((decide digest event asset config perm).1 ≡ none)
            ↔ ((decide digest event asset config perm).0 ≡ true))
  unfolding decide decide_on
  decide_iff event asset config perm =
      ground (arith, is_contain-resolve asset, permitted-stands config perm)

module _ (iso : IsoTime) (instance_id : String) where
  -- What a file must be for `load` to believe it.
  abbrev pub Believed : FileView → Permission → Type 0
  Believed v p =
      (v.parent_is_link ≡ false)
      × (v.is_link ≡ false)
      × ((f : FileState) × (v.opening ≡ opened f)
          × (f.regular ≡ true)
          × ((v.posix && (not (nat_eq f.mode file_mode) || not (nat_eq f.parent_mode dir_mode)))
              ≡ false)
          × ((j : Json) × (f.content ≡ some j) × (decode iso j ≡ ok p)))
      × (p.instance_id ≡ instance_id)

  accept-ok :
      (r : Result Permission) (p : Permission)
      → accept iso instance_id r ≡ permission p
      → (r ≡ ok p) × (p.instance_id ≡ instance_id)
  unfolding accept
  accept-ok (ok q) p h = ground (arith, eq_iff q.instance_id instance_id)
  accept-ok (err e) p h = absurd (cc h)

  read_content-ok :
      (c : Option Json) (p : Permission)
      → read_content iso instance_id c ≡ permission p
      → ((j : Json) × (c ≡ some j) × (decode iso j ≡ ok p)) × (p.instance_id ≡ instance_id)
  unfolding read_content
  read_content-ok none p h = absurd (cc h)
  read_content-ok (some j) p h =
      let (d, same) = accept-ok (decode iso j) p h in ((j, refl, d), same)

  read_file-ok :
      (posix : Bool) (f : FileState) (p : Permission)
      → read_file iso instance_id posix f ≡ permission p
      → (f.regular ≡ true)
        × ((posix && (not (nat_eq f.mode file_mode) || not (nat_eq f.parent_mode dir_mode)))
            ≡ false)
        × (read_content iso instance_id f.content ≡ permission p)
  unfolding read_file
  read_file-ok posix f p h = (ground arith, ground arith, ground arith)

  load_opened-ok :
      (posix : Bool) (o : OpenResult) (p : Permission)
      → load_opened iso instance_id posix o ≡ permission p
      → (f : FileState) × (o ≡ opened f) × (read_file iso instance_id posix f ≡ permission p)
  unfolding load_opened
  load_opened-ok posix not_found p h = absurd (cc h)
  load_opened-ok posix os_error p h = absurd (cc h)
  load_opened-ok posix (opened f) p h = (f, refl, h)

  load-opened :
      (v : FileView) (p : Permission)
      → load iso instance_id v ≡ permission p
      → (v.parent_is_link ≡ false)
        × (v.is_link ≡ false)
        × (load_opened iso instance_id v.posix v.opening ≡ permission p)
  unfolding load
  load-opened v p h = (ground arith, ground arith, ground arith)

  -- If `load` returns a permission, neither the file nor its directory is a link, the file is
  -- regular, on POSIX its mode is 0600 and the directory's 0700, its content decodes to that
  -- permission, and the permission was given for this state directory.
  pub load-Believed :
      (v : FileView) (p : Permission) → load iso instance_id v ≡ permission p → Believed v p
  load-Believed v p h =
      let (parent, file, o) = load-opened v p h in
      let (f, e, r) = load_opened-ok v.posix v.opening p o in
      let (reg, modes, c) = read_file-ok v.posix f p r in
      let (content, same) = read_content-ok f.content p c in
      (parent, file, (f, e, reg, modes, content), same)
