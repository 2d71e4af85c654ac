-- ===== src/Responder/Permission/RoundTrip.antt =====
-- A permission that src/zee/responder/permission.py saves is the one that it loads.
use zee.Prelude.{String, true, false, ◌≡◌, ap, ◌∙◌, sym, some, arith, eq_iff, eq_refl}
use zee.Prelude.Json
use zee.Prelude.Json.{Json, obj}
use zee.Prelude.Time.{IsoTime}
use zee.Errors.{ok, ◌>>=◌, >>=-eq-ok}
use zee.Responder.Permission.{
  Permission, permission, FileView, opened, file_mode, dir_mode, decode_fields, decode, load,
  accept, save, encode,
}

module _ (iso : IsoTime) (instance_id : String) where
  decode-encode : (p q : Permission) → decode_fields iso (encode iso p) ≡ ok q → p ≡ q
  unfolding decode_fields encode Json.get ◌>>=◌
  decode-encode p q h = ground (arith, iso.fromisoformat-isoformat p.changed_at)

  save-ok :
      (p : Permission) (v v' : FileView)
      → save iso instance_id p v ≡ ok v'
      → (decode_fields iso (encode iso p) ≡ ok p)
        × (p.instance_id ≡ instance_id)
        × (v.is_link ≡ false)
        × (v.parent_is_link ≡ false)
        × (v' ≡ record v {
          opening = opened (record {
            regular = true;
            mode = file_mode;
            parent_mode = dir_mode;
            content = some (obj (encode iso p));
          });
        })
  unfolding save
  save-ok p v v' h =
      let (q, d, rest) = >>=-eq-ok (decode_fields iso (encode iso p)) _ h in
      let same : p ≡ q = decode-encode p q d in
      unfold ◌>>=◌ in
      (
        d ∙ ap ok (sym same),
        ground (arith, eq_iff p.instance_id instance_id),
        ground arith,
        ground arith,
        ground arith,
      )

  -- A permission that `save` accepts is returned by the next `load` of the file, whatever stood
  -- there before; so each accepted permission is well formed and was made for this directory.
  pub load-save :
      (p : Permission) (v v' : FileView)
      → save iso instance_id p v ≡ ok v'
      → load iso instance_id v' ≡ permission p
  unfolding load decode accept
  load-save p v v' h =
      let (d, same, link, parent, e) = save-ok p v v' h in
      rw (e, link, parent) (ground (arith, d, same, eq_refl instance_id))
