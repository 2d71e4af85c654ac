-- ===== src/Config/Decoys/Exclusive.antt =====
-- The report of decoys under two assets (src/zee/config/schema.py) against a plain description.
use mathlib.Core.Path.{ap₂}
use zee.Prelude.{
  String, Bool, true, false, not, ◌&&◌, ◌||◌, ◌≡◌, refl, sym, ap, ◌∙◌, Option-cases, inl, inr,
  Option, none, some, List, [], ◌∷◌, ◌++◌, ◌==◌, arith, any, eq_iff,
}
use zee.Errors.{ok, >>=-eq-ok}
use zee.Config.{AssetProfile, Config}
use zee.Config.Decoys.{
  Owned, Duplicate, owner_of, set_default, report_if, check_decoy_paths, key_of, scan_paths,
  scan_assets, duplicate_decoys, owned_by, owned,
}

-- Two assets list the same path.
abbrev pub clashes : Owned → Owned → Bool
clashes p q = p.0 == q.0 && not (p.1 == q.1)

abbrev pub any_clash : List Owned → Bool
any_clash [] = false
any_clash (p ∷ ps) = any (clashes p) ps || any_clash ps

abbrev pub is_some_dup : List Duplicate → Bool
is_some_dup [] = false
is_some_dup (_ ∷ _) = true

is_some_dup-append :
    (xs ys : List Duplicate) → is_some_dup (xs ++ ys) ≡ (is_some_dup xs || is_some_dup ys)
is_some_dup-append [] ys = refl
is_some_dup-append (x ∷ xs) ys = refl

-- The entry is listed under another asset than the one seen first.
abbrev contradicts : List Owned → Owned → Bool
contradicts seen p = elim (owner_of p.0 seen) [ none ↦ false | some o ↦ not (o == p.1) ]

abbrev seen_after : List Owned → List Owned → List Owned
seen_after seen [] = seen
seen_after seen (p ∷ ps) = seen_after (set_default p.0 p.1 seen) ps

abbrev found : List Owned → List Owned → Bool
found seen [] = false
found seen (p ∷ ps) = contradicts seen p || found (set_default p.0 p.1 seen) ps

contradicts-set_default :
    (p q : Owned) (seen : List Owned)
    → (contradicts seen p || contradicts (set_default p.0 p.1 seen) q)
      ≡ (contradicts seen p || (contradicts seen q || clashes p q))
unfolding set_default owner_of
contradicts-set_default p q seen = elim (Option-cases (owner_of p.0 seen)) [
  | inl new ↦ ground (arith, new, eq_iff p.0 q.0, eq_iff q.0 p.0)
  | inr (o, old) ↦ ground (arith, old, eq_iff p.0 q.0, eq_iff o p.1, eq_iff o q.1, eq_iff p.1 q.1)
]

any-contradicts :
    (p : Owned) (ps seen : List Owned)
    → (contradicts seen p || any (contradicts (set_default p.0 p.1 seen)) ps)
      ≡ (contradicts seen p || (any (contradicts seen) ps || any (clashes p) ps))
any-contradicts p [] seen = refl
any-contradicts p (q ∷ ps) seen =
    ground (arith, any-contradicts p ps seen, contradicts-set_default p q seen)

found-clash : (ps seen : List Owned) → found seen ps ≡ (any (contradicts seen) ps || any_clash ps)
found-clash [] seen = refl
found-clash (p ∷ ps) seen =
    ground (arith, found-clash ps (set_default p.0 p.1 seen), any-contradicts p ps seen)

any-contradicts-nil : (ps : List Owned) → any (contradicts []) ps ≡ false
unfolding owner_of
any-contradicts-nil [] = refl
any-contradicts-nil (p ∷ ps) = any-contradicts-nil ps

found-append :
    (ps qs seen : List Owned)
    → found seen (ps ++ qs) ≡ (found seen ps || found (seen_after seen ps) qs)
found-append [] qs seen = refl
found-append (p ∷ ps) qs seen = ground (arith, found-append ps qs (set_default p.0 p.1 seen))

report_if-found :
    (o : Option String) (raw a : String)
    → is_some_dup (report_if o raw a) ≡ elim o [ none ↦ false | some b ↦ not (b == a) ]
report_if-found none raw a = refl
report_if-found (some b) raw a = ground arith

ok_inj : {xs ys : List Duplicate} → ok xs ≡ ok ys → xs ≡ ys
ok_inj h = cc

module _ (expand : String → Option String) where
  scan_paths-found :
      (o : String) (raws : List String) (seen : List Owned)
      → (is_some_dup (scan_paths expand o raws seen).0 ≡ found seen (owned_by expand o raws))
        × ((scan_paths expand o raws seen).1 ≡ seen_after seen (owned_by expand o raws))
  unfolding scan_paths owned_by
  scan_paths-found o [] seen = (refl, refl)
  scan_paths-found o (raw ∷ raws) seen =
      let k = key_of expand raw in
      let (same, final) = scan_paths-found o raws (set_default k o seen) in
      (
        is_some_dup-append (report_if (owner_of k seen) raw o) _
            ∙ ap₂ (λ a b. a || b) (report_if-found (owner_of k seen) raw o) same,
        final,
      )

  scan_assets-found :
      (assets : List AssetProfile) (seen : List Owned)
      → is_some_dup (scan_assets expand assets seen) ≡ found seen (owned expand assets)
  unfolding scan_assets owned
  scan_assets-found [] seen = refl
  scan_assets-found (a ∷ rest) seen =
      let (same, final) = scan_paths-found a.id a.decoy_paths seen in
      let mine = owned_by expand a.id a.decoy_paths in
      is_some_dup-append (scan_paths expand a.id a.decoy_paths seen).0 _
      ∙ (ap₂ (λ b c. b || c) same
            (ap (λ s. is_some_dup (scan_assets expand rest s)) final
              ∙ scan_assets-found rest (seen_after seen mine))
          ∙ sym (found-append mine (owned expand rest) seen))

  -- Where the report is made, it names some decoy exactly if some path, once expanded, is listed
  -- under two assets with different ids, wherever in the file the two stand.
  pub duplicate_decoys_iff :
      (config : Config) {dups : List Duplicate}
      → duplicate_decoys expand config ≡ ok dups
      → is_some_dup dups ≡ any_clash (owned expand config.assets)
  unfolding duplicate_decoys
  duplicate_decoys_iff config {dups} h =
      let (u, checked, same) = >>=-eq-ok (check_decoy_paths expand config) _ h in
      let e : scan_assets expand config.assets [] ≡ dups = ok_inj same in
      ap is_some_dup (sym e)
      ∙ (scan_assets-found config.assets []
          ∙ (found-clash (owned expand config.assets) []
              ∙ ap (λ b. b || any_clash (owned expand config.assets))
                  (any-contradicts-nil (owned expand config.assets))))
