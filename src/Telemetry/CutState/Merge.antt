-- ===== src/Telemetry/CutState/Merge.antt =====
-- Consecutive cuts of one asset (src/zee/telemetry/cut_state.py): nothing an earlier cut changed is
-- lost to a later one, and other assets are left alone.
use zee.Prelude.{
  String, true, false, ◌&&◌, ◌||◌, ◌≡◌, ◌≢◌, refl, ap, ◌∙◌, Option, none, some, List, [], ◌∷◌, ◌++◌,
  any, map, ◌==◌, arith, eq_iff, eq_refl, contains, contains-append, contains-without, Bool-cases,
  inl, inr, if◌then◌else◌,
}
use zee.Prelude.Time.{Instant, IsoTime}
use zee.Telemetry.CutState.{
  Kind, firewall, nmcli, iface, CutRecord, entries, or_pairs, kind_of, with_backend,
}
use zee.Telemetry.CutState.Ledger.{
  Line, lines, record_cut, cut_texts, breaks, line_of, has_pair, without_pairs, kind_eq, merge,
  Scan, scan_entry, scan_line, scan, unresolved_for, platform_differs,
}
use zee.Telemetry.CutState.Outstanding.{scan-append}
use zee.Telemetry.CutState.RoundTrip.{IsWritable, cut_of, parse-cut_json}

-- What a reader already knows to be changed.
abbrev pub names_before : Option CutRecord → List String
names_before none = []
names_before (some c) = c.modified

abbrev pub pairs_before : Option CutRecord → List (Kind × String)
pairs_before none = []
pairs_before (some c) = entries c

kind_eq_refl : (k : Kind) → kind_eq k k ≡ true
kind_eq_refl firewall = refl
kind_eq_refl nmcli = refl
kind_eq_refl iface = refl

kind_eq→eq : (k j : Kind) → kind_eq k j ≡ true → k ≡ j
kind_eq→eq k j h = ground arith

has_pair-append :
    (p : Kind × String) (xs ys : List (Kind × String))
    → has_pair p (xs ++ ys) ≡ (has_pair p xs || has_pair p ys)
unfolding has_pair
has_pair-append p [] ys = refl
has_pair-append p (x ∷ xs) ys = ground (arith, has_pair-append p xs ys)

has_pair-head : (p : Kind × String) (ps : List (Kind × String)) → has_pair p (p ∷ ps) ≡ true
unfolding has_pair
has_pair-head p ps = rw (kind_eq_refl p.0) (rw (eq_refl p.1))

-- The same pair is found or not found alike.
has_pair-same :
    (p q : Kind × String) (xs : List (Kind × String))
    → (kind_eq p.0 q.0 && p.1 == q.1) ≡ true
    → has_pair p xs ≡ has_pair q xs
has_pair-same p q xs h =
    ap (λ r. has_pair r xs)
      (let k : p.0 ≡ q.0 = kind_eq→eq p.0 q.0 (ground arith) in
        let n : p.1 ≡ q.1 = (eq_iff p.1 q.1).0 (ground arith) in λ i. (k i, n i))

has_pair-without :
    (p : Kind × String) (xs ys : List (Kind × String))
    → (has_pair p xs || has_pair p (without_pairs xs ys)) ≡ (has_pair p xs || has_pair p ys)
unfolding has_pair without_pairs
has_pair-without p xs [] = refl
has_pair-without p xs (y ∷ ys) = ground (arith, has_pair-without p xs ys, has_pair-same p y xs)

merged_names :
    (m : String) (c : Option CutRecord) (r : CutRecord)
    → contains m (merge c r).modified ≡ (contains m (names_before c) || contains m r.modified)
unfolding merge
merged_names m none r = contains-append m [] _ ∙ contains-without m [] r.modified
merged_names m (some c) r =
    contains-append m c.modified _ ∙ contains-without m c.modified r.modified

merged_pairs :
    (p : Kind × String) (c : Option CutRecord) (r : CutRecord)
    → has_pair p (merge c r).pairs ≡ (has_pair p (pairs_before c) || has_pair p (entries r))
unfolding merge
merged_pairs p none r = has_pair-without p [] (entries r)
merged_pairs p (some c) r =
    has_pair-append p (entries c) _ ∙ has_pair-without p (entries c) (entries r)

entries-of_pairs :
    (r : CutRecord) (p : Kind × String) → has_pair p r.pairs ≡ true → entries r ≡ r.pairs
unfolding entries has_pair
entries-of_pairs r p h = go r.pairs h
  where
    go :
        (ps : List (Kind × String))
        → has_pair p ps ≡ true
        → or_pairs ps (map (kind_of r.method r.platform) r.modified) ≡ ps
    go [] k = absurd (cc k)
    go (q ∷ qs) k = refl

-- A fresh record of at least one name lists a pair.
fresh_pair :
    (r : CutRecord)
    → r.pairs ≡ []
    → r.modified ≢ []
    → (p : Kind × String) × (has_pair p (entries r) ≡ true)
unfolding entries
fresh_pair r e h = rw e (go r.modified h)
  where
    go :
        (ms : List String)
        → ms ≢ []
        → (p : Kind × String) × (has_pair p (or_pairs [] (map (kind_of r.method r.platform) ms))
            ≡ true)
    go [] k = absurd (k refl)
    go (m ∷ ms) k = (kind_of r.method r.platform m, has_pair-head _ _)

with_backend-ne : (ms : List String) → ms ≢ [] → with_backend ms ≢ []
unfolding with_backend
with_backend-ne [] h = absurd (h refl)
with_backend-ne (m ∷ ms) h = ground arith

merged_entries :
    (p : Kind × String) (c : Option CutRecord) (r : CutRecord)
    → r.pairs ≡ []
    → r.modified ≢ []
    → has_pair p (entries (merge c r)) ≡ (has_pair p (pairs_before c) || has_pair p (entries r))
merged_entries p c r e h =
    let (q, k) = fresh_pair r e h in
    rw (entries-of_pairs (merge c r) q (merged_pairs q c r ∙ (rw k (ground arith))))
      (merged_pairs p c r)

module _ (iso : IsoTime) where
  -- A cut recorded for asset `a`, in a ledger that ends in a newline, with a known method and platform
  -- and at least one name, none of them empty, and no text of it with a character at which
  -- `str.splitlines` breaks. For `a` the reader then finds an unresolved cut that lists a name, or a (kind, name)
  -- pair, exactly when the unresolved cut that it found before did or the new cut does; it reports
  -- damage exactly if it did before or the platforms differ. For any other asset it finds what it
  -- found before.
  pub unresolved-record_cut :
      (a method platform : String) (modified : List String) (verified : Option String)
      (now : Instant) (ls : List Line)
      → IsWritable a method platform modified
      → any breaks (cut_texts iso a method platform modified verified now) ≡ false
      → let before = unresolved_for iso a (lines ls) in
        let r = cut_of iso a method platform modified now in
        let ledger = record_cut iso a method platform modified verified now (lines ls) in
        (c : CutRecord) × ((b : String)
          → unresolved_for iso b ledger ≡ (
              if a == b
              then (some c, before.1 || platform_differs before.0 r)
              else unresolved_for iso b (lines ls)))
        × ((m : String)
            → contains m c.modified
              ≡ (contains m (names_before before.0) || contains m (with_backend modified)))
        × ((p : Kind × String)
            → has_pair p (entries c)
              ≡ (has_pair p (pairs_before before.0) || has_pair p (entries r)))
  unfolding unresolved_for record_cut scan_line scan_entry line_of
  unresolved-record_cut a method platform modified verified now ls w u =
      let before : Scan = scan iso a ls (none, false) in
      let r : CutRecord = cut_of iso a method platform modified now in
      (
        merge before.0 r,
        λ b.
            rw (u, scan-append iso b ls _ (none, false))
              (rw (parse-cut_json iso a method platform modified verified now w)
                (elim (Bool-cases (a == b)) [
                  | inl same ↦ rw ((eq_iff a b).0 same) (rw (eq_refl b))
                  | inr other ↦ rw other
                ])),
        λ m. merged_names m before.0 r,
        λ p. merged_entries p before.0 r refl (with_backend-ne modified w.some_modified),
      )
