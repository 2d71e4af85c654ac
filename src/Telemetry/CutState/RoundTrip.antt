-- ===== src/Telemetry/CutState/RoundTrip.antt =====
-- What src/zee/telemetry/cut_state.py writes, read back: the lines of a cut and of a resolution.
use zee.Prelude.{
  String, true, false, not, ◌≡◌, ◌≢◌, refl, Option, none, some, List, [], ◌∷◌, eq_refl, any, truthy,
}
use zee.Prelude.Json
use zee.Prelude.Json.{Json, Items, str, nil, cons, texts}
use zee.Prelude.Time.{Instant, IsoTime}
use zee.Errors.{ok, ◌>>=◌}
use zee.Telemetry.CutState.{
  CutRecord, cut, resolved, parse, known_method, known_platform, with_backend, modified_of,
}
use zee.Telemetry.CutState.Ledger.{
  Line, lines, whole, breaks, line_of, mark_resolved, resolved_json, cut_json, items_of, scan_line,
  unresolved_for,
}
use zee.Telemetry.CutState.Outstanding.{scan-append}

texts-items_of : (ss : List String) → texts (items_of ss) ≡ some ss
unfolding texts items_of
texts-items_of [] = refl
texts-items_of (s ∷ ss) = rw (texts-items_of ss)

-- What `record_cut` is called with: known method and platform, and names, none of them empty.
pub record IsWritable (a method platform : String) (modified : List String) : Type 0 where
  pub asset_named : truthy a ≡ true
  pub method_known : known_method method ≡ true
  pub platform_known : known_platform platform ≡ true
  pub some_modified : modified ≢ []
  pub all_named : any (λ s. not (truthy s)) modified ≡ false

modified-items_of :
    (ms : List String)
    → ms ≢ []
    → any (λ s. not (truthy s)) ms ≡ false
    → modified_of (some (Json.arr (items_of ms))) ≡ ok ms
unfolding modified_of items_of
modified-items_of [] h k = absurd (h refl)
modified-items_of (m ∷ ms) h k = rw (texts-items_of ms) (rw k)

module _ (iso : IsoTime) where
  parse-resolved_json :
      (a : String) (t : Instant)
      → truthy a ≡ true
      → t.aware ≡ true
      → parse iso (resolved_json iso a t) ≡ ok (resolved a)
  unfolding parse resolved_json Json.get ◌>>=◌
  parse-resolved_json a t h k = rw h (rw (iso.fromisoformat-isoformat t) (rw k))

  -- Whatever a readable ledger that ends in a newline held for an asset, once a resolution of the asset
  -- is written whole the reader finds nothing unresolved for it, and reports damage exactly if it did
  -- before, provided the asset's id and the time have no character at which `str.splitlines` breaks.
  pub unresolved-mark_resolved :
      (a : String) (t : Instant) (ls : List Line)
      → truthy a ≡ true
      → t.aware ≡ true
      → any breaks (a ∷ iso.isoformat t ∷ []) ≡ false
      → unresolved_for iso a (mark_resolved iso whole a t (lines ls))
        ≡ (none, (unresolved_for iso a (lines ls)).1)
  unfolding unresolved_for mark_resolved scan_line line_of
  unresolved-mark_resolved a t ls h k u =
      rw (u, scan-append iso a ls _ (none, false))
        (rw (parse-resolved_json a t h k) (rw (eq_refl a)))

  -- The record that a reader makes of one `record_cut`.
  abbrev pub cut_of : String → String → String → List String → Instant → CutRecord
  cut_of a method platform modified now = record {
    asset_id = a;
    cut_at = now;
    method = method;
    platform = platform;
    modified = with_backend modified;
    pairs = [];
  }

  module _ (a method platform : String) (modified : List String) (verified : Option String)
      (now : Instant) (w : IsWritable a method platform modified) where
    pub parse-cut_json :
        parse iso (cut_json iso a method platform modified verified now)
        ≡ ok (cut (cut_of a method platform modified now))
    unfolding parse cut_json Json.get ◌>>=◌
    parse-cut_json = rw w.asset_named (
        rw (iso.fromisoformat-isoformat now) (
          rw w.method_known
            (rw w.platform_known (rw (modified-items_of modified w.some_modified w.all_named)))))
