-- ===== src/Telemetry/CutState/Outstanding.antt =====
-- Which cuts of src/zee/telemetry/cut_state.py are outstanding: the reader against the history.
use zee.Prelude.{
  String, Bool, true, false, not, ◌&&◌, ◌||◌, ◌≡◌, refl, Option, none, List, [], ◌∷◌, ◌++◌, ◌==◌,
  sym, subst, ◌∙◌, arith, is_some,
}
use zee.Prelude.Time.{IsoTime}
use zee.Errors.{Result, ok, err}
use zee.Telemetry.CutState.{CutRecord, Entry, cut, resolved, parse}
use zee.Telemetry.CutState.Ledger.{
  Line, lines, blank, malformed, value, Scan, scan_entry, scan_parsed, scan_line, scan,
  unresolved_for,
}

-- The history says that the asset was resolved at some later point.
abbrev pub resolved_later : String → List Entry → Bool
resolved_later a [] = false
resolved_later a (cut r ∷ es) = resolved_later a es
resolved_later a (resolved b ∷ es) = b == a || resolved_later a es

-- The history holds a cut of the asset that nothing resolved afterwards.
abbrev pub outstanding : String → List Entry → Bool
outstanding a [] = false
outstanding a (cut r ∷ es) = (r.asset_id == a && not (resolved_later a es)) || outstanding a es
outstanding a (resolved b ∷ es) = outstanding a es

abbrev cons_ok : Result Entry → List Entry → List Entry
cons_ok (ok e) es = e ∷ es
cons_ok (err _) es = es

abbrev is_err : Result Entry → Bool
is_err (ok _) = false
is_err (err _) = true

module _ (iso : IsoTime) where
  -- The well-formed entries of the lines, in order.
  pub history : List Line → List Entry
  history [] = []
  history (value v ∷ ls) = cons_ok (parse iso v) (history ls)
  history (_ ∷ ls) = history ls

  -- Some line is not a well-formed record.
  unfoldable pub any_malformed : List Line → Bool
  any_malformed [] = false
  any_malformed (blank ∷ ls) = any_malformed ls
  any_malformed (malformed ∷ ls) = true
  any_malformed (value v ∷ ls) = is_err (parse iso v) || any_malformed ls

  pub scan-append :
      (a : String) (ls ms : List Line) (s : Scan)
      → scan iso a (ls ++ ms) s ≡ scan iso a ms (scan iso a ls s)
  unfolding scan
  scan-append a [] ms s = refl
  scan-append a (l ∷ ls) ms s = scan-append a ls ms (scan_line iso a l s)

  entry-outstanding :
      (a : String) (e : Entry) (es : List Entry) (c : Option CutRecord) (d : Bool)
      → ((is_some (scan_entry a e (c, d)).0 && not (resolved_later a es)) || outstanding a es)
        ≡ ((is_some c && not (resolved_later a (e ∷ es))) || outstanding a (e ∷ es))
  unfolding scan_entry
  entry-outstanding a (cut r) es c d = ground arith
  entry-outstanding a (resolved b) es c d = ground arith

  parsed-outstanding :
      (a : String) (r : Result Entry) (es : List Entry) (c : Option CutRecord) (d : Bool)
      → ((is_some (scan_parsed a r (c, d)).0 && not (resolved_later a es)) || outstanding a es)
        ≡ ((is_some c && not (resolved_later a (cons_ok r es))) || outstanding a (cons_ok r es))
  parsed-outstanding a (ok e) es c d = entry-outstanding a e es c d
  parsed-outstanding a (err _) es c d = refl

  scan-outstanding :
      (a : String) (ls : List Line) (c : Option CutRecord) (d : Bool)
      → is_some (scan iso a ls (c, d)).0
        ≡ ((is_some c && not (resolved_later a (history ls))) || outstanding a (history ls))
  unfolding scan history scan_line
  scan-outstanding a [] c d = ground arith
  scan-outstanding a (blank ∷ ls) c d = scan-outstanding a ls c d
  scan-outstanding a (malformed ∷ ls) c d = scan-outstanding a ls c true
  scan-outstanding a (value v ∷ ls) c d =
      let s : Scan = scan_parsed a (parse iso v) (c, d) in
      scan-outstanding a ls s.0 s.1 ∙ parsed-outstanding a (parse iso v) (history ls) c d

  -- The reader finds an unresolved cut of an asset in a readable ledger exactly when the ledger's
  -- well-formed records hold a cut of that asset with no resolution of the asset after it.
  pub unresolved-iff-outstanding :
      (a : String) (ls : List Line)
      → is_some (unresolved_for iso a (lines ls)).0 ≡ outstanding a (history ls)
  unfolding unresolved_for
  unresolved-iff-outstanding a ls = scan-outstanding a ls none false

  entry-damaged :
      (a : String) (r : Result Entry) (c : Option CutRecord) → (scan_parsed a r (c, true)).1 ≡ true
  unfolding scan_entry
  entry-damaged a (ok (cut r)) c = ground arith
  entry-damaged a (ok (resolved b)) c = ground arith
  entry-damaged a (err _) c = refl

  stays-damaged :
      (a : String) (ls : List Line) (c : Option CutRecord) → (scan iso a ls (c, true)).1 ≡ true
  unfolding scan scan_line
  stays-damaged a [] c = refl
  stays-damaged a (blank ∷ ls) c = stays-damaged a ls c
  stays-damaged a (malformed ∷ ls) c = stays-damaged a ls c
  stays-damaged a (value v ∷ ls) c =
      let s : Scan = scan_parsed a (parse iso v) (c, true) in
      subst (λ b. (scan iso a ls (s.0, b)).1 ≡ true) (sym (entry-damaged a (parse iso v) c))
        (stays-damaged a ls s.0)

  parsed-damages :
      (a : String) (r : Result Entry) (ls : List Line) (s : Scan)
      → ((t : Scan) → any_malformed ls ≡ true → (scan iso a ls t).1 ≡ true)
      → (is_err r || any_malformed ls) ≡ true
      → (scan iso a ls (scan_parsed a r s)).1 ≡ true
  parsed-damages a (ok e) ls s ih h = ih (scan_entry a e s) h
  parsed-damages a (err _) ls s ih h = stays-damaged a ls s.0

  malformed-damages :
      (a : String) (ls : List Line) (s : Scan)
      → any_malformed ls ≡ true
      → (scan iso a ls s).1 ≡ true
  unfolding scan scan_line any_malformed
  malformed-damages a [] s h = absurd (cc h)
  malformed-damages a (blank ∷ ls) s h = malformed-damages a ls s h
  malformed-damages a (malformed ∷ ls) s h = stays-damaged a ls s.0
  malformed-damages a (value v ∷ ls) s h =
      parsed-damages a (parse iso v) ls s (λ t k. malformed-damages a ls t k) h

  -- One line that is no well-formed record, whatever asset it was about, makes every reading of the
  -- ledger report damage, for every asset and whatever is appended afterwards.
  pub malformed-damages_all :
      (a : String) (ls ms : List Line)
      → any_malformed ls ≡ true
      → (unresolved_for iso a (lines (ls ++ ms))).1 ≡ true
  unfolding unresolved_for
  malformed-damages_all a ls ms h = rw (scan-append a ls ms (none, false)) (
      let s : Scan = scan iso a ls (none, false) in
      subst (λ b. (scan iso a ms (s.0, b)).1 ≡ true) (sym (malformed-damages a ls (none, false) h))
        (stays-damaged a ms s.0))
