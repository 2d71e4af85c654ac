-- ===== src/Telemetry/EventsLog/Chain/Damage.antt =====
-- What `verify_chain` of src/zee/telemetry/events_log.py cannot miss: a line that was edited in place.
use zee.Prelude.{
  String, Bool, true, false, not, ◌&&◌, ◌≡◌, refl, sym, ap, subst, ◌∙◌, inl, inr, Option, none,
  some, List, [], ◌∷◌, ◌++◌, arith, all, eq_iff, is_some, Bool-cases, if◌then◌else◌, ◌<>◌,
}
use zee.Prelude.Json
use zee.Prelude.Json.{Json, Fields, obj, drop2}
use zee.Telemetry.EventsLog.{
  value, LogLine, Hashing, hash_of, record_hash, genesis_hash, or_genesis,
}
use zee.Telemetry.EventsLog.Chain.{
  Status, ok, legacy, legacy_after_chain, cons_some, link_status, hashed_status, object_status,
  verify_content, verify_line, verify_lines,
}

abbrev pub is_ok : Status → Bool
is_ok ok = true
is_ok _ = false

-- The bytes that the hash of a record with these fields is taken of, behind the hash `prev`.
abbrev pub hashed_text : Hashing → String → Fields → String
hashed_text hs prev fs = prev <> hs.canonical_json (drop2 "record_hash" "prev_hash" fs)

both : (a b : Bool) → (a && b) ≡ true → (a ≡ true) × (b ≡ true)
both a b h = (ground arith, ground arith)

module _ (hs : Hashing) where
  -- A line of which the verifier says ok behind `e`: its hash is that of its content.
  link_status-ok :
      (rh ph : String) (own e : Option String)
      → is_ok (link_status rh ph own e) ≡ true
      → (own ≡ some rh) × (ph ≡ or_genesis e)
  unfolding link_status
  link_status-ok rh ph none e h = absurd (cc h)
  link_status-ok rh ph (some own) none h = ground (arith, eq_iff own rh, eq_iff ph genesis_hash)
  link_status-ok rh ph (some own) (some g) h = ground (arith, eq_iff own rh, eq_iff ph g)

  hashed_status-ok :
      (r p : Option String) (fs : Fields) (e : Option String)
      → is_ok (hashed_status hs r p fs e).0 ≡ true
      → (rh : String) × ((hashed_status hs r p fs e).1 ≡ some rh)
        × (hs.sha256 (hashed_text hs (or_genesis e) fs) ≡ some rh)
        × (p ≡ some (or_genesis e))
  unfolding hashed_status record_hash
  hashed_status-ok none none fs e h = absurd (cc h)
  hashed_status-ok none (some ph) fs e h = absurd (cc h)
  hashed_status-ok (some rh) none fs e h = absurd (cc h)
  hashed_status-ok (some rh) (some ph) fs e h =
      let (own, same) = link_status-ok rh ph _ e h in (rh, refl, rw (sym same) own, ap some same)

  -- What an ok line says: its claimed hash is followed, and is that of its content behind the hash
  -- expected, which is also its `prev_hash`.
  object_status-ok :
      (fs : Fields) (e : Option String)
      → is_ok (object_status hs fs e).0 ≡ true
      → (rh : String) × ((object_status hs fs e).1 ≡ some rh)
        × (hs.sha256 (hashed_text hs (or_genesis e) fs) ≡ some rh)
        × (hash_of (Json.get "prev_hash" fs) ≡ some (or_genesis e))
  unfolding object_status
  object_status-ok fs e h =
      elim (Bool-cases
        (not (is_some (Json.get "record_hash" fs)) && not (is_some (Json.get "prev_hash" fs)))) [
          | inl old ↦ absurd (ground (arith, h, old))
          | inr new ↦ rw new (
              hashed_status-ok _ _ fs e (
                subst
                  (λ b.
                    is_ok
                      (if b
                        then (if is_some e then legacy_after_chain else legacy, e)
                        else hashed_status hs (hash_of (Json.get "record_hash" fs))
                            (hash_of (Json.get "prev_hash" fs)) fs e).0
                    ≡ true)
                  new h))
        ]

  -- Two lines, both followed.
  abbrev after : Bool → Option String → List LogLine → Option String
  after newest e ls = (verify_lines hs newest ls e).1

  all-cons_some :
      (s : Option Status) (ss ts : List Status) (b : Bool)
      → all is_ok ss ≡ (all is_ok ts && b)
      → all is_ok (cons_some hs s ss) ≡ (all is_ok (cons_some hs s ts) && b)
  all-cons_some none ss ts b h = h
  all-cons_some (some s) ss ts b h = ground (arith, h)

  verify_lines-append :
      (newest : Bool) (e : Option String) (xs ys : List LogLine)
      → all is_ok (verify_lines hs newest (xs ++ ys) e).0 ≡ (
          all is_ok (verify_lines hs newest xs e).0
          && all is_ok (verify_lines hs newest ys (after newest e xs)).0)
  unfolding verify_lines
  verify_lines-append newest e [] ys = refl
  verify_lines-append newest e (x ∷ xs) ys =
      all-cons_some (verify_line hs newest x e).0
        (verify_lines hs newest (xs ++ ys) (verify_line hs newest x e).1).0
        (verify_lines hs newest xs (verify_line hs newest x e).1).0 _
        (verify_lines-append newest (verify_line hs newest x e).1 xs ys)

  tail_ok :
      (newest : Bool) (xs ys : List LogLine)
      → all is_ok (verify_lines hs newest (xs ++ ys) none).0 ≡ true
      → all is_ok (verify_lines hs newest ys (after newest none xs)).0 ≡ true
  tail_ok newest xs ys h = (both _ _ (sym (verify_lines-append newest none xs ys) ∙ h)).1

  -- Two object lines, the one behind the other, both ok.
  two_ok :
      (newest : Bool) (e : Option String) (l m : LogLine) (fs gs : Fields) (ys : List LogLine)
      → all is_ok
          (verify_lines hs newest
            (record l { content = value (obj fs) } ∷ record m { content = value (obj gs) } ∷ ys)
            e).0
        ≡ true
      → (hash_of (Json.get "prev_hash" fs) ≡ some (or_genesis e))
        × (hs.sha256 (hashed_text hs (or_genesis e) fs) ≡ hash_of (Json.get "prev_hash" gs))
  unfolding verify_lines verify_line verify_content
  two_ok newest e l m fs gs ys h =
      let (first, rest) = both (is_ok (object_status hs fs e).0) _ h in
      let (second, others) =
        both (is_ok (object_status hs gs (object_status hs fs e).1).0) _ rest in
      let (rh, next, own, prev) = object_status-ok fs e first in
      let (rh', next', own', prev') = object_status-ok gs (object_status hs fs e).1 second in
      (prev, own ∙ sym (prev' ∙ ap (λ o. some (or_genesis o)) next))

  -- Two versions of the oldest segment that differ in one record, with another record behind it, and
  -- of which the verifier finds every line ok: the two records name the same previous hash, and the
  -- texts that are hashed for them, behind that hash, have the same SHA-256. So an edit in place of any
  -- record but the last is reported unless it keeps the hashed text or finds a collision.
  pub edit-collides :
      (newest : Bool) (xs ys : List LogLine) (l k m : LogLine) (fs fs' gs : Fields)
      → let tail = record m { content = value (obj gs) } ∷ ys in
        all is_ok
            (verify_lines hs newest (xs ++ record l { content = value (obj fs) } ∷ tail) none).0
          ≡ true
        → let tail = record m { content = value (obj gs) } ∷ ys in
          all is_ok
              (verify_lines hs newest (xs ++ record k { content = value (obj fs') } ∷ tail) none).0
            ≡ true
          → (prev : String) × (hash_of (Json.get "prev_hash" fs) ≡ some prev)
            × (hash_of (Json.get "prev_hash" fs') ≡ some prev)
            × (hs.sha256 (hashed_text hs prev fs) ≡ hs.sha256 (hashed_text hs prev fs'))
  edit-collides newest xs ys l k m fs fs' gs h h' =
      let e = after newest none xs in
      let (p, s) = two_ok newest e l m fs gs ys (tail_ok newest xs _ h) in
      let (p', s') = two_ok newest e k m fs' gs ys (tail_ok newest xs _ h') in
      (or_genesis e, p, p', s ∙ sym s')
