-- ===== src/Telemetry/EventsLog/Links.antt =====
-- Lines of the evidence log (src/zee/telemetry/events_log.py) that link one hash to the next, and what
-- the writer finds at their end.
use mathlib.Core.Path.{ap₂}
use mathlib.Core.List.{append-nil}
use zee.Prelude.{
  ℕ, ◌+◌, ◌<◌, String, Bool, true, false, not, ◌&&◌, ◌≡◌, refl, sym, ap, subst, ◌∙◌, inl, inr,
  concat, concat-append, Option, none, some, List, [], ◌∷◌, ◌++◌, arith, leb, ltb, is_hex64,
  Bool-cases, if◌then◌else◌,
}
use zee.Telemetry.EventsLog.{
  LogLine, Hashing, line_hash, bytes, in_window, last_hash, ends_nl, non_empty, tail_hash,
  tail_window, Log, rotated_tail, chain_tail, rotate,
}
use zee.Telemetry.EventsLog.Chain.{ok, verify_line}

-- The log from its first line on; the first hash follows the genesis hash.
abbrev pub lines_of : Log → List LogLine
lines_of log = concat log.rotated ++ log.current

pub lines_of-rotate : (max_bytes : ℕ) (log : Log) → lines_of (rotate max_bytes log) ≡ lines_of log
unfolding rotate
lines_of-rotate max_bytes log =
    elim (Bool-cases (non_empty log.current && leb max_bytes (bytes log.current))) [
      | inl full ↦ rw full (
          append-nil _
          ∙ (concat-append log.rotated (log.current ∷ [])
              ∙ ap (λ xs. concat log.rotated ++ xs) (append-nil log.current)))
      | inr room ↦ rw room
    ]

module _ (hs : Hashing) where
  -- A terminated line that the verifier accepts after the hash `e`, and whose own hash is `h`.
  pub record IsLink (e : Option String) (l : LogLine) (h : String) : Type 0 where
    pub accepted : (newest : Bool) → verify_line hs newest l e ≡ (some ok, some h)
    pub own_hash : line_hash l ≡ some h
    pub hex : is_hex64 h ≡ true
    pub ended : l.terminated ≡ true
    pub fits : l.size < tail_window

  -- The lines link the hash `e` to the hash `f`.
  abbrev pub Links : Option String → List LogLine → Option String → Type 0
  Links e [] f = e ≡ f
  Links e (l ∷ ls) f = (h : String) × IsLink e l h × Links (some h) ls f

  pub Links-append :
      (e m f : Option String) (xs ys : List LogLine)
      → Links e xs m
      → Links m ys f
      → Links e (xs ++ ys) f
  Links-append e m f [] ys a b = subst (λ k. Links k ys f) (sym a) b
  Links-append e m f (x ∷ xs) ys (h, l, a) b = (h, l, Links-append (some h) m f xs ys a b)

  pub Links-split :
      (e f : Option String) (xs ys : List LogLine)
      → Links e (xs ++ ys) f
      → (m : Option String) × Links e xs m × Links m ys f
  Links-split e f [] ys a = (e, refl, a)
  Links-split e f (x ∷ xs) ys (h, l, a) =
      let (m, b, c) = Links-split (some h) f xs ys a in (m, (h, l, b), c)

  -- What is linked to ends in a hash.
  pub Links-some :
      (e f : Option String) (l : LogLine) (ls : List LogLine)
      → Links e (l ∷ ls) f
      → (h : String) × (f ≡ some h) × (is_hex64 h ≡ true)
  Links-some e f l [] (h, k, a) = (h, sym a, k.hex)
  Links-some e f l (m ∷ ls) (h, k, a) = Links-some (some h) f m ls a

  last_hash-one : (e f : Option String) (l : LogLine) → Links e (l ∷ []) f → last_hash (l ∷ []) ≡ f
  unfolding last_hash
  last_hash-one e f l (h, k, a) = rw k.ended (k.own_hash ∙ a)

  last_hash-later :
      (b : Bool) (l : LogLine) (ls : List LogLine) (f : Option String) (g : String)
      → last_hash ls ≡ f
      → f ≡ some g
      → last_hash (if b then l ∷ ls else ls) ≡ f
  unfolding last_hash
  last_hash-later true l ls f g a b = rw (a, b)
  last_hash-later false l ls f g a b = a

  last_hash-window :
      (total : ℕ) (e f : Option String) (l : LogLine) (ls : List LogLine)
      → Links e (l ∷ ls) f
      → last_hash (in_window total (l ∷ ls)) ≡ f
  unfolding in_window
  last_hash-window total e f l [] (h, k, a) =
      let small : ltb (l.size + 0) tail_window ≡ true = let s = k.fits in ground arith in
      elim (Bool-cases (leb total tail_window)) [
        | inl full ↦ rw full (last_hash-one e f l (h, k, a))
        | inr part ↦ rw (part, small) (last_hash-one e f l (h, k, a))
      ]
  last_hash-window total e f l (m ∷ ls) (h, k, a) =
      let (g, same, x) = Links-some (some h) f m ls a in
      let rest = last_hash-window total (some h) f m ls a in
      last_hash-later _ l (in_window total (m ∷ ls)) f g rest same

  tail_hash-linked :
      (e f : Option String) (l : LogLine) (ls : List LogLine)
      → Links e (l ∷ ls) f
      → tail_hash (l ∷ ls) ≡ f
  unfolding tail_hash
  tail_hash-linked e f l ls a = last_hash-window (bytes (l ∷ ls)) e f l ls a

  ends_nl-linked : (e f : Option String) (ls : List LogLine) → Links e ls f → ends_nl ls ≡ true
  ends_nl-linked e f [] a = refl
  ends_nl-linked e f (l ∷ []) (h, k, a) = k.ended
  ends_nl-linked e f (l ∷ m ∷ ls) (h, k, a) = ends_nl-linked (some h) f (m ∷ ls) a

  -- The rotated segments: the newest that holds a line decides.
  rotated_tail-linked :
      (e f : Option String) (segs : List (List LogLine))
      → Links e (concat segs) f
      → ((rotated_tail segs).0 ≡ (if (rotated_tail segs).1 then f else none))
        × ((rotated_tail segs).1 ≡ false → e ≡ f)
  unfolding rotated_tail
  rotated_tail-linked e f [] a = (refl, λ h. a)
  rotated_tail-linked e f ([] ∷ segs) a =
      let (x, y) = rotated_tail-linked e f segs a in
      elim (Bool-cases (rotated_tail segs).1) [
        | inl later ↦ rw later (x ∙ rw later, λ h. absurd (cc h))
        | inr none_later ↦ rw none_later (refl, λ h. y none_later)
      ]
  rotated_tail-linked e f ((l ∷ ls) ∷ segs) a =
      let (m, b, c) = Links-split e f (l ∷ ls) (concat segs) a in
      let (x, y) = rotated_tail-linked m f segs c in
      let t = tail_hash-linked e m l ls b in
      elim (Bool-cases (rotated_tail segs).1) [
        | inl later ↦ rw later (x ∙ rw later, λ h. absurd (cc h))
        | inr none_later ↦ rw none_later (t ∙ y none_later, λ h. absurd (cc h))
      ]

  abbrev pub IsIntact : Log → Option String → Type 0
  IsIntact log f = Links none (lines_of log) f

  -- The writer chains from the last hash, and no line lacks its newline.
  pub chain_tail-intact :
      (log : Log) (f : Option String) → IsIntact log f → chain_tail log ≡ (f, false)
  unfolding chain_tail
  chain_tail-intact log f a = current_case log.rotated log.current a
    where
      current_case :
          (segs : List (List LogLine)) (ls : List LogLine)
          → Links none (concat segs ++ ls) f
          → chain_tail (record { rotated = segs; current = ls }) ≡ (f, false)
      current_case segs [] b =
          let (m, c, same) = Links-split none f (concat segs) [] b in
          let (x, y) = rotated_tail-linked none m segs c in
          elim (Bool-cases (rotated_tail segs).1) [
            | inl later ↦ ap (λ o. (o, false)) (x ∙ (rw later same))
            | inr empty ↦ ap (λ o. (o, false)) (x ∙ (rw empty (y empty ∙ same)))
          ]
      current_case segs (l ∷ ls) b =
          let (m, c, d) = Links-split none f (concat segs) (l ∷ ls) b in
          ap₂ (λ o e. (o, not e)) (tail_hash-linked m f l ls d) (ends_nl-linked m f (l ∷ ls) d)
