-- ===== src/Telemetry/EventsLog/Chain/Appends.antt =====
-- `_append` of src/zee/telemetry/events_log.py, one record after the other, and what the verifier then
-- reports.
use mathlib.Core.List.{append_assoc, map-append}
use zee.Prelude.{
  ℕ, ◌<◌, String, Bool, true, false, ◌&&◌, ◌≡◌, refl, sym, ap, subst, ◌∙◌, inl, inr, concat, All,
  Option, none, some, List, [], ◌∷◌, ◌++◌, map, Option-cases,
}
use zee.Prelude.Json.{Fields}
use zee.Telemetry.EventsLog.{
  Hashing, non_empty, tail_window, Log, chain_tail, rotate, WriteResult, whole, failed, torn,
  with_hashes, or_genesis, record_hash, chained_line, behind, read_tail, written, write_line,
  append_hashed, append,
}
use zee.Telemetry.EventsLog.Links.{
  Links, Links-append, lines_of, IsIntact, chain_tail-intact, lines_of-rotate,
}
use zee.Telemetry.EventsLog.Chain.{ok, verify_log}
use zee.Telemetry.EventsLog.Chain.Intact.{
  IsBare, chained_line-IsLink, or_genesis-hex, verify_log-intact,
}

abbrev pub is_clean : WriteResult → Bool
is_clean whole = true
is_clean failed = true
is_clean (torn c n) = false

-- whether the tail can be read, how the write ends, and the record
abbrev pub Attempt : Type 0
Attempt = Bool × WriteResult × Fields

abbrev pub empty_log : Log
empty_log = record { rotated = []; current = [] }

module _ (hs : Hashing) where
  -- The tail is read and the write is not cut short; the record is bare and its line shorter than the
  -- tail window.
  abbrev pub IsAppended : Attempt → Type 0
  IsAppended (tail_read, w, bare) =
      (tail_read ≡ true)
      × (is_clean w ≡ true)
      × IsBare bare
      × ((prev h : String) → hs.line_size (with_hashes bare prev h) < tail_window)

  -- A write that comes whole adds the chained line, and nothing else changes.
  lines_of-append :
      (max_bytes : ℕ) (bare : Fields) (h : String) (f : Option String) (log : Log)
      → IsIntact hs log f
      → record_hash hs (or_genesis f) bare ≡ some h
      → lines_of (append hs true max_bytes whole bare log)
        ≡ lines_of log ++ chained_line hs bare (or_genesis f) h ∷ []
  unfolding append append_hashed read_tail write_line written behind
  lines_of-append max_bytes bare h f log a d = rw (chain_tail-intact hs log f a) (
      rw d (
        sym (append_assoc (concat (rotate max_bytes log).rotated) (rotate max_bytes log).current _)
        ∙ ap (λ ls. ls ++ chained_line hs bare (or_genesis f) h ∷ [])
            (lines_of-rotate max_bytes log)))

  -- Nothing is written for a record that cannot be hashed.
  lines_of-append_unhashed :
      (max_bytes : ℕ) (bare : Fields) (f : Option String) (log : Log)
      → IsIntact hs log f
      → record_hash hs (or_genesis f) bare ≡ none
      → lines_of (append hs true max_bytes whole bare log) ≡ lines_of log
  unfolding append append_hashed read_tail
  lines_of-append_unhashed max_bytes bare f log a d =
      rw (chain_tail-intact hs log f a) (rw d (lines_of-rotate max_bytes log))

  append_hashed-failed :
      (nl : Bool) (bare : Fields) (prev : String) (o : Option String) (log : Log)
      → append_hashed hs true failed nl bare prev o log ≡ log
  unfolding append_hashed write_line
  append_hashed-failed nl bare prev none log = refl
  append_hashed-failed nl bare prev (some h) log = refl

  -- A write that fails at once leaves the lines as they were.
  lines_of-append_failed :
      (max_bytes : ℕ) (bare : Fields) (log : Log)
      → lines_of (append hs true max_bytes failed bare log) ≡ lines_of log
  unfolding append read_tail
  lines_of-append_failed max_bytes bare log =
      ap lines_of (
        append_hashed-failed ((chain_tail log).1 && non_empty (rotate max_bytes log).current) bare
          (or_genesis (chain_tail log).0) _ (rotate max_bytes log))
      ∙ lines_of-rotate max_bytes log

  -- Each write that is not cut short keeps a log intact.
  append-IsIntact :
      (max_bytes : ℕ) (w : WriteResult) (bare : Fields) (f : Option String) (log : Log)
      → IsAppended (true, w, bare)
      → IsIntact hs log f
      → (g : Option String) × IsIntact hs (append hs true max_bytes w bare log) g
  append-IsIntact max_bytes (torn c n) bare f log (read, clean, b, fits) a = absurd (cc clean)
  append-IsIntact max_bytes failed bare f log (read, clean, b, fits) a =
      (f, subst (λ ls. Links hs none ls f) (sym (lines_of-append_failed max_bytes bare log)) a)
  append-IsIntact max_bytes whole bare f log (read, clean, b, fits) a =
      elim (Option-cases (record_hash hs (or_genesis f) bare)) [
        | inl unhashed ↦ (
          f,
          subst (λ ls. Links hs none ls f)
              (sym (lines_of-append_unhashed max_bytes bare f log a unhashed)) a,
        )
        | inr (h, d) ↦ (
          some h,
          subst (λ ls. Links hs none ls (some h)) (sym (lines_of-append max_bytes bare h f log a d))
              (Links-append hs none f (some h) (lines_of log) _ a (
                h,
                chained_line-IsLink hs f bare h b (or_genesis-hex hs f (lines_of log) a)
                    (unfold record_hash in hs.sha256-is_hex64 _ h d) d (fits (or_genesis f) h),
                refl,
              )),
        )
      ]

  -- `_append` for one record after the other.
  unfoldable pub appends : ℕ → List Attempt → Log → Log
  appends max_bytes [] log = log
  appends max_bytes ((tail_read, w, bare) ∷ ws) log =
      appends max_bytes ws (append hs tail_read max_bytes w bare log)

  appends-IsIntact :
      (max_bytes : ℕ) (ws : List Attempt) (f : Option String) (log : Log)
      → All IsAppended ws
      → IsIntact hs log f
      → (g : Option String) × IsIntact hs (appends max_bytes ws log) g
  unfolding appends
  appends-IsIntact max_bytes [] f log c a = (f, a)
  appends-IsIntact max_bytes ((false, w, bare) ∷ ws) f log (c, cs) a = absurd (cc c.0)
  appends-IsIntact max_bytes ((true, w, bare) ∷ ws) f log (c, cs) a =
      let (g, b) = append-IsIntact max_bytes w bare f log c a in
      appends-IsIntact max_bytes ws g (append hs true max_bytes w bare log) cs b

  -- Whatever bare records are appended to an empty log, with rotations on the way, with tails that can be
  -- read and with writes that may fail but are not cut short, the verifier then reports every line as ok
  -- and no read error, provided each line is shorter than the tail window.
  pub verify_log-appends :
      (max_bytes : ℕ) (ws : List Attempt)
      → All IsAppended ws
      → let log = appends max_bytes ws empty_log in
        verify_log hs log ≡ (map (λ _. ok) (lines_of log), false)
  verify_log-appends max_bytes ws c =
      let (g, a) = appends-IsIntact max_bytes ws none empty_log c refl in
      verify_log-intact hs (appends max_bytes ws empty_log) g a

  -- On an intact log, a whole write of a bare record that can be hashed makes the verifier report one
  -- line more, as ok, behind what it reported before.
  pub verify_log-append :
      (max_bytes : ℕ) (bare : Fields) (h : String) (f : Option String) (log : Log)
      → IsAppended (true, whole, bare)
      → IsIntact hs log f
      → record_hash hs (or_genesis f) bare ≡ some h
      → verify_log hs (append hs true max_bytes whole bare log)
        ≡ ((verify_log hs log).0 ++ ok ∷ [], false)
  verify_log-append max_bytes bare h f log c a d =
      let (g, b) = append-IsIntact max_bytes whole bare f log c a in
      verify_log-intact hs (append hs true max_bytes whole bare log) g b
      ∙ ap (λ ss. (ss, false))
          (ap (map (λ _. ok)) (lines_of-append max_bytes bare h f log a d)
            ∙ (map-append (λ _. ok) (lines_of log) _
                ∙ ap (λ ss. ss ++ ok ∷ []) (sym (ap (λ r. r.0) (verify_log-intact hs log f a)))))
