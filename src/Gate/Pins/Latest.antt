-- ===== src/Gate/Pins/Latest.antt =====
-- Of each install directory src/zee/gate/pins.py keeps exactly the latest pin.
use zee.Prelude.{
  String, ◌≡◌, refl, ap, ◌∙◌, Option, none, some, List, [], ◌∷◌, ◌==◌, arith, eq_iff, if◌then◌else◌,
}
use zee.Gate.Pins.{Pin, upsert, latest_from, insert_pin, sort_pins, all_pins}

-- The first pin of a directory, and the last one of the log.
abbrev pub find : String → List Pin → Option Pin
find d [] = none
find d (p ∷ ps) = if p.install_dir == d then some p else find d ps

abbrev pub later : Option Pin → Option Pin → Option Pin
later none b = b
later (some a) b = some a

abbrev pub last_pin : String → List Pin → Option Pin
last_pin d [] = none
last_pin d (p ∷ ps) = later (last_pin d ps) (if p.install_dir == d then some p else none)

-- No directory stands twice.
abbrev pub OncePerDir : List Pin → Type 0
OncePerDir [] = Unit
OncePerDir (p ∷ ps) = (find p.install_dir ps ≡ none) × OncePerDir ps

find-upsert :
    (d : String) (p : Pin) (ps : List Pin)
    → find d (upsert p ps) ≡ (if p.install_dir == d then some p else find d ps)
unfolding upsert
find-upsert d p [] = refl
find-upsert d p (q ∷ qs) = ground (
  arith,
  find-upsert d p qs,
  eq_iff p.install_dir q.install_dir,
  eq_iff p.install_dir d,
  eq_iff q.install_dir d,
)

upsert-OncePerDir : (p : Pin) (ps : List Pin) → OncePerDir ps → OncePerDir (upsert p ps)
unfolding upsert
upsert-OncePerDir p [] h = (refl, tt)
upsert-OncePerDir p (q ∷ qs) (fresh, h) = ground (
  arith,
  upsert-OncePerDir p qs h,
  find-upsert q.install_dir p qs,
  eq_iff p.install_dir q.install_dir,
)

find-latest_from :
    (d : String) (acc recs : List Pin)
    → find d (latest_from acc recs) ≡ later (last_pin d recs) (find d acc)
unfolding latest_from
find-latest_from d acc [] = refl
find-latest_from d acc (p ∷ ps) =
    ground (arith, find-latest_from d (upsert p acc) ps, find-upsert d p acc)

latest_from-OncePerDir : (acc recs : List Pin) → OncePerDir acc → OncePerDir (latest_from acc recs)
unfolding latest_from
latest_from-OncePerDir acc [] h = h
latest_from-OncePerDir acc (p ∷ ps) h =
    latest_from-OncePerDir (upsert p acc) ps (upsert-OncePerDir p acc h)

find-insert_pin :
    (d : String) (p : Pin) (ps : List Pin)
    → find p.install_dir ps ≡ none
    → find d (insert_pin p ps) ≡ (if p.install_dir == d then some p else find d ps)
unfolding insert_pin
find-insert_pin d p [] h = refl
find-insert_pin d p (q ∷ qs) h = ground (
  arith,
  find-insert_pin d p qs,
  eq_iff p.install_dir d,
  eq_iff q.install_dir p.install_dir,
  eq_iff q.install_dir d,
)

insert_pin-OncePerDir :
    (p : Pin) (ps : List Pin)
    → find p.install_dir ps ≡ none
    → OncePerDir ps
    → OncePerDir (insert_pin p ps)
unfolding insert_pin
insert_pin-OncePerDir p [] h k = (refl, tt)
insert_pin-OncePerDir p (q ∷ qs) h (fresh, k) = ground (
  arith,
  insert_pin-OncePerDir p qs,
  find-insert_pin q.install_dir p qs,
  eq_iff q.install_dir p.install_dir,
  eq_iff p.install_dir q.install_dir,
)

sort_pins-facts :
    (ps : List Pin)
    → OncePerDir ps
    → ((d : String) → find d (sort_pins ps) ≡ find d ps) × OncePerDir (sort_pins ps)
unfolding sort_pins
sort_pins-facts [] h = (λ d. refl, tt)
sort_pins-facts (p ∷ ps) (fresh, h) =
    let (same, once) = sort_pins-facts ps h in
    let free : find p.install_dir (sort_pins ps) ≡ none = same p.install_dir ∙ fresh in
    (
      λ d.
          find-insert_pin d p (sort_pins ps) free
          ∙ ap (λ r. if p.install_dir == d then some p else r) (same d),
      insert_pin-OncePerDir p (sort_pins ps) free once,
    )

later-none : (o : Option Pin) → later o none ≡ o
later-none none = refl
later-none (some p) = refl

-- The registry lists for each install directory the pin that was recorded last for it, and no other:
-- a directory that was never pinned is not listed, and none is listed twice.
pub all_pins-latest :
    (recs : List Pin)
    → ((d : String) → find d (all_pins recs) ≡ last_pin d recs) × OncePerDir (all_pins recs)
unfolding all_pins
all_pins-latest recs =
    let (same, once) = sort_pins-facts (latest_from [] recs) (latest_from-OncePerDir [] recs tt) in
    (λ d. same d ∙ (find-latest_from d [] recs ∙ later-none (last_pin d recs)), once)
