-- ===== src/Recovery/Restore/Confirmed.antt =====
-- What a confirmed judgement of src/zee/recovery/restore.py says of the steps behind it.
use zee.Prelude.{
  String, Bool, true, false, ◌&&◌, ◌≡◌, refl, sym, ap, ◌∙◌, inl, inr, Option, none, some, List, [],
  ◌∷◌, map, arith, any, all, contains, distinct, contains-distinct, eq_iff, ◌==◌, Bool-cases,
}
use zee.Recovery.Host.{is_confirmed, Step, combine, summary, is_false, is_unconfirmed}
use zee.Recovery.Restore.{verdict, state_in, readback}

abbrev pub is_enabled : Option String → Bool
is_enabled none = false
is_enabled (some v) = v == "enabled"

all_confirmed :
    (ss : List (Option Bool))
    → any is_false ss ≡ false
    → any is_unconfirmed ss ≡ false
    → all is_confirmed ss ≡ true
all_confirmed [] h k = refl
all_confirmed (none ∷ ss) h k = absurd (cc k)
all_confirmed (some false ∷ ss) h k = absurd (cc h)
all_confirmed (some true ∷ ss) h k = all_confirmed ss h k

pub combine-confirmed :
    (ss : List (Option Bool)) → combine ss ≡ some true → all is_confirmed ss ≡ true
unfolding combine
combine-confirmed [] h = absurd (cc h)
combine-confirmed (s ∷ ss) h = all_confirmed (s ∷ ss) (ground (arith, h)) (ground (arith, h))

all-map :
    (steps : List Step)
    → all is_confirmed (map (λ step. step.1) steps) ≡ all (λ step. is_confirmed step.1) steps
all-map [] = refl
all-map (s ∷ steps) = ap (λ b. is_confirmed s.1 && b) (all-map steps)

pub summary-confirmed :
    (steps : List Step) → summary steps ≡ some true → all (λ step. is_confirmed step.1) steps ≡ true
unfolding summary
summary-confirmed [] h = absurd (cc h)
summary-confirmed (s ∷ steps) h =
    sym (all-map (s ∷ steps)) ∙ combine-confirmed (map (λ step. step.1) (s ∷ steps)) h

verdict-enabled : (o : Option String) → is_confirmed (verdict o) ≡ true → is_enabled o ≡ true
unfolding verdict
verdict-enabled none h = absurd (cc h)
verdict-enabled (some v) h = ground (arith, h)

all_enabled :
    (states : List (String × String)) (ts : List String)
    → all is_confirmed (map (λ t. verdict (state_in states t)) ts) ≡ true
    → (t : String) → contains t ts ≡ true
    → is_enabled (state_in states t) ≡ true
unfolding contains
all_enabled states [] h t k = absurd (cc k)
all_enabled states (u ∷ ts) h t k =
    let first : is_confirmed (verdict (state_in states u)) ≡ true = ground (arith, h) in
    let rest : all is_confirmed (map (λ t. verdict (state_in states t)) ts) ≡ true =
      ground (arith, h) in
    elim (Bool-cases (t == u)) [
      | inl same ↦ rw ((eq_iff t u).0 same) (verdict-enabled (state_in states u) first)
      | inr other ↦ all_enabled states ts rest t (rw other at k)
    ]

-- Every target is listed as enabled.
pub readback-enabled :
    (states : Option (List (String × String))) (ts : List String)
    → readback states ts ≡ some true
    → (listed : List (String × String)) × (states ≡ some listed)
      × ((t : String) → contains t ts ≡ true → is_enabled (state_in listed t) ≡ true)
unfolding readback
readback-enabled none ts h = absurd (cc h)
readback-enabled (some listed) ts h = (
  listed,
  refl,
  λ t k.
      all_enabled listed (distinct ts)
        (combine-confirmed (map (λ t. verdict (state_in listed t)) (distinct ts)) h) t
        (contains-distinct t ts ∙ k),
)
