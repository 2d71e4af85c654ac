-- ===== src/Gate/Denylist/Laws.antt =====
-- What src/zee/gate/denylist.py keeps: an added entry stays, is found again, and is added once.
use zee.Prelude.{
  String, Bool, true, not, ◌&&◌, ◌||◌, ◌≡◌, refl, ◌∙◌, List, [], ◌∷◌, ◌++◌, arith, eq_iff, eq_refl,
  any, all, contains, contains-append, truthy,
}
use zee.Gate.Model.{Artifact}
use zee.Gate.Scorer.{is_high}
use zee.Gate.Denylist.{Lists, dedup, merged, add_all, add_local, check}

contains-dedup :
    (s : String) (seen xs : List String)
    → (contains s seen || contains s (dedup seen xs)) ≡ (contains s seen || contains s xs)
unfolding dedup contains
contains-dedup s seen [] = refl
contains-dedup s seen (x ∷ xs) =
    ground (arith, contains-dedup s (x ∷ seen) xs, contains-dedup s seen xs, eq_iff s x)

-- An entry is on the merged list exactly if the shipped list or the overlay holds it.
pub contains-merged :
    (s : String) (repo local : Lists)
    → contains s (merged repo local).hashes ≡ (contains s repo.hashes || contains s local.hashes)
unfolding merged contains
contains-merged s repo local =
    contains-dedup s [] (repo.hashes ++ local.hashes) ∙ contains-append s repo.hashes local.hashes

-- What is on the list after `add_all`: what was, and the entries that are not empty and not known.
contains-add_all :
    (s : String) (known cur hs : List String)
    → contains s (add_all known cur hs)
      ≡ (contains s cur || contains s hs && truthy s && not (contains s known))
unfolding add_all contains
contains-add_all s known cur [] = ground arith
contains-add_all s known cur (h ∷ hs) = ground (
  arith,
  contains-add_all s known (cur ++ h ∷ []) hs,
  contains-add_all s known cur hs,
  contains-append s cur (h ∷ []),
  eq_iff s h,
)

add_all_known :
    (known cur hs : List String)
    → all (λ h. not (truthy h) || contains h known) hs ≡ true
    → add_all known cur hs ≡ cur
unfolding add_all
add_all_known known cur [] h = refl
add_all_known known cur (x ∷ xs) h = ground (arith, add_all_known known cur xs)

all_of_contains :
    (p : String → Bool) (hs : List String)
    → ((h : String) → contains h hs ≡ true → p h ≡ true)
    → all p hs ≡ true
unfolding contains
all_of_contains p [] k = refl
all_of_contains p (x ∷ xs) k =
    let here : p x ≡ true = k x (ground (arith, eq_refl x)) in
    ground (arith, here, all_of_contains p xs (λ h m. k h (ground arith)))

-- After an addition the merged list of hashes holds what it held before and every added hash that
-- is not empty, and nothing else.
pub contains-add_local :
    (s : String) (repo local : Lists) (hashes names : List String)
    → contains s (merged repo (add_local repo local hashes names)).hashes
      ≡ (contains s (merged repo local).hashes || contains s hashes && truthy s)
unfolding add_local
contains-add_local s repo local hashes names = ground (
  arith,
  contains-merged s repo local,
  contains-merged s repo (add_local repo local hashes names),
  contains-add_all s (merged repo local).hashes local.hashes hashes,
)

-- Adding the same hashes once more changes no list of hashes.
pub add_local_idem :
    (repo local : Lists) (hashes names : List String)
    → let once = add_local repo local hashes names in
      (add_local repo once hashes names).hashes ≡ once.hashes
unfolding add_local
add_local_idem repo local hashes names =
    add_all_known _ _ hashes (
      all_of_contains _ hashes
        (λ h m. ground (arith, contains-add_local h repo local hashes names)))

-- An artifact gets a finding of high severity exactly if its hash or its name is on the merged list.
pub check-high :
    (repo local : Lists) (a : Artifact)
    → any is_high (check repo local a) ≡ (
        contains a.content_hash (merged repo local).hashes
        || contains a.name (merged repo local).names)
unfolding check
check-high repo local a = ground arith
