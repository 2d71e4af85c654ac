-- ===== src/Prelude/Sort.antt =====
-- Python's `sorted`, over any order, and what it leaves as it was.
use Prim.Native.Nat.{Ordering}
use Prim.Native.String.{String, compare}
use mathlib.Core.Path.{◌≡◌, refl}
use mathlib.Core.Bool.{Bool, true, false, ◌||◌}
use mathlib.Core.List.{List, [], ◌∷◌}
use native.Mathlib.Omega.{arith}
use text.Mathlib.Text.{◌==◌}
use zee.Prelude.Tests.{if◌then◌else◌}
use zee.Prelude.Texts.{contains, distinct, contains-distinct}

abbrev pub le_of : Ordering → Bool
le_of Ordering.gt = false
le_of _ = true

module _ {A : Type 0} (order : A → A → Ordering) where
  insert : A → List A → List A
  insert a [] = a ∷ []
  insert a (b ∷ bs) = let rest = insert a bs in if le_of (order a b) then a ∷ b ∷ bs else b ∷ rest

  -- `sorted`
  unfoldable pub sorted : List A → List A
  unfolding insert
  sorted [] = []
  sorted (a ∷ rest) = insert a (sorted rest)

contains-insert :
    (k a : String) (xs : List String) → contains k (insert compare a xs) ≡ (k == a || contains k xs)
unfolding insert contains
contains-insert k a [] = refl
contains-insert k a (b ∷ bs) = ground (arith, contains-insert k a bs)

contains-sorted : (k : String) (xs : List String) → contains k (sorted compare xs) ≡ contains k xs
unfolding sorted contains
contains-sorted k [] = refl
contains-sorted k (a ∷ rest) =
    ground (arith, contains-insert k a (sorted compare rest), contains-sorted k rest)

-- `sorted(s)` of a set of texts, given by its members with repetitions
unfoldable pub sorted_set : List String → List String
unfolding sorted insert
sorted_set xs = sorted compare (distinct xs)

pub contains-sorted_set :
    (k : String) (xs : List String) → contains k (sorted_set xs) ≡ contains k xs
unfolding sorted_set
contains-sorted_set k xs = ground (arith, contains-sorted k (distinct xs), contains-distinct k xs)
