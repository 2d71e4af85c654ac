-- ===== src/Prelude/Dict.antt =====
-- Python's dicts with texts as keys, and its sets of texts, as the code reads and changes them.
use mathlib.Core.Path.{◌≡◌, refl}
use mathlib.Core.Logic.{inl, inr}
use mathlib.Core.Bool.{Bool, true, not, ◌&&◌, ◌||◌}
use mathlib.Core.Option.{Option, none, some}
use mathlib.Core.List.{List, [], ◌∷◌, ◌++◌}
use Prim.Native.Nat.{suc, ◌≤◌}
use Prim.Native.String.{String}
use native.Mathlib.Omega.{arith}
use text.Mathlib.Text.{◌==◌}
use text.Mathlib.TextEquality.{eq_iff}
use zee.Prelude.Tests.{if◌then◌else◌, is_some, Bool-cases}
use zee.Prelude.Lists.{length}
use zee.Prelude.Texts.{contains, contains-append}

abbrev pub Dict {ℓ} : Type ℓ → Type ℓ
Dict A = List (String × A)

module _ {ℓ} {A : Type ℓ} where
  -- `d.get(k)`
  unfoldable pub lookup : String → Dict A → Option A
  lookup k [] = none
  lookup k ((j, v) ∷ d) = let rest = lookup k d in if k == j then some v else rest

  -- `d[k] = v`
  unfoldable pub put : String → A → Dict A → Dict A
  put k v [] = (k, v) ∷ []
  put k v ((j, u) ∷ d) = let rest = put k v d in if k == j then (j, v) ∷ d else (j, u) ∷ rest

  -- `d.pop(k, None)`
  unfoldable pub pop : String → Dict A → Dict A
  pop k [] = []
  pop k ((j, v) ∷ d) = let rest = pop k d in if k == j then rest else (j, v) ∷ rest

  -- `list(d)`
  unfoldable pub keys : Dict A → List String
  keys [] = []
  keys ((j, v) ∷ d) = j ∷ keys d

  -- `{k: v for k, v in d.items() if p(v)}`
  unfoldable pub keep_values : (A → Bool) → Dict A → Dict A
  keep_values p [] = []
  keep_values p ((j, v) ∷ d) = let rest = keep_values p d in if p v then (j, v) ∷ rest else rest

  pub lookup-put :
      (k j : String) (v : A) (d : Dict A)
      → lookup k (put j v d) ≡ (if k == j then some v else lookup k d)
  unfolding lookup put
  lookup-put k j v [] = refl
  lookup-put k j v ((i, u) ∷ d) =
      ground (arith, lookup-put k j v d, eq_iff k j, eq_iff j i, eq_iff k i)

  pub lookup-pop :
      (k j : String) (d : Dict A) → lookup k (pop j d) ≡ (if k == j then none else lookup k d)
  unfolding lookup pop
  lookup-pop k j [] = ground arith
  lookup-pop k j ((i, u) ∷ d) = ground (arith, lookup-pop k j d, eq_iff k j, eq_iff j i, eq_iff k i)

  pub contains-keys : (k : String) (d : Dict A) → contains k (keys d) ≡ is_some (lookup k d)
  unfolding lookup keys contains
  contains-keys k [] = refl
  contains-keys k ((j, v) ∷ d) = ground (arith, contains-keys k d, eq_iff k j)

  pub contains-keys-pop :
      (k j : String) (d : Dict A)
      → contains k (keys (pop j d)) ≡ (not (k == j) && contains k (keys d))
  unfolding keys pop contains
  contains-keys-pop k j [] = ground arith
  contains-keys-pop k j ((i, u) ∷ d) =
      ground (arith, contains-keys-pop k j d, eq_iff k j, eq_iff j i, eq_iff k i)

  pub length-put : (k : String) (v : A) (d : Dict A) → length d ≤ length (put k v d)
  unfolding put
  length-put k v [] = omega arith
  length-put k v ((j, u) ∷ d) = ground (arith, length-put k v d)

module _ {ℓ} {A : Type ℓ} where
  -- No key stands twice, as in every dict of Python.
  unfoldable pub is_dict : Dict A → Bool
  is_dict [] = true
  is_dict ((j, v) ∷ d) = not (is_some (lookup j d)) && is_dict d

  pub is_dict-put :
      (k : String) (v : A) (d : Dict A) → is_dict d ≡ true → is_dict (put k v d) ≡ true
  unfolding is_dict put lookup
  is_dict-put k v [] h = refl
  is_dict-put k v ((j, u) ∷ d) h =
      ground (arith, is_dict-put k v d, lookup-put j k v d, eq_iff k j, eq_iff j k)

  pub is_dict-pop : (k : String) (d : Dict A) → is_dict d ≡ true → is_dict (pop k d) ≡ true
  unfolding is_dict pop
  is_dict-pop k [] h = refl
  is_dict-pop k ((j, u) ∷ d) h = ground (arith, is_dict-pop k d, lookup-pop j k d)

  pop-absent : (k : String) (d : Dict A) → lookup k d ≡ none → pop k d ≡ d
  unfolding lookup pop
  pop-absent k [] h = refl
  pop-absent k ((j, u) ∷ d) h = ground (arith, pop-absent k d)

  pub length-pop : (k : String) (d : Dict A) → is_dict d ≡ true → length d ≤ suc (length (pop k d))
  unfolding is_dict pop
  length-pop k [] h = omega arith
  length-pop k ((j, u) ∷ d) h = ground (arith, length-pop k d, pop-absent k d, eq_iff k j)

-- `s.add(x)`
unfoldable pub add : String → List String → List String
unfolding contains
add x xs = if contains x xs then xs else xs ++ x ∷ []

-- `s.discard(x)`
unfoldable pub discard : String → List String → List String
discard x [] = []
discard x (y ∷ ys) = let rest = discard x ys in if x == y then rest else y ∷ rest

pub contains-add_self : (x : String) (xs : List String) → contains x (add x xs) ≡ true
unfolding add contains
contains-add_self x xs = elim (Bool-cases (contains x xs)) [
  | inl e ↦ rw (e, e) refl
  | inr e ↦ rw (e, contains-append x xs (x ∷ [])) (ground (arith, eq_iff x x))
]

pub contains-discard :
    (k x : String) (xs : List String) → contains k (discard x xs) ≡ (not (k == x) && contains k xs)
unfolding contains discard
contains-discard k x [] = ground arith
contains-discard k x (y ∷ ys) =
    ground (arith, contains-discard k x ys, eq_iff k x, eq_iff x y, eq_iff k y)

pub contains-add :
    (k x : String) (xs : List String) → contains k (add x xs) ≡ (k == x || contains k xs)
unfolding contains add
contains-add k x xs = ground (arith, contains-append k xs (x ∷ []), eq_iff k x)
