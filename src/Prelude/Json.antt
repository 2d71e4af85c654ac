-- ===== src/Prelude/Json.antt =====
-- The values that `json.loads` and `tomllib.load` return, and the dict operations on their objects.
use Prim.Native.Nat.{ℕ, zero, suc, ◌/◌, ◌%◌}
use Prim.Native.String
use Prim.Native.String.{String}
use mathlib.Core.Path.{◌≡◌, refl}
use mathlib.Core.Bool.{Bool, true, false}
use mathlib.Core.Option.{Option, none, some}
use mathlib.Core.List.{List, [], ◌∷◌}
use text.Mathlib.Text.{◌==◌}
use zee.Prelude.Tests.{nat_eq, ltb, if◌then◌else◌}

-- `negsuc n` is -(n + 1). Of a float the code reads no more than its truth value (it is not 0.0);
-- `other` stands for the dates and times of TOML, which count as true.
pub data ℤ : Type 0 where
  pos : ℕ → ℤ
  negsuc : ℕ → ℤ

mutual
  pub data Json : Type 0 where
    null : Json
    bool : Bool → Json
    int : ℤ → Json
    float : Bool → String → Json
    other : String → Json
    str : String → Json
    arr : Items → Json
    obj : Fields → Json

  pub data Items : Type 0 where
    nil : Items
    cons : Json → Items → Items

  pub data Fields : Type 0 where
    end : Fields
    field : String → Json → Fields → Fields

-- `d.get(k)`; `d[k]` raises KeyError where this is `none`
unfoldable pub get : String → Fields → Option Json
get k end = none
get k (field j v fs) = if k == j then some v else get k fs

-- `d.get(k, default)`
unfoldable pub get_or : String → Json → Fields → Json
get_or k d end = d
get_or k d (field j v fs) = if k == j then v else get_or k d fs

-- `{k: v for k, v in d.items() if k not in (a, b)}`
unfoldable pub drop2 : String → String → Fields → Fields
drop2 a b end = end
drop2 a b (field k v fs) =
    let rest = drop2 a b fs in if k == a then rest else if k == b then rest else field k v rest

-- `d[k] = v`
unfoldable pub set : String → Json → Fields → Fields
set k v end = field k v end
set k v (field j u fs) = let rest = set k v fs in if k == j then field j v fs else field j u rest

abbrev pub is_str : Json → Bool
is_str (str _) = true
is_str _ = false

-- `all(isinstance(x, str) for x in xs)` and the texts themselves
unfoldable pub texts : Items → Option (List String)
texts nil = some []
texts (cons (str s) xs) = elim (texts xs) [ none ↦ none | some ss ↦ some (s ∷ ss) ]
texts (cons _ xs) = none

-- `bool(v)`
unfoldable pub truth : Json → Bool
truth null = false
truth (bool b) = b
truth (int (pos zero)) = false
truth (int _) = true
truth (float b _) = b
truth (str String.[]) = false
truth (str _) = true
truth (arr nil) = false
truth (arr _) = true
truth (obj end) = false
truth (obj _) = true
truth (other _) = true

-- `str(n)` on an integer, by its decimal digits; `suc n` rounds are enough for `n`.
digit : ℕ → String
digit d =
    if nat_eq d 0
    then "0"
    else if nat_eq d 1
    then "1"
    else if nat_eq d 2
    then "2"
    else if nat_eq d 3
    then "3"
    else if nat_eq d 4
    then "4"
    else if nat_eq d 5
    then "5"
    else if nat_eq d 6
    then "6"
    else if nat_eq d 7
    then "7"
    else if nat_eq d 8
    then "8"
    else "9"

decimal_fuel : ℕ → ℕ → String
decimal_fuel zero n = ""
decimal_fuel (suc f) n =
    let rest = decimal_fuel f (n / 10) in
    if ltb n 10 then digit n else String.◌++◌ rest (digit (n % 10))

unfoldable pub decimal : ℕ → String
unfolding digit decimal_fuel
decimal n = decimal_fuel (suc n) n

unfoldable pub show_int : ℤ → String
unfolding decimal
show_int (pos n) = decimal n
show_int (negsuc n) = String.◌++◌ "-" (decimal (suc n))

decimal_lem : decimal 2026 ≡ "2026"
unfolding decimal
decimal_lem = refl
