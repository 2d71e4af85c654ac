-- ===== src/Prelude/Texts.antt =====
-- Texts as the code compares and joins them: membership in a list of texts, and concatenation.
use Prim.Native.Nat.{ℕ, zero, suc}
use Prim.Native.Char.{code}
use Prim.Native.String
use Prim.Native.String.{String}
use mathlib.Core.Path.{◌≡◌, refl}
use mathlib.Core.Bool.{Bool, true, false, not, ◌&&◌, ◌||◌}
use mathlib.Core.List.{List, [], ◌∷◌, ◌++◌}
use native.Mathlib.Omega.{arith}
use text.Mathlib.Text
use text.Mathlib.Text.{◌==◌}
use text.Mathlib.TextEquality.{eq_iff}
use text.Mathlib.TextLemmas.{cons-append}
use zee.Prelude.Tests.{nat_eq, leb, if◌then◌else◌}

infixr 65 ◌<>◌
abbrev pub ◌<>◌ : String → String → String
s <> t = String.◌++◌ s t

-- `s.startswith(t)`
abbrev pub starts_with : String → String → Bool
starts_with = Text.starts_with

-- `s[:n]`
unfoldable pub take_chars : ℕ → String → String
take_chars zero s = String.[]
take_chars (suc n) String.[] = String.[]
take_chars (suc n) (String.◌∷◌ c s) = String.◌∷◌ c (take_chars n s)

-- `"\x00" in s`
unfoldable pub has_nul : String → Bool
has_nul String.[] = false
has_nul (String.◌∷◌ c s) = nat_eq (code c) 0 || has_nul s

-- the characters that `str.strip` removes
abbrev is_space : ℕ → Bool
is_space c =
    (leb 9 c && leb c 13)
    || (leb 28 c && leb c 32)
    || nat_eq c 133
    || nat_eq c 160
    || nat_eq c 5760
    || (leb 8192 c && leb c 8202)
    || nat_eq c 8232
    || nat_eq c 8233
    || nat_eq c 8239
    || nat_eq c 8287
    || nat_eq c 12288

-- `not s.strip()`
unfoldable pub is_blank : String → Bool
is_blank String.[] = true
is_blank (String.◌∷◌ c s) = is_space (code c) && is_blank s

abbrev is_empty_text : String → Bool
is_empty_text String.[] = true
is_empty_text (String.◌∷◌ c s) = false

unfoldable pub rstrip : String → String
rstrip String.[] = String.[]
rstrip (String.◌∷◌ c s) =
    let rest = rstrip s in
    if is_space (code c) && is_empty_text rest then String.[] else String.◌∷◌ c rest

unfoldable pub lstrip : String → String
lstrip String.[] = String.[]
lstrip (String.◌∷◌ c s) = let rest = lstrip s in if is_space (code c) then rest else String.◌∷◌ c s

-- `s.strip()`
unfoldable pub strip : String → String
strip s = lstrip (rstrip s)

-- a text without the characters that `strip` removes
unfoldable pub is_solid : String → Bool
is_solid String.[] = true
is_solid (String.◌∷◌ c s) = not (is_space (code c)) && is_solid s

-- `s.isascii()`
unfoldable pub is_ascii : String → Bool
is_ascii String.[] = true
is_ascii (String.◌∷◌ c s) = leb (code c) 127 && is_ascii s

neither : (b x : Bool) → (not b && x) ≡ true → (b ≡ false) × (x ≡ true)
neither b x h = (ground (arith, h), ground (arith, h))

rstrip-line : (s : String) → is_solid s ≡ true → rstrip (s <> "\n") ≡ s
unfolding rstrip is_solid
rstrip-line String.[] h = refl
rstrip-line (String.◌∷◌ c s) h =
    let (solid, rest) = neither (is_space (code c)) _ h in
    rw (cons-append c s "\n", rstrip-line s rest, solid) refl

lstrip-solid : (s : String) → is_solid s ≡ true → lstrip s ≡ s
unfolding lstrip is_solid
lstrip-solid String.[] h = refl
lstrip-solid (String.◌∷◌ c s) h =
    let (solid, rest) = neither (is_space (code c)) _ h in rw (solid) refl

-- a line of one word
pub strip-line : (s : String) → is_solid s ≡ true → strip (s <> "\n") ≡ s
unfolding strip
strip-line s h = rw (rstrip-line s h) (lstrip-solid s h)

abbrev is_hex_digit : ℕ → Bool
is_hex_digit c = (leb b'0' c && leb c b'9') || (leb b'a' c && leb c b'f')

all_hex : String → Bool
all_hex String.[] = true
all_hex (String.◌∷◌ c s) = is_hex_digit (code c) && all_hex s

-- `re.fullmatch("[0-9a-f]{64}", s)`
unfoldable pub is_hex64 : String → Bool
unfolding all_hex
is_hex64 s = nat_eq (String.count s) 64 && all_hex s

-- `s in xs`
unfoldable pub contains : String → List String → Bool
contains s [] = false
contains s (x ∷ xs) = s == x || contains s xs

-- A text counts as true in a condition when it is not empty.
unfoldable pub truthy : String → Bool
truthy String.[] = false
truthy (String.◌∷◌ _ _) = true

-- `a or b` on texts
unfoldable pub or_else : String → String → String
or_else String.[] b = b
or_else (String.◌∷◌ c s) b = String.◌∷◌ c s

pub contains-append :
    (s : String) (xs ys : List String) → contains s (xs ++ ys) ≡ (contains s xs || contains s ys)
unfolding contains
contains-append s [] ys = refl
contains-append s (x ∷ xs) ys = ground (arith, contains-append s xs ys)

-- The members of `ys` that `xs` lacks, in order: `tuple(y for y in ys if y not in xs)`.
unfoldable pub without : List String → List String → List String
without xs [] = []
without xs (y ∷ ys) = let rest = without xs ys in if contains y xs then rest else y ∷ rest

pub contains-without :
    (s : String) (xs ys : List String)
    → (contains s xs || contains s (without xs ys)) ≡ (contains s xs || contains s ys)
unfolding contains without
contains-without s xs [] = refl
contains-without s xs (y ∷ ys) = ground (arith, contains-without s xs ys, eq_iff s y)

-- `list(dict.fromkeys(xs))`
unfoldable pub distinct : List String → List String
unfolding without
distinct [] = []
distinct (x ∷ xs) = x ∷ without (x ∷ []) (distinct xs)

pub contains-distinct : (s : String) (xs : List String) → contains s (distinct xs) ≡ contains s xs
unfolding contains distinct
contains-distinct s [] = refl
contains-distinct s (x ∷ xs) =
    ground (arith, contains-without s (x ∷ []) (distinct xs), contains-distinct s xs, eq_iff s x)
