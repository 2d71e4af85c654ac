-- ===== src/Egress/Destination.antt =====
-- src/zee/egress/engine.py, `_host` and `_match`: which destinations an entry of a list covers.
use Prim.Native.Nat.{ℕ, suc}
use Prim.Native.Char.{code}
use zee.Prelude.{
  String, Bool, false, ◌&&◌, ◌||◌, Option, none, some, List, ◌==◌, ◌≡◌, refl, nat_eq, ltb, any,
  starts_with, if◌then◌else◌,
}

-- The modules `ipaddress` and `fnmatch`; a text that is no address or no network has no value.
pub record Addresses : Type 1 where
  pub Ip : Type 0
  pub ip_address : String → Option Ip
  pub is_loopback : Ip → Bool
  pub ip_network : String → Option (Ip → Bool)
  pub fnmatch : String → String → Bool

-- `s.count(c)` and `c in s`, for one character
count_char : ℕ → String → ℕ
count_char c String.[] = 0
count_char c (String.◌∷◌ d s) =
    let rest = count_char c s in if nat_eq (code d) c then suc rest else rest

-- `s.rsplit(c, 1)[0]`
before_last : ℕ → String → Option String
before_last c String.[] = none
before_last c (String.◌∷◌ d s) = elim (before_last c s) [
  | some p ↦ some (String.◌∷◌ d p)
  | none ↦ if nat_eq (code d) c then some String.[] else none
]

abbrev or_whole : String → Option String → String
or_whole s none = s
or_whole s (some p) = p

abbrev is_bracket : ℕ → Bool
is_bracket c = nat_eq c b'[' || nat_eq c b']'

drop_brackets : String → String
drop_brackets String.[] = String.[]
drop_brackets (String.◌∷◌ c s) =
    let rest = drop_brackets s in if is_bracket (code c) then rest else String.◌∷◌ c s

drop_final : String → String
drop_final String.[] = String.[]
drop_final (String.◌∷◌ c s) = elim (drop_final s) [
  | String.[] ↦ if is_bracket (code c) then String.[] else String.◌∷◌ c String.[]
  | String.◌∷◌ d t ↦ String.◌∷◌ c (String.◌∷◌ d t)
]

-- `s.strip("[]")`
strip_brackets : String → String
unfolding drop_brackets drop_final
strip_brackets s = drop_final (drop_brackets s)

-- `_host`
unfoldable pub host_of : String → String
unfolding count_char before_last strip_brackets
host_of dest = strip_brackets (
    if nat_eq (count_char b':' dest) 1 || starts_with dest "["
    then or_whole dest (before_last b':' dest)
    else dest)

has_slash : String → Bool
unfolding count_char
has_slash s = ltb 0 (count_char b'/' s)

module _ (net : Addresses) where
  abbrev in_network : Option net.Ip → String → Bool
  in_network none e = false
  in_network (some ip) e = elim (net.ip_network e) [ none ↦ false | some inside ↦ inside ip ]

  -- one entry of the list
  unfoldable pub covers : String → String → Bool
  unfolding has_slash host_of
  covers dest e =
      let host = host_of dest in
      (e == dest)
      || (e == host)
      || (starts_with e "*." && net.fnmatch host e)
      || (has_slash e && in_network (net.ip_address host) e)

  is_local : Option net.Ip → Bool
  is_local none = false
  is_local (some ip) = net.is_loopback ip

  -- `_match`
  unfoldable pub match_dest : String → List String → Bool
  unfolding covers host_of is_local
  match_dest dest entries = is_local (net.ip_address (host_of dest)) || any (covers dest) entries

v6 : host_of "[2001:db8::1]:443" ≡ "2001:db8::1"
unfolding host_of count_char before_last strip_brackets drop_brackets drop_final
v6 = refl

v4 : host_of "203.0.113.7:443" ≡ "203.0.113.7"
unfolding host_of count_char before_last strip_brackets drop_brackets drop_final
v4 = refl
