-- ===== src/Egress/Payload.antt =====
-- src/zee/egress/engine.py and signing.py: what a request shows and what a device signs.
pub mod Shown
use zee.Prelude.{
  ℕ, suc, String, Bool, true, false, ◌&&◌, Option, none, some, List, [], ◌∷◌, ◌<>◌, ◌==◌, nat_eq,
  if◌then◌else◌, Dict.Dict,
}
use zee.Prelude.Json
use zee.Prelude.Json.{
  Json, Items, Fields, ℤ, pos, negsuc, null, bool, int, float, other, str, arr, obj, cons, nil,
  field, end, show_int,
}

-- The part of a payload beside the fields that every request has.
pub data Body : Type 0 where
  egress :
      (host : String) (dests procs : List String) (max_bytes : ℕ) (data_ids : List String)
      (until : ℕ)
      → Body
  config : (context : Fields) (op : String) (args : Dict String) → Body

-- `Request`, its payload taken apart: `exp` and `id` stand in it too.
pub record Request : Type 0 where
  pub id : String
  pub nonce : String
  pub exp : ℕ
  pub body : Body
  pub code : String

texts_json : List String → Items
texts_json [] = nil
texts_json (s ∷ ss) = cons (str s) (texts_json ss)

args_json : Dict String → Fields
args_json [] = end
args_json ((k, v) ∷ d) = field k (str v) (args_json d)

join_fields : Fields → Fields → Fields
join_fields end gs = gs
join_fields (field k v fs) gs = field k v (join_fields fs gs)

kind_of : Body → String
kind_of (egress _ _ _ _ _ _) = "egress"
kind_of (config _ _ _) = "config"

body_fields : Body → Fields
unfolding texts_json args_json join_fields
body_fields (egress host dests procs max_bytes ids until) = field "host" (str host) (
    field "dests" (arr (texts_json dests)) (
      field "procs" (arr (texts_json procs)) (
        field "max_bytes" (int (pos max_bytes))
          (field "data" (arr (texts_json ids)) (field "until" (int (pos until)) end)))))
body_fields (config context op args) =
    join_fields context (field "op" (str op) (field "args" (obj (args_json args)) end))

-- `req.payload`
unfoldable pub payload_of : Request → Fields
unfolding kind_of body_fields
payload_of r = field "v" (int (pos 1)) (
    field "kind" (str (kind_of r.body)) (
      field "req" (str r.id)
        (field "nonce" (str r.nonce) (field "exp" (int (pos r.exp)) (body_fields r.body)))))

-- `a == b` of Python on decoded JSON. `True` is 1 and `False` is 0; a float is told by its digits.
abbrev int_of_bool : Bool → ℤ
int_of_bool true = pos 1
int_of_bool false = pos 0

abbrev ℤ_eq : ℤ → ℤ → Bool
ℤ_eq (pos n) (pos m) = nat_eq n m
ℤ_eq (negsuc n) (negsuc m) = nat_eq n m
ℤ_eq _ _ = false

abbrev bool_eq : Bool → Bool → Bool
bool_eq true b = b
bool_eq false true = false
bool_eq false false = true

size : Fields → ℕ
size end = 0
size (field _ _ fs) = suc (size fs)

int_is_float : ℤ → String → Bool
int_is_float n x = show_int n <> ".0" == x

number_eq : ℤ → Json → Bool
unfolding int_is_float
number_eq n (int m) = ℤ_eq n m
number_eq n (bool b) = ℤ_eq n (int_of_bool b)
number_eq n (float _ x) = int_is_float n x
number_eq n _ = false

float_eq : String → Json → Bool
unfolding int_is_float
float_eq x (int n) = int_is_float n x
float_eq x (bool b) = int_is_float (int_of_bool b) x
float_eq x (float _ y) = x == y
float_eq x _ = false

mutual
  json_eq : Json → Json → Bool
  json_eq null null = true
  json_eq (int n) v = number_eq n v
  json_eq (bool b) v = number_eq (int_of_bool b) v
  json_eq (float _ x) v = float_eq x v
  json_eq (other s) (other t) = s == t
  json_eq (str s) (str t) = s == t
  json_eq (arr xs) (arr ys) = items_eq xs ys
  json_eq (obj fs) (obj gs) = nat_eq (size fs) (size gs) && fields_in fs gs
  json_eq _ _ = false

  items_eq : Items → Items → Bool
  items_eq nil nil = true
  items_eq (cons x xs) (cons y ys) = json_eq x y && items_eq xs ys
  items_eq _ _ = false

  fields_in : Fields → Fields → Bool
  fields_in end gs = true
  fields_in (field k v fs) gs =
      let rest = fields_in fs gs in
      elim (Json.get k gs) [ none ↦ false | some u ↦ json_eq v u && rest ]

-- `a == b` on two objects without a key twice
unfoldable pub fields_eq : Fields → Fields → Bool
unfolding size number_eq float_eq fields_in json_eq items_eq int_is_float
fields_eq fs gs = nat_eq (size fs) (size gs) && fields_in fs gs

-- `{**payload, "entered": entered}`
unfoldable pub with_entered : String → Fields → Fields
with_entered e end = field "entered" (str e) end
with_entered e (field k v fs) =
    let rest = with_entered e fs in if k == "entered" then field k (str e) fs else field k v rest
