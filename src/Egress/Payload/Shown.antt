-- ===== src/Egress/Payload/Shown.antt =====
-- What the comparison of a submitted payload with a request of src/zee/egress/engine.py says of a field.
use zee.Prelude.{
  ◌≡◌, ◌≢◌, refl, ap, ◌∙◌, subst, nat_eq, Bool-cases, ◌⊎◌, String, Bool, true, false, ◌&&◌, some,
  ◌==◌, arith, eq_iff, Option-cases, inl, inr,
}
use zee.Prelude.Json
use zee.Prelude.Json.{Json, Fields, str, null, bool, int, float, other, arr, obj, end, field}
use zee.Egress.Payload.{Request, payload_of, fields_eq, fields_in, json_eq, size}

both : (a b : Bool) → (a && b) ≡ true → (a ≡ true) × (b ≡ true)
both true b h = (refl, h)
both false b h = absurd (cc h)

unnamed : (k s : String) → Json.get k end ≢ some (str s)
unfolding Json.get
unnamed k s h = cc h

fields_eq-in : (fs gs : Fields) → fields_eq fs gs ≡ true → fields_in fs gs ≡ true
unfolding fields_eq
fields_eq-in fs gs h = (both (nat_eq (size fs) (size gs)) _ h).1

str-eq : (s : String) (v : Json) → json_eq (str s) v ≡ true → v ≡ str s
unfolding json_eq
str-eq s null h = absurd (cc h)
str-eq s (bool b) h = absurd (cc h)
str-eq s (int n) h = absurd (cc h)
str-eq s (float b x) h = absurd (cc h)
str-eq s (other x) h = absurd (cc h)
str-eq s (str t) h = ground (arith, eq_iff s t)
str-eq s (arr xs) h = absurd (cc h)
str-eq s (obj fs) h = absurd (cc h)

fields_in-field :
    (j : String) (v : Json) (fs gs : Fields)
    → fields_in (field j v fs) gs ≡ true
    → (u : Json) × (Json.get j gs ≡ some u) × (json_eq v u ≡ true) × (fields_in fs gs ≡ true)
unfolding fields_in
fields_in-field j v fs gs h = elim (Option-cases (Json.get j gs)) [
  | inl e ↦ absurd (ground (arith, e))
  | inr (u, e) ↦
      let (same, rest) = both (json_eq v u) _ (rw (e, fields_in) at h) in (u, e, same, rest)
]

-- the first field with a key is the one that counts
get-cases :
    (k j s : String) (v : Json) (fs : Fields)
    → Json.get k (field j v fs) ≡ some (str s)
    → ((k ≡ j) × (v ≡ str s)) ⊎ (Json.get k fs ≡ some (str s))
unfolding Json.get
get-cases k j s v fs g = elim (Bool-cases (k == j)) [
  | inl e ↦ inl (ground (arith, e, eq_iff k j), ground (arith, e))
  | inr e ↦ inr (ground (arith, e))
]

fields_in-get :
    (k s : String) (fs gs : Fields)
    → fields_in fs gs ≡ true
    → Json.get k fs ≡ some (str s)
    → Json.get k gs ≡ some (str s)
fields_in-get k s end gs h g = absurd (unnamed k s g)
fields_in-get k s (field j v fs) gs h g =
    let (u, e, same, rest) = fields_in-field j v fs gs h in
    elim (get-cases k j s v fs g) [
      | inl (p, q) ↦
          ap (λ i. Json.get i gs) p
          ∙ (e ∙ ap (λ x. some x) (str-eq s u (subst (λ x. json_eq x u ≡ true) q same)))
      | inr q ↦ fields_in-get k s fs gs rest q
    ]

req-payload : (req : Request) → Json.get "req" (payload_of req) ≡ some (str req.id)
unfolding payload_of Json.get
req-payload req = refl

-- the request that a submitted payload names is the one that it is compared with
pub shown-id :
    (s : String) (fs : Fields) (req : Request)
    → fields_eq fs (payload_of req) ≡ true
    → Json.get "req" fs ≡ some (str s)
    → s ≡ req.id
shown-id s fs req h g =
    let inside = fields_eq-in fs (payload_of req) h in
    let found = fields_in-get "req" s fs (payload_of req) inside g in cc (found, req-payload req)
