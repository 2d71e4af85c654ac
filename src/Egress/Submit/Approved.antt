-- ===== src/Egress/Submit/Approved.antt =====
-- What src/zee/egress/engine.py, `submit`, has checked of an answer that it accepts.
use zee.Prelude.{
  ◌≡◌, refl, ◌≤◌, String, Bool, true, false, not, ◌&&◌, Option, none, some, arith, ltb, ◌==◌, ◌≢◌,
  ◌∙◌, ap, Option-cases, inl, inr, is_some, eq_iff,
}
use zee.Prelude.Dict.{lookup}
use zee.Prelude.Exec.{returned, give, ◌>>=◌, resume}
use zee.Prelude.Json
use zee.Prelude.Json.{Json, Fields, obj, str}
use zee.Egress.Payload.{Request, payload_of, fields_eq, with_entered}
use zee.Egress.World.{World, Env, edit, log, save}
use zee.Egress.Submit.{
  Judgement, deny, expire, accept, accepted, judge_request, judge_pending, settle, spend,
  check_named, check_answer, removes_key, key_floor,
}

-- The answer names a request that Zee issued and that is still waiting and in time; what was shown is
-- that request, and a registered key signed it together with the code that the host shows; the
-- signature was not used before, and no key is removed that approval still needs.
pub record IsApproved (env : Env) (w : World) (payload : Fields) (entered key_id signature : String)
    (req : Request) : Type 0 where
  pub rid : String
  pub named : Json.get "req" payload ≡ some (str rid)
  pub pending : lookup rid w.pending ≡ some req
  pub in_time : w.now ≤ req.exp
  pub shown : fields_eq payload (payload_of req) ≡ true
  pub public_key : String
  pub registered : lookup key_id w.state.keys ≡ some public_key
  pub unused : lookup (env.digest (with_entered entered payload)) w.state.used ≡ none
  pub signed : env.verify public_key (env.digest (with_entered entered payload)) signature ≡ true
  pub matched : entered ≡ req.code
  pub key_left : (removes_key req.body && key_floor w.state) ≡ false

-- the tests that `judge_request` makes once the key is known, in their order
accepts : Env → World → Fields → (entered public_key signature : String) → Request → Bool
accepts env w payload entered public_key signature req =
    let digest = env.digest (with_entered entered payload) in
    not (ltb req.exp w.now)
    && fields_eq payload (payload_of req)
    && not (is_some (lookup digest w.state.used))
    && env.verify public_key digest signature
    && (entered == req.code)
    && not (removes_key req.body && key_floor w.state)

known_key :
    (env : Env) (w : World) (payload : Fields) (entered key_id signature : String) (r req : Request)
    (digest public_key : String)
    → lookup key_id w.state.keys ≡ some public_key
    → judge_request env w payload entered key_id signature r ≡ accept req digest
    → (r ≡ req)
      × (env.digest (with_entered entered payload) ≡ digest)
      × (accepts env w payload entered public_key signature r ≡ true)
unfolding accepts judge_request
known_key env w payload entered key_id signature r req digest public_key k h =
    let j = rw (judge_request, k) at h in ground arith

unknown_key :
    (env : Env) (w : World) (payload : Fields) (entered key_id signature : String) (r req : Request)
    (digest : String)
    → lookup key_id w.state.keys ≡ none
    → judge_request env w payload entered key_id signature r ≢ accept req digest
unfolding judge_request
unknown_key env w payload entered key_id signature r req digest k h =
    let j = rw (judge_request, k) at h in ground arith

pub judged_accept :
    (env : Env) (w : World) (payload : Fields) (entered key_id signature rid : String)
    (o : Option Request) (req : Request) (digest : String)
    → Json.get "req" payload ≡ some (str rid)
    → lookup rid w.pending ≡ o
    → judge_pending env w payload entered key_id signature o ≡ accept req digest
    → IsApproved env w payload entered key_id signature req
unfolding judge_pending accepts
judged_accept env w payload entered key_id signature rid none req digest n p h = absurd (cc h)
judged_accept env w payload entered key_id signature rid (some r) req digest n p h =
    elim (Option-cases (lookup key_id w.state.keys)) [
      | inl e ↦ absurd (unknown_key env w payload entered key_id signature r req digest e h)
      | inr (public_key, e) ↦
          let (same, _, tests) =
            known_key env w payload entered key_id signature r req digest public_key e h in
          record {
            rid = rid;
            named = n;
            pending = p ∙ ap (λ x. some x) same;
            in_time = ground arith;
            shown = ground arith;
            public_key = public_key;
            registered = e;
            unused = ground arith;
            signed = ground arith;
            matched = ground (arith, eq_iff entered r.code);
            key_left = ground arith;
          }
    ]

settle-accepted :
    (env : Env) (rid : String) (j : Judgement) (w : World) (req : Request)
    → (settle env rid j w).0 ≡ returned (accepted req)
    → (digest : String) × (j ≡ accept req digest)
unfolding settle give edit log save spend resume ◌>>=◌
settle-accepted env rid (deny reason) w req h = absurd (cc h)
settle-accepted env rid expire w req h = absurd (cc h)
settle-accepted env rid (accept r digest) w req h = (digest, ground arith)

-- The arguments of an accepted call of `submit`, and what they passed.
pub record Accepted (env : Env) (w : World) (payload entered key_id : Json)
    (signature : Option String) (req : Request) : Type 0 where
  pub fields : Fields
  pub code : String
  pub key : String
  pub bytes : String
  pub is_fields : payload ≡ obj fields
  pub is_code : entered ≡ str code
  pub is_key : key_id ≡ str key
  pub is_bytes : signature ≡ some bytes
  pub approved : IsApproved env w fields code key bytes req

check_named-Accepted :
    (env : Env) (w : World) (payload : Fields) (entered key_id signature : String) (o : Option Json)
    (req : Request)
    → Json.get "req" payload ≡ o
    → (check_named env payload entered key_id signature o w).0 ≡ returned (accepted req)
    → IsApproved env w payload entered key_id signature req
unfolding check_named
check_named-Accepted env w payload entered key_id signature (some (str rid)) req n h =
    let (digest, e) = settle-accepted env rid _ w req h in
    judged_accept env w payload entered key_id signature rid (lookup rid w.pending) req digest n
      refl e
check_named-Accepted env w payload entered key_id signature _ req n h =
    absurd (cc ((settle-accepted env "" _ w req h).1))

pub check_answer-Accepted :
    (env : Env) (w : World) (payload entered key_id : Json) (signature : Option String)
    (req : Request)
    → (check_answer env payload entered key_id signature w).0 ≡ returned (accepted req)
    → Accepted env w payload entered key_id signature req
unfolding check_answer
check_answer-Accepted env w (obj fields) (str code) (str key) (some bytes) req h = record {
  fields = fields;
  code = code;
  key = key;
  bytes = bytes;
  is_fields = refl;
  is_code = refl;
  is_key = refl;
  is_bytes = refl;
  approved = check_named-Accepted env w fields code key bytes (Json.get "req" fields) req refl h;
}
check_answer-Accepted env w _ _ _ _ req h = absurd (cc ((settle-accepted env "" _ w req h).1))
