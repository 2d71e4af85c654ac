-- ===== src/Privsep/Dispatch/Peers.antt =====
-- Peers of src/zee/privsep/daemon.py that are not allowed.
use zee.Prelude.{
  ℕ, String, Bool, true, false, ◌≡◌, refl, Option, none, some, [], ◌∷◌, ◌==◌, arith, nat_eq,
  contains, if◌then◌else◌, Bool-cases, inl, inr,
}
use zee.Prelude.Json
use zee.Prelude.Json.{Json, Fields, null, bool, int, float, other, obj, str, arr}
use zee.Privsep.World.{Env, Daemon}
use zee.Privsep.Reply.{Reply, failed_with, reply_code}
use zee.Privsep.Handle.{uid_in}
use zee.Privsep.Dispatch.{peer_fault, admitted, handle_op, handle, handle_line}

-- malformed, not allowed, or unknown
abbrev pub is_rejection : Option String → Bool
is_rejection none = false
is_rejection (some c) = contains c ("Z711" ∷ "Z712" ∷ "Z713" ∷ [])

-- what a stranger gets: nothing happens, and the reply is a rejection
pub record IsRejected (env : Env) (d : Daemon) (answer : (Reply × Option String) × Daemon)
    : Type 0 where
  pub unchanged : answer.1 ≡ d
  pub not_ok : answer.0.0.ok ≡ false
  pub code : is_rejection answer.0.1 ≡ true

coded : Reply × Daemon → (Reply × Option String) × Daemon
coded (r, e) = ((r, (if r.ok then none else some (reply_code r))), e)

failed-IsRejected :
    (env : Env) (d : Daemon) (e : String)
    → is_rejection (some (reply_code (failed_with e))) ≡ true
    → IsRejected env d (coded (failed_with e, d))
unfolding coded
failed-IsRejected env d e h = record { unchanged = refl; not_ok = refl; code = h }

stranger-fault :
    (env : Env) (op : String) (uid : ℕ)
    → uid_in uid env.allow ≡ false
    → nat_eq uid 0 ≡ false
    → (e : String) × (peer_fault env op uid ≡ some e)
      × (is_rejection (some (reply_code (failed_with e))) ≡ true)
unfolding peer_fault reply_code contains
stranger-fault env op uid h k = elim (Bool-cases (op == "bootstrap_key")) [
  | inl e ↦ ("root_only", rw (e, k) refl, refl)
  | inr e ↦ elim (Bool-cases (contains op ("cut" ∷ "status" ∷ "challenge" ∷ "submit" ∷ []))) [
    | inl c ↦ ("peer_not_allowed", ground (arith, e, c, h, k), refl)
    | inr c ↦ ("unknown_op", ground (arith, e, c), refl)
  ]
]

malformed-IsRejected :
    (env : Env) (d : Daemon) → IsRejected env d (coded (failed_with "malformed", d))
unfolding reply_code contains
malformed-IsRejected env d = failed-IsRejected env d "malformed" refl

op-IsRejected :
    (env : Env) (req : Fields) (uid : ℕ) (d : Daemon)
    → uid_in uid env.allow ≡ false
    → nat_eq uid 0 ≡ false
    → (o : Option Json) → IsRejected env d (coded (handle_op env req uid d o))
unfolding handle_op admitted
op-IsRejected env req uid d h k (some (str op)) =
    let (e, fault, code) = stranger-fault env op uid h k in
    rw (fault) (failed-IsRejected env d e code)
op-IsRejected env req uid d h k _ = malformed-IsRejected env d

handle-IsRejected :
    (env : Env) (line : Option Json) (uid : ℕ) (d : Daemon)
    → uid_in uid env.allow ≡ false
    → nat_eq uid 0 ≡ false
    → IsRejected env d (coded (handle env line uid d))
unfolding handle
handle-IsRejected env (some (obj req)) uid d h k =
    op-IsRejected env req uid d h k (Json.get "op" req)
handle-IsRejected env _ uid d h k = malformed-IsRejected env d

-- A peer that is neither root nor allowed changes nothing, whatever it sends: it is never answered
-- with ok, and the code of its reply says that it is not allowed (Z712), that the line was not
-- understood (Z711), or that the operation is unknown (Z713).
pub stranger-IsRejected :
    (env : Env) (line : Option Json) (uid : ℕ) (d : Daemon)
    → uid_in uid env.allow ≡ false
    → nat_eq uid 0 ≡ false
    → IsRejected env d (handle_line env line uid d)
unfolding handle_line coded
stranger-IsRejected env line uid d h k = handle-IsRejected env line uid d h k
