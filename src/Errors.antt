-- ===== src/Errors.antt =====
-- src/zee/errors.py: the codes that the modelled parts raise, and results that may be a `ZeeError`.
-- The Japanese descriptions and the `detail` texts are read by people only and are left out.
use zee.Prelude.{Bool, true, false, ◌≡◌, refl, subst}

-- An error is told by its code.
pub data ZeeError : Type 0 where
  invalid_asset_config : ZeeError  -- Z101
  invalid_response_mode : ZeeError  -- Z103
  invalid_cut_method : ZeeError  -- Z104
  invalid_confidence_for_contain : ZeeError  -- Z403
  restore_failed : ZeeError  -- Z601
  restore_no_cut_record : ZeeError  -- Z605
  restore_unverified : ZeeError  -- Z606
  value_error : ZeeError  -- Python's own ValueError

pub data Result {ℓ} (A : Type ℓ) : Type ℓ where
  ok : A → Result A
  err : ZeeError → Result A

-- `if not b: raise ZeeError(e)`
abbrev pub require : Bool → ZeeError → Result (Unit {0})
require b e = elim b [ true ↦ ok tt | false ↦ err e ]

-- The first error ends a computation.
infixl 5 ◌>>=◌ ◌>>◌
unfoldable pub ◌>>=◌ {ℓ κ} : {X : Type ℓ} {Y : Type κ} → Result X → (X → Result Y) → Result Y
err code >>= next = err code
ok x >>= next = next x

abbrev pub ◌>>◌ {κ} : {Y : Type κ} → Result (Unit {0}) → Result Y → Result Y
first >> second = first >>= λ _. second

-- Inversion of a successful bind.
pub >>=-eq-ok {ℓ κ} :
    {X : Type ℓ} {Y : Type κ} (r : Result X) (next : X → Result Y) {y : Y}
    → (r >>= next) ≡ ok y
    → (x : X) × (r ≡ ok x) × (next x ≡ ok y)
unfolding ◌>>=◌
>>=-eq-ok (err code) next h = cc
>>=-eq-ok (ok x) next h = (x, refl, h)

-- What holds of every value that a computation may return.
pub record Ensures {ℓ κ} {A : Type ℓ} (P : A → Type κ) (m : Result A) : Type (ℓ ⊔ κ) where
  pub holds : (a : A) → m ≡ ok a → P a

pub ok-Ensures {ℓ κ} : {A : Type ℓ} {P : A → Type κ} (a : A) → P a → Ensures P (ok a)
ok-Ensures {P} a h = record { holds = λ b e. subst P (cc e) h }

pub err-Ensures {ℓ κ} : {A : Type ℓ} (P : A → Type κ) (e : ZeeError) → Ensures P (err e)
err-Ensures P e = record { holds = λ b p. absurd (cc p) }

pub trivial-Ensures {ℓ} : {A : Type ℓ} (m : Result A) → Ensures (λ _. Unit {0}) m
trivial-Ensures m = record { holds = λ a e. tt }

pub bind-Ensures {ℓ κ λ₁ λ₂} :
    {A : Type ℓ} {B : Type κ} {P : A → Type λ₁} {Q : B → Type λ₂} {m : Result A} {f : A → Result B}
    → Ensures P m
    → ((a : A) → P a → Ensures Q (f a))
    → Ensures Q (m >>= f)
bind-Ensures {m} {f} h k = record {
  holds = λ b e. let (a, p, q) = >>=-eq-ok m f e in (k a (h.holds a p)).holds b q;
}
