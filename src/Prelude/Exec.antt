-- ===== src/Prelude/Exec.antt =====
-- Methods that change an object and may raise: the object keeps what was written before the raise.
-- A relation between the object before and after is followed through a method, one rule for each
-- way to build it.
use mathlib.Core.Path.{◌≡◌, refl}
use mathlib.Core.Bool.{Bool, true, false}
use zee.Prelude.Tests.{if◌then◌else◌}

-- An exception is told by its class.
pub data Exn : Type 0 where
  permission_error : Exn
  value_error : Exn
  os_error : Exn
  zee_error : Exn
  other_error : Exn

pub data Outcome {ℓ} (A : Type ℓ) : Type ℓ where
  returned : A → Outcome A
  raised : Exn → Outcome A

abbrev pub Exec {ℓ κ} : Type ℓ → Type κ → Type (ℓ ⊔ κ)
Exec W A = W → Outcome A × W

module _ {ℓ κ} {W : Type ℓ} {A : Type κ} where
  unfoldable pub give : A → Exec W A
  give a w = (returned a, w)

  unfoldable pub throw : Exn → Exec W A
  throw e w = (raised e, w)

module _ {ℓ κ μ} {W : Type ℓ} {A : Type κ} {B : Type μ} where
  unfoldable pub resume : (A → Exec W B) → Outcome A × W → Outcome B × W
  resume k (returned a, w) = k a w
  resume k (raised e, w) = (raised e, w)

  infixl 5 ◌>>=◌ ◌>>◌
  unfoldable pub ◌>>=◌ : Exec W A → (A → Exec W B) → Exec W B
  ◌>>=◌ m k w = resume k (m w)

  abbrev pub ◌>>◌ : Exec W A → Exec W B → Exec W B
  m >> n = m >>= λ _. n

-- a last step that only makes a value leaves the object
pub resume-give {ℓ κ μ} :
    {W : Type ℓ} {A : Type κ} {B : Type μ} (f : A → B) (r : Outcome A × W)
    → (resume (λ a. give (f a)) r).1 ≡ r.1
unfolding resume give
resume-give f (returned a, w) = refl
resume-give f (raised e, w) = refl

abbrev pub succeeded {κ} : {A : Type κ} → Outcome A → Bool
succeeded (returned _) = true
succeeded (raised _) = false

-- `try: m except Exception: …`: whether `m` returned
unfoldable pub attempt {ℓ κ} : {W : Type ℓ} {A : Type κ} → Exec W A → Exec W Bool
attempt m w = let (r, v) = m w in (returned (succeeded r), v)

-- A reflexive and transitive relation between two states of an object.
pub record Order {ℓ κ} {W : Type ℓ} (R : W → W → Type κ) : Type (ℓ ⊔ κ) where
  pub stays : (w : W) → R w w
  pub compose : (u v w : W) → R u v → R v w → R u w

-- Whatever `m` does, returning or raising, the object moves along `R`.
pub record Moves {ℓ κ μ} {W : Type ℓ} {A : Type κ} (R : W → W → Type μ) (m : Exec W A)
    : Type (ℓ ⊔ κ ⊔ μ) where
  pub along : (w : W) → R w (m w).1

module _ {ℓ κ μ ν} {W : Type ℓ} {A : Type κ} {B : Type μ} {R : W → W → Type ν} (o : Order R) where
  resume-along :
      (k : A → Exec W B) (w : W) (r : Outcome A × W)
      → R w r.1
      → ((a : A) → Moves R (k a))
      → R w (resume k r).1
  unfolding resume
  resume-along k w (returned a, v) h ks = o.compose w v (k a v).1 h ((ks a).along v)
  resume-along k w (raised e, v) h ks = h

  pub bind-Moves :
      (m : Exec W A) (k : A → Exec W B) → Moves R m → ((a : A) → Moves R (k a)) → Moves R (m >>= k)
  unfolding ◌>>=◌
  bind-Moves m k h ks = record { along = λ w. resume-along k w (m w) (h.along w) ks }

module _ {ℓ κ ν} {W : Type ℓ} {A : Type κ} {R : W → W → Type ν} where
  pub attempt-Moves : (m : Exec W A) → Moves R m → Moves R (attempt m)
  unfolding attempt
  attempt-Moves m h = record { along = λ w. h.along w }

  pub give-Moves : Order R → (a : A) → Moves R (give a)
  unfolding give
  give-Moves o a = record { along = λ w. o.stays w }

  pub throw-Moves : Order R → (e : Exn) → Moves R (throw {A = A} e)
  unfolding throw
  throw-Moves o e = record { along = λ w. o.stays w }

  pub if-Moves : (b : Bool) (m n : Exec W A) → Moves R m → Moves R n → Moves R (if b then m else n)
  if-Moves true m n hm hn = hm
  if-Moves false m n hm hn = hn
