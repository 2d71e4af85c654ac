-- ===== src/Egress/State.antt =====
-- src/zee/egress/engine.py, `_fresh` and `_load`: the persisted state of an engine, and what a start
-- makes of its file. A time is in whole seconds; one before 1970 is read as 0.
use zee.Prelude.{
  ◌≡◌, refl, inl, inr, Option-cases, arith, ℕ, String, Bool, true, false, not, ◌&&◌, Option, none,
  some, List, [], ◌∷◌, all, contains, if◌then◌else◌, Dict.Dict,
}
use zee.Prelude.Json
use zee.Prelude.Json.{
  Json, Items, Fields, ℤ, pos, negsuc, null, bool, int, float, other, str, arr, obj, cons, nil,
  field, end, texts,
}

pub record State : Type 0 where
  pub enabled : Bool
  pub keys : Dict String
  pub allow : List String
  pub protect : List String
  pub used : Dict ℕ
  pub single_key_ack : Bool
  pub recovery_start : Option ℕ

-- `_fresh`
abbrev pub fresh : State
fresh = record {
  enabled = false;
  keys = [];
  allow = [];
  protect = [];
  used = [];
  single_key_ack = false;
  recovery_start = none;
}

-- What reading the file meets.
pub data StateFile : Type 0 where
  not_found : StateFile
  unreadable : StateFile  -- an OSError, no UTF-8, no JSON, or nested too deep
  content : Json → StateFile

-- Floats as times: `is_finite`, and the whole seconds, 0 for a NaN.
pub record Floats : Type 0 where
  pub is_finite : String → Bool
  pub seconds : String → ℕ

abbrev state_keys : List String
state_keys =
    "enabled" ∷ "keys" ∷ "allow" ∷ "protect" ∷ "used" ∷ "single_key_ack" ∷ "recovery_start" ∷ []

field_names : Fields → List String
field_names end = []
field_names (field k _ fs) = k ∷ field_names fs

-- `set(raw) == set(keys)`
unfoldable pub has_keys : List String → Fields → Bool
unfolding field_names
has_keys ks fs =
    all (λ k. contains k ks) (field_names fs) && all (λ k. contains k (field_names fs)) ks

-- `all(type(x) is str for x in got.values())`
unfoldable pub text_values : Fields → Option (Dict String)
text_values end = some []
text_values (field k (str v) fs) = elim (text_values fs) [
  | none ↦ none
  | some d ↦ some ((k, v) ∷ d)
]
text_values (field _ _ fs) = none

seconds_of : ℤ → ℕ
seconds_of (pos n) = n
seconds_of (negsuc _) = 0

-- the first value of a wrong type ends the reading
infixl 5 ◌>>=◌
unfoldable ◌>>=◌ : {A B : Type 0} → Option A → (A → Option B) → Option B
none >>= f = none
some a >>= f = f a

module _ (floats : Floats) where
  number_values : Fields → Option (Dict ℕ)
  unfolding seconds_of
  number_values end = some []
  number_values (field k (int n) fs) = elim (number_values fs) [
    | none ↦ none
    | some d ↦ some ((k, seconds_of n) ∷ d)
  ]
  number_values (field k (float _ x) fs) = elim (number_values fs) [
    | none ↦ none
    | some d ↦ some ((k, floats.seconds x) ∷ d)
  ]
  number_values (field _ _ fs) = none

  -- `recovery_start`: null or a finite number
  start_of : Option Json → Option (Option ℕ)
  unfolding seconds_of
  start_of (some null) = some none
  start_of (some (int n)) = some (some (seconds_of n))
  start_of (some (float _ x)) = if floats.is_finite x then some (some (floats.seconds x)) else none
  start_of _ = none

  bool_of : Option Json → Option Bool
  bool_of (some (bool b)) = some b
  bool_of _ = none

  texts_of : Option Json → Option (List String)
  texts_of (some (arr xs)) = texts xs
  texts_of _ = none

  keys_of : Option Json → Option (Dict String)
  keys_of (some (obj d)) = text_values d
  keys_of _ = none

  used_of : Option Json → Option (Dict ℕ)
  unfolding number_values
  used_of (some (obj d)) = number_values d
  used_of _ = none

  -- the state that a file of the right shape holds
  unfoldable pub state_of : Fields → Option State
  unfolding start_of bool_of texts_of keys_of used_of ◌>>=◌
  state_of raw = do
    enabled ← bool_of (Json.get "enabled" raw)
    keys ← keys_of (Json.get "keys" raw)
    allow ← texts_of (Json.get "allow" raw)
    protect ← texts_of (Json.get "protect" raw)
    used ← used_of (Json.get "used" raw)
    single_key_ack ← bool_of (Json.get "single_key_ack" raw)
    recovery_start ← start_of (Json.get "recovery_start" raw)
    if not (has_keys state_keys raw)
        then none
        else some (record {
          enabled = enabled;
          keys = keys;
          allow = allow;
          protect = protect;
          used = used;
          single_key_ack = single_key_ack;
          recovery_start = recovery_start;
        })

  -- a file that is there and says nothing usable counts as ON, with no key
  abbrev closed_state : Option State → State × Bool
  closed_state (some s) = (s, false)
  closed_state none = (record fresh { enabled = true }, true)

  -- `_load`: the state, and `state_invalid`
  unfoldable pub load : StateFile → State × Bool
  load not_found = (fresh, false)
  load unreadable = closed_state none
  load (content (obj raw)) = closed_state (state_of raw)
  load (content _) = closed_state none

  pub load-invalid :
      (file : StateFile)
      → (load file).1 ≡ true
      → load file ≡ (record fresh { enabled = true }, true)
  unfolding load
  load-invalid not_found h = absurd (cc h)
  load-invalid unreadable h = refl
  load-invalid (content (obj raw)) h = elim (Option-cases (state_of raw)) [
    | inl e ↦ rw (e) refl
    | inr (s, e) ↦ absurd (ground (arith, e))
  ]
  load-invalid (content null) h = refl
  load-invalid (content (bool b)) h = refl
  load-invalid (content (int n)) h = refl
  load-invalid (content (float b x)) h = refl
  load-invalid (content (other x)) h = refl
  load-invalid (content (str x)) h = refl
  load-invalid (content (arr xs)) h = refl
