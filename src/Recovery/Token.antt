-- ===== src/Recovery/Token.antt =====
-- src/zee/recovery/auth.py: the restore token, its file, and the check of a token.
use Prim.Native.Nat.{◌%◌, ◌/◌}
use zee.Prelude.{
  ℕ, zero, suc, ◌≡◌, refl, String, Bool, true, false, ◌&&◌, ◌||◌, Option, none, some, ◌==◌, ◌<>◌,
  nat_eq, arith, Bool-cases, inl, inr, if◌then◌else◌, strip, strip-line, is_solid, is_ascii,
}
use zee.Prelude.Exec.{Outcome, returned, raised, os_error, value_error, other_error}

pub data TokenText : Type 0 where
  unreadable : TokenText
  undecodable : TokenText
  text : String → TokenText

-- `mode` is `none` where `os.stat` fails
pub record TokenFile : Type 0 where
  pub mode : Option ℕ
  pub content : TokenText

pub record Host : Type 0 where
  pub windows : Bool
  pub chmod_works : Bool
  pub write_fails : Bool
  pub new_mode : ℕ  -- of a file that is made

-- bit `n` of a mode
bit : ℕ → ℕ → Bool
bit zero m = nat_eq (m % 2) 1
bit (suc n) m = bit n (m / 2)

-- a bit of S_IRGRP, S_IWGRP, S_IROTH, S_IWOTH
unfoldable pub is_loose : ℕ → Bool
unfolding bit
is_loose m = bit 5 m || bit 4 m || bit 2 m || bit 1 m

unfoldable pub read_token : TokenText → Outcome (Option String)
read_token unreadable = returned none
read_token undecodable = raised value_error
read_token (text s) = returned (some (strip s))

unfoldable pub load_found : Bool → TokenFile → Outcome (Option String)
load_found true f = read_token f.content
load_found false f = elim f.mode [
  | none ↦ returned none
  | some m ↦ if is_loose m then returned none else read_token f.content
]

-- `load_token`; no file is `none`
unfoldable pub load_token : Bool → Option TokenFile → Outcome (Option String)
load_token windows none = returned none
load_token windows (some f) = load_found windows f

-- `hmac.compare_digest`, which takes ASCII texts only
abbrev compare_digest : String → String → Outcome Bool
compare_digest a b = if is_ascii a && is_ascii b then returned (a == b) else raised other_error

unfoldable pub compared : String → Outcome (Option String) → Outcome Bool
compared provided (raised e) = raised e
compared provided (returned none) = returned false
compared provided (returned (some stored)) = compare_digest provided stored

-- `verify_token`
unfoldable pub verify_token : Bool → String → Option TokenFile → Outcome Bool
verify_token windows provided file = compared provided (load_token windows file)

abbrev kept_mode : Host → Option TokenFile → Option ℕ
kept_mode host none = some host.new_mode
kept_mode host (some f) = f.mode

-- `init_token`, with the token that `secrets` gives
unfoldable pub init_token : Host → String → Option TokenFile → Outcome String × Option TokenFile
init_token host token file = if host.write_fails then (raised os_error, file) else (
  returned token,
  some (record {
    mode = if host.chmod_works then some 0o600 else kept_mode host file;
    content = text (token <> "\n");
  }),
)

-- Once a token of ASCII characters without spaces was initialised, on Windows or where its file's
-- mode could be set, exactly that token is verified, among all ASCII texts.
pub verify_token-init_token :
    (host : Host) (token provided : String) (file : Option TokenFile)
    → host.write_fails ≡ false
    → (host.windows || host.chmod_works) ≡ true
    → is_solid token ≡ true
    → is_ascii token ≡ true
    → is_ascii provided ≡ true
    → verify_token host.windows provided (init_token host token file).1
      ≡ returned (provided == token)
unfolding verify_token init_token load_token load_found read_token compared is_loose bit
verify_token-init_token host token provided file w m solid a p = elim (Bool-cases host.windows) [
  | inl win ↦ rw (w, win, strip-line token solid, a, p) refl
  | inr posix ↦
      let sets : host.chmod_works ≡ true = ground (arith, m, posix) in
      rw (w, posix, sets, strip-line token solid, a, p) refl
]
