-- ===== src/Privsep/Requests/Limit.antt =====
-- The rate limit of src/zee/privsep/daemon.py.
use zee.Prelude.{
  ℕ, ◌≤◌, ◌≡◌, refl, ◌⊎◌, inl, inr, String, Bool, true, false, not, ◌&&◌, List, [], ◌∷◌, ◌++◌, leb,
  length, arith, if◌then◌else◌, Bool-cases, length-append,
}
use text.Mathlib.TextEquality.{eq_iff}
use zee.Prelude.Exec.{Outcome, returned, raised}
use zee.Privsep.World.{Daemon}
use zee.Privsep.Requests.{
  Asked, asked_at, set_asked, recent, same_key, challenges_per_min, rate_limited,
}

-- one uid asks for one operation at one time
pub record Ask : Type 0 where
  pub at : ℕ
  pub uid : ℕ
  pub op : String

abbrev at_time : ℕ → Daemon → Daemon
at_time now d = record d { engine = record d.engine { now = now } }

abbrev passes : Outcome Bool → Bool
passes (returned limited) = not limited
passes (raised e) = false

-- the times at which `uid` was let through to `op`, in a sequence of asks of any uids
unfoldable pub let_through : ℕ → String → List Ask → Daemon → List ℕ
let_through uid op [] d = []
let_through uid op (a ∷ rest) d =
    let (r, e) = rate_limited a.uid a.op (at_time a.at d) in
    let later = let_through uid op rest e in
    if same_key (uid, op) (a.uid, a.op) && passes r then a.at ∷ later else later

-- the clock does not go back, from `last` over the asks to `now`
unfoldable pub in_order : ℕ → List Ask → ℕ → Bool
in_order last [] now = leb last now
in_order last (a ∷ rest) now = leb last a.at && in_order a.at rest now

asked_at-set_asked :
    (u : ℕ) (o : String) (v : ℕ) (p : String) (ts : List ℕ) (q : Asked)
    → asked_at u o (set_asked v p ts q) ≡ (if same_key (u, o) (v, p) then ts else asked_at u o q)
unfolding asked_at set_asked
asked_at-set_asked u o v p ts [] = refl
asked_at-set_asked u o v p ts (((w, r), us) ∷ q) =
    ground (arith, asked_at-set_asked u o v p ts q, eq_iff o p, eq_iff p r, eq_iff o r)

recent-append : (now : ℕ) (xs ys : List ℕ) → recent now (xs ++ ys) ≡ recent now xs ++ recent now ys
unfolding recent
recent-append now [] ys = refl
recent-append now (x ∷ xs) ys = ground (arith, recent-append now xs ys)

-- what was recent before
recent-recent :
    (now before : ℕ) (xs : List ℕ) → before ≤ now → recent now (recent before xs) ≡ recent now xs
unfolding recent
recent-recent now before [] h = refl
recent-recent now before (x ∷ xs) h = ground (arith, recent-recent now before xs h, h)

length-recent : (now : ℕ) (xs : List ℕ) → length (recent now xs) ≤ length xs
unfolding recent
length-recent now [] = omega arith
length-recent now (x ∷ xs) = ground (arith, length-recent now xs)

append_assoc : (xs : List ℕ) (y : ℕ) (zs : List ℕ) → xs ++ y ∷ zs ≡ (xs ++ y ∷ []) ++ zs
append_assoc [] y zs = refl
append_assoc (x ∷ xs) y zs = rw (append_assoc xs y zs)

append_nil : (xs : List ℕ) → xs ++ [] ≡ xs
append_nil [] = refl
append_nil (x ∷ xs) = rw (append_nil xs)

module _ (uid : ℕ) (op : String) where
  mine : Daemon → List ℕ
  mine d = asked_at uid op d.asked

  -- what one ask does to the times of `uid` and `op`
  Asks : ℕ → String → Daemon → Type 0
  Asks v p d =
      let (r, e) = rate_limited v p d in
      (((same_key (uid, op) (v, p) && passes r) ≡ false) × (mine e ≡ mine d))
      ⊎ (((same_key (uid, op) (v, p) && passes r) ≡ true)
          × (mine e ≡ recent d.engine.now (mine d) ++ d.engine.now ∷ [])
          × (length (recent d.engine.now (mine d)) ≤ 9))

  other-Asks : (v : ℕ) (p : String) (d : Daemon) → same_key (uid, op) (v, p) ≡ false → Asks v p d
  unfolding Asks mine rate_limited
  other-Asks v p d h =
      elim (Bool-cases
        (leb challenges_per_min (length (recent d.engine.now (asked_at v p d.asked))))) [
          | inl full ↦ rw (full) (inl (ground (arith, h), refl))
          | inr few ↦
              rw (few, h)
                (inl (
                  refl,
                  rw
                      (
                        asked_at-set_asked uid op v p
                            (recent d.engine.now (asked_at v p d.asked) ++ d.engine.now ∷ [])
                            d.asked,
                        h,
                      )
                      refl,
                ))
        ]

  own-Asks : (d : Daemon) → Asks uid op d
  unfolding Asks mine rate_limited
  own-Asks d =
      let same : same_key (uid, op) (uid, op) ≡ true = ground (arith, eq_iff op op) in
      elim (Bool-cases
        (leb challenges_per_min (length (recent d.engine.now (asked_at uid op d.asked))))) [
          | inl full ↦ rw (full) (inl (ground arith, refl))
          | inr few ↦
              rw (few, same)
                (inr (
                  refl,
                  rw
                      (
                        asked_at-set_asked uid op uid op
                            (recent d.engine.now (asked_at uid op d.asked) ++ d.engine.now ∷ [])
                            d.asked,
                        same,
                      )
                      refl,
                  ground (arith, few),
                ))
        ]

  all-Asks : (v : ℕ) (p : String) (d : Daemon) → Asks v p d
  all-Asks v p d = elim (Bool-cases (same_key (uid, op) (v, p))) [
    | inr h ↦ other-Asks v p d h
    | inl h ↦
        let u : v ≡ uid = ground (arith, h) in
        let o : p ≡ op = ground (arith, h, eq_iff op p) in rw (u, o) (own-Asks d)
  ]

  -- `g` was let through before, the last not after `last`
  record Kept (g : List ℕ) (last : ℕ) (d : Daemon) : Type 0 where
    few : length (mine d) ≤ 10
    agree : (now : ℕ) → last ≤ now → recent now g ≡ recent now (mine d)

  still-Kept :
      {g : List ℕ} {last at : ℕ} {d e : Daemon}
      → Kept g last d
      → last ≤ at
      → mine e ≡ mine d
      → Kept g at e
  still-Kept k h same = record {
    few = rw (same) k.few;
    agree = λ now l. rw (same) (k.agree now (omega (arith, h, l)));
  }

  more-Kept :
      {g : List ℕ} {last at : ℕ} {d e : Daemon}
      → Kept g last d
      → last ≤ at
      → mine e ≡ recent at (mine d) ++ at ∷ []
      → length (recent at (mine d)) ≤ 9
      → Kept (g ++ at ∷ []) at e
  more-Kept {g = g} {at = at} {d = d} k h new few = record {
    few = rw (new, length-append (recent at (mine d)) _) (omega (arith, few));
    agree = λ now l.
        rw
          (
            new,
            recent-append now g (at ∷ []),
            recent-append now (recent at (mine d)) (at ∷ []),
            recent-recent now at (mine d) l,
            k.agree now (omega (arith, h, l)),
          )
          refl;
  }

  few_of_Kept :
      (g : List ℕ) (last now : ℕ) (d : Daemon)
      → Kept g last d
      → last ≤ now
      → length (recent now g) ≤ 10
  few_of_Kept g last now d k h =
      let kept = length-recent now (mine d) in rw (k.agree now h) (omega (arith, kept, k.few))

  asks-few :
      (asks : List Ask) (g : List ℕ) (last now : ℕ) (d : Daemon)
      → Kept g last d
      → in_order last asks now ≡ true
      → length (recent now (g ++ let_through uid op asks d)) ≤ 10
  unfolding let_through in_order Asks mine
  asks-few [] g last now d k h = rw (append_nil g) (few_of_Kept g last now d k (ground (arith, h)))
  asks-few (a ∷ rest) g last now d k h = elim (all-Asks a.uid a.op (at_time a.at d)) [
    | inl (out, same) ↦
        rw (out)
          (asks-few rest g a.at now _ (still-Kept k (ground (arith, h)) same) (ground (arith, h)))
    | inr (through, new, few) ↦
        rw
          (
            through,
            append_assoc g a.at
                (let_through uid op rest (rate_limited a.uid a.op (at_time a.at d)).1),
          )
          (asks-few rest (g ++ a.at ∷ []) a.at now _ (more-Kept k (ground (arith, h)) new few)
            (ground (arith, h)))
  ]

  fresh-Kept : (d : Daemon) → d.asked ≡ [] → Kept [] 0 d
  unfolding mine asked_at recent
  fresh-Kept d h = record { few = rw (h) (omega arith); agree = λ now l. rw (h) refl }

-- In any sequence of asks of any uids, by a clock that does not go back, a daemon that starts with
-- none lets each uid through to each operation at most ten times in the minute that ends with the
-- sequence.
pub let_through-le-ten :
    (uid : ℕ) (op : String) (asks : List Ask) (now : ℕ) (d : Daemon)
    → d.asked ≡ []
    → in_order 0 asks now ≡ true
    → length (recent now (let_through uid op asks d)) ≤ 10
let_through-le-ten uid op asks now d h o = asks-few uid op asks [] 0 now d (fresh-Kept uid op d h) o
