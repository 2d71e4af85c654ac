-- ===== src/Gate/Scorer/Laws.antt =====
-- What src/zee/gate/scorer.py promises: more findings never lower a verdict, and their order is free.
use mathlib.Core.List.{Perm, Permᴰ}
use mathlib.Core.Path.{ap₂}
use mathlib.Core.Logic.{∥∥₁_elim}
use native.Mathlib.Nat.{ℕ_set}
use zee.Prelude.{
  ℕ, ◌+◌, ◌≤◌, Bool, true, false, ◌||◌, ◌≡◌, ◌↔◌, refl, ◌∙◌, List, [], ◌∷◌, ◌++◌, arith, any,
  any-append, all, length,
}
use zee.Gate.Model.{RiskLevel, Severity, Flag, weight, level_code}
use zee.Gate.Scorer.{score, total_weight, is_high, level_of}

pub total_weight-append :
    (fs gs : List Flag) → total_weight (fs ++ gs) ≡ total_weight fs + total_weight gs
unfolding total_weight
total_weight-append [] gs = omega arith
total_weight-append (f ∷ fs) gs = omega (arith, total_weight-append fs gs)

level_of_mono :
    (h k : Bool) (m n : ℕ) → m ≤ n → level_code (level_of h m) ≤ level_code (level_of (h || k) n)
unfolding level_of
level_of_mono h k m n le = ground arith

-- Further findings, wherever they come from, never lower the risk level.
pub score_mono :
    (fs gs hs : List Flag) → level_code (score fs).0 ≤ level_code (score (gs ++ fs ++ hs)).0
unfolding score level_of
score_mono fs gs hs = simp (any-append, total_weight-append) (ground arith)

abbrev pub is_low : Flag → Bool
is_low f = elim f.severity [ Severity.low ↦ true | _ ↦ false ]

low-weight :
    (fs : List Flag)
    → all is_low fs ≡ true
    → (total_weight fs ≡ length fs) × (any is_high fs ≡ false)
unfolding total_weight
low-weight [] h = (refl, refl)
low-weight (f ∷ fs) h = ground (arith, low-weight fs)

weight-low : (fs : List Flag) → total_weight fs ≤ 3 → all is_low fs ≡ true
unfolding total_weight
weight-low [] h = refl
weight-low (f ∷ fs) h = ground (arith, weight-low fs)

-- The verdict is LOW exactly if every finding is of low severity and there are at most three.
pub score-low :
    (fs : List Flag) → ((score fs).0 ≡ RiskLevel.low) ↔ ((all is_low fs ≡ true) × (length fs ≤ 3))
unfolding score level_of
score-low fs = ground (arith, low-weight fs, weight-low fs)

swap_facts :
    (a b : Flag) (n : ℕ) (h : Bool)
    → (weight b.severity + (weight a.severity + n) ≡ weight a.severity + (weight b.severity + n))
      × ((is_high b || (is_high a || h)) ≡ (is_high a || (is_high b || h)))
swap_facts a b n h = (omega arith, ground arith)

Permᴰ-same :
    {fs gs : List Flag}
    → Permᴰ fs gs
    → (total_weight fs ≡ total_weight gs) × (any is_high fs ≡ any is_high gs)
unfolding total_weight
Permᴰ-same Permᴰ.nil = (refl, refl)
Permᴰ-same (Permᴰ.cons e p) =
    let (t, a) = Permᴰ-same p in
    (ap₂ (λ f n. weight f.severity + n) e t, ap₂ (λ f b. is_high f || b) e a)
Permᴰ-same (Permᴰ.swap {a} {b} {l} e k) =
    rw (← e, ← k) (swap_facts b a (total_weight l) (any is_high l))
Permᴰ-same (Permᴰ.trans p q) =
    let (t, a) = Permᴰ-same p in let (u, b) = Permᴰ-same q in (t ∙ u, a ∙ b)

verdict_set : IsSet (RiskLevel × ℕ)
verdict_set = hlevel ℕ_set

-- Neither the level nor the score depends on the order in which the checks report their findings.
pub score-perm : (fs gs : List Flag) → Perm fs gs → score fs ≡ score gs
unfolding score
score-perm fs gs p =
    ∥∥₁_elim p (verdict_set _ _)
      (λ d. let (t, a) = Permᴰ-same d in ap₂ (λ b n. (level_of b n, n)) a t)
