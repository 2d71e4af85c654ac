-- ===== src/Privsep/Tamper/Alarm.antt =====
-- When `check_tamper` of src/zee/privsep/daemon.py cuts.
use zee.Prelude.{
  suc, ◌≤◌, ◌≡◌, refl, ◌⊎◌, inl, inr, String, true, false, ◌||◌, Option, none, some, List, [], ◌∷◌,
  ◌++◌, ◌==◌, ltb, arith, Bool-cases,
}
use zee.Prelude.Exec.{give, ◌>>=◌, resume}
use zee.Config.{Config}
use zee.Privsep.World.{Env, Daemon, FileRead, edit, log, tamper_found}
use zee.Privsep.Files.{config_or_none, tamper_action, tamper_asset}
use zee.Privsep.Handle.{do_cut}
use zee.Privsep.Tamper.{
  found_by, cut_tamper, respond_with, respond, act_on, log_found, checked_for, check_tamper,
}

-- the one cut of `act_on`
pub record Acted (env : Env) (d e : Daemon) : Type 0 where
  pub cfg : Config
  pub second : 2 ≤ d.strikes
  pub first_time : d.tamper_acted ≡ false
  pub on : (tamper_action d.tamper_file == "off") ≡ false
  pub config : config_or_none env d.config_file ≡ some cfg
  pub real : cfg.dry_run ≡ false
  pub acted : e.tamper_acted ≡ true
  pub called :
      e.cuts
      ≡ d.cuts ++ record { method = tamper_action d.tamper_file; asset_id = tamper_asset } ∷ []

Acts : Env → Daemon → Daemon → Type 0
Acts env d e = (e.cuts ≡ d.cuts) ⊎ Acted env d e

called :
    (env : Env) (action : String) (d : Daemon)
    → (cut_tamper env action d).1.cuts
      ≡ d.cuts ++ record { method = action; asset_id = tamper_asset } ∷ []
unfolding cut_tamper do_cut ◌>>=◌ resume log
called env action d = ground arith

cut_tamper-acted :
    (env : Env) (action : String) (d : Daemon)
    → (cut_tamper env action d).1.tamper_acted ≡ d.tamper_acted
unfolding cut_tamper do_cut ◌>>=◌ resume log
cut_tamper-acted env action d = ground arith

clean-cuts : (env : Env) (d : Daemon) → (checked_for env [] d).1.cuts ≡ d.cuts
unfolding checked_for edit
clean-cuts env d = refl

module _ (env : Env) (d : Daemon) where
  respond-Acts :
      (o : Option Config)
      → config_or_none env d.config_file ≡ o
      → 2 ≤ d.strikes
      → d.tamper_acted ≡ false
      → (tamper_action d.tamper_file == "off") ≡ false
      → Acts env d
          (respond_with env (tamper_action d.tamper_file) o (record d { tamper_acted = true })).1
  unfolding Acts respond_with log
  respond-Acts none c s t a = inl refl
  respond-Acts (some cfg) c s t a = elim (Bool-cases cfg.dry_run) [
    | inl dry ↦ rw (dry) (inl refl)
    | inr real ↦ rw (real) (
        inr (record {
          cfg = cfg;
          second = s;
          first_time = t;
          on = a;
          config = c;
          real = real;
          acted = cut_tamper-acted env _ _;
          called = called env _ _;
        }))
  ]

  act_on-Acts : Acts env d (act_on env d).1
  unfolding Acts act_on give respond
  act_on-Acts =
      elim (Bool-cases
        ((tamper_action d.tamper_file == "off") || ltb d.strikes 2 || d.tamper_acted)) [
          | inl rests ↦ rw (rests) (inl refl)
          | inr acts ↦ rw (acts) (
              respond-Acts _ refl (ground (arith, acts)) (ground (arith, acts))
                (ground (arith, acts)))
        ]

-- the one cut of a tamper check
pub record IsAlarmCut (env : Env) (theirs : Option FileRead) (d e : Daemon) : Type 0 where
  pub finding : String
  pub others : List String
  pub cfg : Config
  pub found : found_by env theirs d ≡ finding ∷ others
  pub second : 1 ≤ d.strikes
  pub first_time : d.tamper_acted ≡ false
  pub on : (tamper_action d.tamper_file == "off") ≡ false
  pub config : config_or_none env d.config_file ≡ some cfg
  pub real : cfg.dry_run ≡ false
  pub acted : e.tamper_acted ≡ true
  pub called :
      e.cuts
      ≡ d.cuts ++ record { method = tamper_action d.tamper_file; asset_id = tamper_asset } ∷ []

-- the daemon that `checked_for` lets act
unfoldable pub struck : String → List String → Daemon → Daemon
struck f fs d = record d {
  findings = f ∷ fs;
  strikes = suc d.strikes;
  entries = d.entries ++ tamper_found (f ∷ fs) (suc d.strikes) ∷ [];
}

pub checked_for-struck :
    (env : Env) (f : String) (fs : List String) (d : Daemon)
    → checked_for env (f ∷ fs) d ≡ act_on env (struck f fs d)
unfolding checked_for struck ◌>>=◌ resume edit log log_found
checked_for-struck env f fs d = refl

module _ (env : Env) (theirs : Option FileRead) (d : Daemon) where
  checked_for-cuts :
      (found : List String)
      → found_by env theirs d ≡ found
      → ((checked_for env found d).1.cuts ≡ d.cuts)
        ⊎ IsAlarmCut env theirs d (checked_for env found d).1
  unfolding Acts struck
  checked_for-cuts [] h = inl (clean-cuts env d)
  checked_for-cuts (f ∷ fs) h =
      rw (checked_for-struck env f fs d) (elim (act_on-Acts env (struck f fs d)) [
        | inl same ↦ inl same
        | inr a ↦ inr (record {
          finding = f;
          others = fs;
          cfg = a.cfg;
          found = h;
          second = omega (arith, a.second);
          first_time = a.first_time;
          on = a.on;
          config = a.config;
          real = a.real;
          acted = a.acted;
          called = a.called;
        })
      ])

-- A tamper check either leaves the cuts made as they are, or makes exactly one cut, that of the
-- tamper asset by the configured action. In the second case the check found something, the strikes
-- with this one are at least two, no action was remembered before and one is after, the action is
-- not off, and the signed configuration is there, loads and is out of dry run.
pub check_tamper-cuts :
    (env : Env) (theirs : Option FileRead) (d : Daemon)
    → ((check_tamper env theirs d).1.cuts ≡ d.cuts)
      ⊎ IsAlarmCut env theirs d (check_tamper env theirs d).1
unfolding check_tamper
check_tamper-cuts env theirs d = checked_for-cuts env theirs d _ refl
