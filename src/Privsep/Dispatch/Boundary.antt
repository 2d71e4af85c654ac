-- ===== src/Privsep/Dispatch/Boundary.antt =====
-- What src/zee/privsep/daemon.py checks before it cuts.
use zee.Prelude.{
  ◌≡◌, refl, ◌⊎◌, inl, inr, ℕ, String, Bool, true, false, ◌||◌, ◌==◌, Option, none, some, [], ◌∷◌,
  ◌++◌, arith, nat_eq, if◌then◌else◌, Bool-cases, Option-cases, contains,
}
use text.Mathlib.TextEquality.{eq_iff}
use zee.Prelude.Exec.{Outcome, returned, raised, Exn, give, throw, ◌>>=◌, resume}
use zee.Prelude.Json
use zee.Prelude.Json.{Json, Fields, obj, str}
use zee.Errors.{Result, ok, err}
use zee.Config.{Config, AssetProfile, find, load_file}
use zee.Policy.{resolve}
use zee.Responder.Blocker.{CutRequest, refusal}
use zee.Responder.Permission.{Loaded, load, decide_on}
use zee.Privsep.World.{Env, Daemon}
use zee.Privsep.Reply.{Reply, refuse}
use zee.Privsep.Files.{config_of, raise_zee}
use zee.Privsep.Handle.{
  cut, cut_checked, cut_found, cut_asset, cut_fault, cut_request, do_cut, find_in, method_of,
  or_else, uid_in,
}
use zee.Privsep.Dispatch.{peer_fault, perform, settled, admitted, handle_op, handle, handle_line}
use zee.Privsep.Admin.Cuts.{SameCuts}
use zee.Privsep.Dispatch.Cuts.{perform-SameCuts}

-- the one call that the request `req` for the configured `asset` led to
pub record IsAllowedCut (env : Env) (req : Fields) (d e : Daemon) : Type 0 where
  pub cr : CutRequest
  pub text : String
  pub cfg : Config
  pub asset : AssetProfile
  pub parsed : cut_request req ≡ some cr
  pub installed : d.config_file ≡ some text
  pub loaded : load_file (env.toml text) ≡ ok cfg
  pub named : find cfg cr.asset_id ≡ some asset
  pub decided :
      (decide_on env.policy_digest cr.confidence cr.op_class asset cfg
        (load env.iso env.instance_id d.permission_file)).0
      ≡ true
  pub unrefused : refusal cr asset cfg.dry_run ≡ none
  pub called :
      e.cuts
      ≡ d.cuts ++ record { method = method_of (resolve asset).cut_method; asset_id = asset.id } ∷ []

Cuts : Env → Fields → Daemon → Daemon → Type 0
Cuts env req d e = SameCuts d e ⊎ IsAllowedCut env req d e

no_fault :
    (allowed : Bool) (why ref : Option String)
    → (if allowed then or_else why ref else or_else (or_else why ref) (some "")) ≡ none
    → (allowed ≡ true) × (ref ≡ none)
no_fault true none ref h = (refl, h)
no_fault true (some w) ref h = absurd (cc h)
no_fault false none none h = absurd (cc h)
no_fault false none (some r) h = absurd (cc h)
no_fault false (some w) ref h = absurd (cc h)

cut_fault-none :
    (env : Env) (cr : CutRequest) (asset : AssetProfile) (cfg : Config) (perm : Loaded)
    → cut_fault env cr asset cfg perm ≡ none
    → ((decide_on env.policy_digest cr.confidence cr.op_class asset cfg perm).0 ≡ true)
      × (refusal cr asset cfg.dry_run ≡ none)
unfolding cut_fault
cut_fault-none env cr asset cfg perm h = no_fault _ _ _ h

called_once :
    (env : Env) (asset : AssetProfile) (d : Daemon)
    → (cut_asset env asset none d).1.cuts
      ≡ d.cuts ++ record { method = method_of (resolve asset).cut_method; asset_id = asset.id } ∷ []
unfolding cut_asset do_cut give ◌>>=◌ resume
called_once env asset d = ground arith

refused-SameCuts :
    (env : Env) (why : String) (asset : AssetProfile) (d : Daemon)
    → SameCuts d (cut_asset env asset (some why) d).1
unfolding cut_asset give
refused-SameCuts env why asset d = refl

unknown-SameCuts : (d : Daemon) → SameCuts d (give (refuse "unknown_asset") d).1
unfolding give
unknown-SameCuts d = refl

module _ (env : Env) (req : Fields) (d : Daemon) where
  found-Cuts :
      (cr : CutRequest) (text : String) (cfg : Config)
      → cut_request req ≡ some cr
      → d.config_file ≡ some text
      → load_file (env.toml text) ≡ ok cfg
      → Cuts env req d (cut_found env cr (some cfg) (find cfg cr.asset_id) d).1
  unfolding cut_found Cuts
  found-Cuts cr text cfg p i l = elim (Option-cases (find cfg cr.asset_id)) [
    | inl absent ↦ rw (absent) (inl (unknown-SameCuts d))
    | inr (asset, n) ↦
        elim (Option-cases
          (cut_fault env cr asset cfg (load env.iso env.instance_id d.permission_file))) [
            | inr (why, f) ↦ rw (n, f) (inl (refused-SameCuts env why asset d))
            | inl f ↦
                let (decided, unrefused) = cut_fault-none env cr asset cfg _ f in
                rw (n, f)
                  (inr (record {
                    cr = cr;
                    text = text;
                    cfg = cfg;
                    asset = asset;
                    parsed = p;
                    installed = i;
                    loaded = l;
                    named = n;
                    decided = decided;
                    unrefused = unrefused;
                    called = called_once env asset d;
                  }))
          ]
  ]

  loaded-Cuts :
      (cr : CutRequest) (text : String) (r : Result Config)
      → cut_request req ≡ some cr
      → d.config_file ≡ some text
      → load_file (env.toml text) ≡ r
      → Cuts env req d
          (resume (λ cfg. cut_found env cr cfg (find_in cfg cr.asset_id)) (raise_zee r d)).1
  unfolding Cuts resume give throw
  loaded-Cuts cr text (ok cfg) p i l = found-Cuts cr text cfg p i l
  loaded-Cuts cr text (err e) p i l = inl refl

  installed-Cuts :
      (cr : CutRequest) (t : Option String)
      → cut_request req ≡ some cr
      → d.config_file ≡ t
      → Cuts env req d
          (resume (λ cfg. cut_found env cr cfg (find_in cfg cr.asset_id)) (config_of env t d)).1
  unfolding Cuts config_of resume give cut_found
  installed-Cuts cr none p i = inl refl
  installed-Cuts cr (some text) p i = loaded-Cuts cr text _ p i refl

  checked-Cuts :
      (o : Option CutRequest) → cut_request req ≡ o → Cuts env req d (cut_checked env o d).1
  unfolding Cuts cut_checked ◌>>=◌ give
  checked-Cuts none p = inl refl
  checked-Cuts (some cr) p = installed-Cuts cr _ p refl

  cut-Cuts : Cuts env req d (cut env req d).1
  unfolding cut
  cut-Cuts = checked-Cuts _ refl

settled-state : (r : Outcome Reply × Daemon) → (settled r).1 ≡ r.1
unfolding settled
settled-state (returned r, e) = refl
settled-state (raised Exn.zee_error, e) = refl
settled-state (raised _, e) = refl

cut_is_performed : (env : Env) (req : Fields) (uid : ℕ) → perform env "cut" req uid ≡ cut env req
unfolding perform
cut_is_performed env req uid = refl

-- who sent it, and what the daemon then checked
pub record IsPermittedCut (env : Env) (line : Option Json) (uid : ℕ) (d e : Daemon) : Type 0 where
  pub req : Fields
  pub sent : line ≡ some (obj req)
  pub named_op : Json.get "op" req ≡ some (str "cut")
  pub peer : (uid_in uid env.allow || nat_eq uid 0) ≡ true
  pub allowed : IsAllowedCut env req d e

Outcomes : Env → Option Json → ℕ → Daemon → Daemon → Type 0
Outcomes env line uid d e = SameCuts d e ⊎ IsPermittedCut env line uid d e

cut_peer :
    (env : Env) (uid : ℕ)
    → peer_fault env "cut" uid ≡ none
    → (uid_in uid env.allow || nat_eq uid 0) ≡ true
unfolding peer_fault contains
cut_peer env uid h = ground arith

module _ (env : Env) (req : Fields) (uid : ℕ) (d : Daemon) where
  cut-Outcomes :
      Json.get "op" req ≡ some (str "cut")
      → peer_fault env "cut" uid ≡ none
      → Outcomes env (some (obj req)) uid d (perform env "cut" req uid d).1
  unfolding Outcomes Cuts
  cut-Outcomes q p = rw (cut_is_performed env req uid) (elim (cut-Cuts env req d) [
    | inl same ↦ inl same
    | inr a ↦
        inr
          (record { req = req; sent = refl; named_op = q; peer = cut_peer env uid p; allowed = a })
  ])

  perform-Outcomes :
      (op : String)
      → Json.get "op" req ≡ some (str op)
      → peer_fault env op uid ≡ none
      → Outcomes env (some (obj req)) uid d (perform env op req uid d).1
  unfolding Outcomes
  perform-Outcomes op q p = elim (Bool-cases (op == "cut")) [
    | inr other ↦ inl ((perform-SameCuts env op req uid other).along d)
    | inl same ↦
        let e : op ≡ "cut" = ground (arith, same, eq_iff op "cut") in
        rw (e) (cut-Outcomes (rw (e) at q) (rw (e) at p))
  ]

  admitted-Outcomes :
      (op : String) (o : Option String)
      → Json.get "op" req ≡ some (str op)
      → peer_fault env op uid ≡ o
      → Outcomes env (some (obj req)) uid d (admitted env op req uid d o).1
  unfolding Outcomes admitted
  admitted-Outcomes op (some e) q p = inl refl
  admitted-Outcomes op none q p =
      rw (settled-state (perform env op req uid d)) (perform-Outcomes op q p)

  op-Outcomes :
      (o : Option Json)
      → Json.get "op" req ≡ o
      → Outcomes env (some (obj req)) uid d (handle_op env req uid d o).1
  unfolding Outcomes handle_op
  op-Outcomes (some (str op)) q = admitted-Outcomes op _ q refl
  op-Outcomes _ q = inl refl

-- Every line that any peer sends either leaves the cuts made as they are, or leads to exactly one
-- cut: then the line asks for `cut`, its sender is root or an allowed uid, the signed
-- configuration is there, loads and has the asset that is named, the automatic permission as loaded
-- allows this request, the boundary has no refusal (which needs a configuration out of dry run),
-- and the call has that asset's id and the method its policy resolves to.
pub handle_line-cuts :
    (env : Env) (line : Option Json) (uid : ℕ) (d : Daemon)
    → SameCuts d (handle_line env line uid d).1
      ⊎ IsPermittedCut env line uid d (handle_line env line uid d).1
unfolding handle_line handle Outcomes
handle_line-cuts env (some (obj req)) uid d = op-Outcomes env req uid d _ refl
handle_line-cuts env _ uid d = inl refl
