-- ===== src/Egress/Watch/Detection.antt =====
-- Detection in src/zee/egress/engine.py does not depend on the switch: a flow is reported first.
use zee.Prelude.{◌≡◌, refl, sym, ap, ◌∙◌, some, List, [], ◌∷◌, ◌++◌, arith, Dict.lookup}
use mathlib.Core.List.{append_assoc, append-nil}
use zee.Prelude.Exec.{Order, Moves, ◌>>=◌, resume}
use zee.Egress.World.{World, Env, Flow, Call, Entry, egress_shape, edit, log, enforce}
use zee.Egress.Release.{forget}
use zee.Egress.Watch.{classify, observe, judged, meter, tainted, prune}
use zee.Egress.Moves.{Primitives, switched-Moves}

-- The log of `v` goes on from that of `w`.
abbrev Extends : World → World → Type 0
Extends w v = (rest : List Entry) × (v.entries ≡ w.entries ++ rest)

same : {es fs : List Entry} → fs ≡ es → (rest : List Entry) × (fs ≡ es ++ rest)
same {es} e = ([], e ∙ sym (append-nil es))

extending : Order Extends
extending = record {
  stays = λ w. same refl;
  compose = λ u v w (r, p) (s, q). (r ++ s, q ∙ ap (λ es. es ++ s) p ∙ append_assoc u.entries r s);
}

module _ (env : Env) where
  calls : (c : Call) → Moves Extends (enforce env c)
  unfolding enforce
  calls c = record { along = λ w. same (ground arith) }

  logs : (e : Entry) → Moves Extends (log e)
  unfolding log
  logs e = record { along = λ w. (e ∷ [], refl) }

  forgets : (d : _) (w : World) → Extends w (forget d w)
  unfolding forget
  forgets d w = same refl

  meters : (f : Flow) (w : World) → Extends w (meter f (lookup f.dest w.grants) w)
  unfolding meter
  meters f w = same (ground arith)

  Extends-prims : Primitives Extends env
  Extends-prims = record {
    calls = calls;
    logs = logs;
    forgets = forgets;
    meters = meters;
    pops = λ d w. same refl;
    loose = λ w v h. same h.entries;
  }

-- A shaped flow is reported before anything else is decided: whether approval is on or off, whether a
-- grant covers the flow, and also where the enforcer fails, the log goes on with the report, which
-- names the flow, the reason and the protected data touched.
pub observe-reports :
    (env : Env) (f : Flow) (w : World) (reason : _)
    → classify env f w ≡ some reason
    → (rest : List Entry) × ((observe env f w).1.entries
        ≡ w.entries ++ egress_shape f.proc f.dest f.bytes_out reason (tainted w) ∷ rest)
unfolding observe judged log edit prune ◌>>=◌ resume
observe-reports env f w reason h =
    let report = egress_shape f.proc f.dest f.bytes_out reason (tainted w) in
    let v = (log report (prune w)).1 in
    let (rest, e) = (switched-Moves extending env (Extends-prims env) f).along v in
    (rest, rw (h) (e ∙ append_assoc w.entries (report ∷ []) rest))
