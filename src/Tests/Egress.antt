-- ===== src/Tests/Egress.antt =====
-- The egress engine on a host with one approver, one held destination and one that was approved.
use zee.Prelude.{
  ◌≤◌, ◌+◌, ℕ, nat_eq, ap, Bool, Option, ◌≢◌, true, false, ◌&&◌, ◌||◌, ◌≡◌, refl, ◌⊎◌, none, some,
  List, [], ◌∷◌, ◌++◌, ◌==◌, is_some, arith, contains, distinct, without,
}
use zee.Prelude.Dict
use zee.Prelude.Dict.{lookup, keys, put, pop, add, discard, keep_values}
use zee.Prelude.Sort.{sorted, sorted_set}
use zee.Prelude.Exec.{returned, give, attempt, ◌>>=◌, resume}
use zee.Prelude.Json
use zee.Prelude.Json.{Json, Fields, obj, str, field, end}
use zee.Egress.Destination.{Addresses, match_dest, covers, host_of}
use zee.Egress.State
use zee.Egress.State.{State, Floats, fresh, unreadable, content}
use zee.Egress.Payload.{Request, egress, payload_of, fields_eq, with_entered}
use zee.Egress.World.{
  World, Env, Flow, Action, Answer, Entry, egress_shape, start, enforce, edit, log, save,
}
use zee.Egress.Release.{closed, forget, release, release_each, release_one, allow_listed}
use zee.Egress.Setup.{recovery_complete, finish_recovery, recovery_start, bootstrap_key}
use zee.Egress.Setup.Recovery.{Recovered, recovery_complete-Recovered}
use zee.Egress.Submit.{
  check_answer, check_named, judge_pending, judge_request, settle, spend, key_floor,
}
use zee.Egress.Apply.{submit, act, apply, apply_body, open_each, open_one, grant_one}
use zee.Egress.Apply.Once.{submit-once}
use zee.Egress.Watch.{
  classify, observe, judged, switched, decide_flow, drop_grant, hold_flow, note_flow, close_dest,
  covers_flow, meter, batched, look, tainted, prune,
}
use zee.Egress.Watch.Detection.{observe-reports}
use zee.Egress.Tick.{tick}
use zee.Egress.Tick.Asked.{asks}
use zee.Egress.Tick.Liveness.{held-asked}
use zee.Egress.Step.{
  Method, step, run, submits, observes, ticks, waits, enables, starts_recovery, bootstraps,
}
use zee.Egress.Grants.{at_most}
use zee.Egress.Grants.Volume.{IsSigned, step-grants}
use zee.Egress.Grants.Passed.{left, passed_bytes, passed_flows, passed_bytes-le-left}
use zee.Egress.KeyFloor.{spared}
use zee.Egress.KeyFloor.Steps.{run-spared}

abbrev net : Addresses
net = record {
  Ip = Unit {0};
  ip_address = λ s. none;
  is_loopback = λ ip. false;
  ip_network = λ s. none;
  fnmatch = λ s e. false;
}

abbrev pub env : Env
env = record {
  net = net;
  floats = record { is_finite = λ s. true; seconds = λ s. 0 };
  digest = λ fs. "d1";
  verify = λ key digest signature. (key == "pem") && (signature == "sig");
  refuses = some (λ calls c. false);
  save_fails = λ n. false;
  token = λ n. "r1";
  nonce = λ n. "n1";
  random_code = λ n. "07";
  hostname = "pc";
  server_form = false;
}

abbrev ask : Request
ask = record {
  id = "r0";
  nonce = "n0";
  exp = 1300;
  body = egress "pc" ("evil:443" ∷ []) ("curl" ∷ []) 2000000 [] 1900;
  code = "42";
}

abbrev approval_on : State
approval_on = record fresh { enabled = true; keys = ("phone", "pem") ∷ ("spare", "pem2") ∷ [] }

abbrev world : World
world = record (start env.floats 1000 unreadable) {
  state = approval_on;
  state_invalid = false;
  pending = ("r0", ask) ∷ [];
  grants = ("cdn:443", record { until = 1500; remaining = 3000000 }) ∷ [];
}

abbrev upload : Flow
upload = record { proc = "curl"; dest = "evil:443"; bytes_out = 1500000 }

abbrev approved_upload : Flow
approved_upload = record { proc = "curl"; dest = "cdn:443"; bytes_out = 2000000 }

abbrev answer : Method
answer = submits (obj (payload_of ask)) (str "42") (str "phone") (some "sig")

step-grants_example :
    (at_most (lookup "evil:443" (step env answer world).grants) (lookup "evil:443" world.grants)
      ≡ true)
    ⊎ IsSigned env world (step env answer world) answer "evil:443"
step-grants_example = step-grants env answer world "evil:443"

passed_bytes-le-left_example :
    let ms = observes approved_upload ∷ ticks ∷ observes approved_upload ∷ [] in
    (passed_bytes env "cdn:443" ms world ≤ left (lookup "cdn:443" world.grants))
    × ((is_some (lookup "cdn:443" world.grants) || nat_eq (passed_flows env "cdn:443" ms world) 0)
        ≡ true)
passed_bytes-le-left_example =
    passed_bytes-le-left env "cdn:443"
      (observes approved_upload ∷ ticks ∷ observes approved_upload ∷ []) world refl refl

run-spared_example : spared (run env (answer ∷ enables ∷ ticks ∷ []) world) ≡ true
unfolding Dict.is_dict lookup start
run-spared_example = run-spared env (answer ∷ enables ∷ ticks ∷ []) world refl

observe-reports_example :
    (rest : List Entry) × ((observe env upload world).1.entries
      ≡ world.entries
        ++ egress_shape "curl" "evil:443" 1500000 "large_unlisted_send" (tainted world) ∷ rest)
unfolding classify allow_listed match_dest tainted sorted_set distinct keys prune keep_values start
observe-reports_example = observe-reports env upload world "large_unlisted_send" refl

held :
    (observe env upload world).0
    ≡ returned (record { action = Action.hold; reason = "no_valid_approval" })
unfolding observe judged switched decide_flow drop_grant hold_flow note_flow close_dest covers_flow
    meter batched look classify allow_listed match_dest covers host_of tainted prune sorted_set
    sorted distinct without contains keys keep_values lookup put pop add discard start State.load
    enforce edit log save give attempt resume ◌>>=◌
held = refl

held-asked_example :
    let v = run env (waits 5 ∷ observes approved_upload ∷ []) (observe env upload world).1 in
    (req : Request) × (lookup req.id (tick env (record v { now = v.now + 60 })).1.pending
      ≡ some req)
    × (asks req.body "evil:443" 1500000 ≡ true)
unfolding start Dict.is_dict lookup
held-asked_example =
    held-asked env upload world (record { action = Action.hold; reason = "no_valid_approval" })
      (waits 5 ∷ observes approved_upload ∷ []) 60 held refl refl refl (omega arith)

abbrev waited : World
waited = record world { now = 300000; state = record approval_on { recovery_start = some 1000 } }

waited_answer : (recovery_complete env waited).0 ≡ returned (record { ok = true; reason = "" })
unfolding recovery_complete finish_recovery release release_each release_one forget closed
    sorted_set sorted distinct without contains keys pop discard start enforce edit log save give
    attempt resume ◌>>=◌
waited_answer = refl

recovery_complete-Recovered_example : Recovered waited (recovery_complete env waited).1
recovery_complete-Recovered_example =
    recovery_complete-Recovered env waited (record { ok = true; reason = "" }) waited_answer refl

first_answer :
    (submit env (obj (payload_of ask)) (str "42") (str "phone") (some "sig") world).0
    ≡ returned (record { ok = true; reason = "" })
unfolding submit check_answer check_named judge_pending judge_request settle spend act apply
    apply_body open_each open_one grant_one release release_each sorted_set sorted distinct
    allow_listed match_dest covers host_of payload_of fields_eq with_entered key_floor Json.get
    keep_values lookup put pop discard start enforce edit log save give attempt resume ◌>>=◌
first_answer = refl

second_answer :
    (submit env (obj (payload_of ask)) (str "42") (str "phone") (some "sig") (
      run env
        (waits 5 ∷ [])
        (submit env (obj (payload_of ask)) (str "42") (str "phone") (some "sig") world).1)).0
    ≡ returned (record { ok = false; reason = "unknown_request" })
unfolding run step submit check_answer check_named judge_pending judge_request settle spend act
    apply apply_body open_each open_one grant_one release release_each sorted_set sorted distinct
    allow_listed match_dest covers host_of payload_of fields_eq with_entered key_floor Json.get
    keep_values lookup put pop discard start enforce edit log save give attempt resume ◌>>=◌
second_answer = refl

abbrev second : Answer
second = record { ok = false; reason = "unknown_request" }

abbrev is_r0 : Option Json → Bool
is_r0 (some (str s)) = s == "r0"
is_r0 _ = false

other_ids : (k : ℕ) → Json.get "req" (payload_of ask) ≢ some (str (env.token k))
unfolding Json.get payload_of
other_ids k e = absurd (cc (ap is_r0 e))

submit-once_example : second.ok ≡ false
submit-once_example =
    submit-once env world (payload_of ask) (str "42") (str "phone") (str "42") (str "phone")
      (some "sig") (some "sig") (record { ok = true; reason = "" }) second (waits 5 ∷ [])
      first_answer refl (λ k h. other_ids k) second_answer

-- After a broken state file an unsigned recovery start clears the mark of the broken file, and an
-- unsigned key is taken at once.
early_bootstrap :
    (run env
      (starts_recovery ∷ bootstraps "k" "pem" ∷ [])
      (start env.floats 1000 unreadable)).state.keys
    ≡ ("k", "pem") ∷ []
unfolding run step recovery_start bootstrap_key start State.load put edit log save resume ◌>>=◌
early_bootstrap = refl
