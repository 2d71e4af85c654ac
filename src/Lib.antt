-- ===== src/Lib.antt =====
-- Zee (src/zee): decoy files that act as tripwires, an automatic network cut, its manual recovery, the
-- evidence of both, and a gate that inspects software before it is installed.
--
-- The parts, and the files that model them:
--
-- * Config (config/schema.py): asset profiles and the loader of assets.toml, from the parsed TOML on;
--   Config/Decoys is `check_decoy_paths` and `duplicate_decoys`.
-- * Events (events.py) and Policy (policy/asset_profile.py): what a watcher reports, and the response
--   mode that a profile resolves to.
-- * Notifier/Tier (notifier/tier.py, `_pick_template` of decoy/seeder.py): the display tier.
-- * Responder/Sequence (responder/sequence.py): `handle`, the fixed sequence of one touch. It runs in
--   the monad of Responder/Sequence/World: the state is the list of effects so far, the number of
--   clock readings and the cut ledger; the notifier, the daemon and the cut commands answer through
--   the record `Env`. Responder/Blocker (responder/blocker.py) is the boundary in front of a cut, and
--   Responder/Permission (responder/permission.py) the operator's permission with its file.
-- * Telemetry/CutState (telemetry/cut_state.py): one line of the cut ledger and its validation;
--   Telemetry/CutState/Ledger the file, whose last line may lack its newline, its writers `record_cut`
--   and `mark_resolved`, whose records are read as malformed where a text of theirs breaks the line, and
--   the reader `unresolved_for`, which the sequence asks for its hint.
-- * Telemetry/EventsLog (telemetry/events_log.py): the hash-chained evidence log, its rotation and
--   its writer, in which the tail may be unreadable and a write may fail or be
--   cut short; Telemetry/EventsLog/Chain is its verifier
--   `verify_chain`, in which reading a segment may fail.
-- * Recovery/Restore (recovery/restore.py): `restore` from the record of a cut, without
--   `all_interfaces`. Recovery/Host runs commands (an answer may depend on every command before it),
--   Recovery/Firewall removes Zee's rules and reads the listings again, Recovery/Recorded checks what
--   the record demands (`_iptables_backend_coverage`, `_release_pf_tokens`), with `iptables_backend`
--   of responder/cut_full.py. It reads the ledger of Telemetry/CutState and marks it as resolved.
--   Recovery/Token (recovery/auth.py) is the restore token and its check.
-- * Gate/Model, Gate/Scorer, Gate/Denylist, Gate/Inspector, Gate/Promote, Gate/Pins, Gate/Audit (the
--   files of gate/ of the same names; `promote_if_low` stands in gate/inspector.py): flags to a
--   verdict, promotion of what passed, pins, and the audit that finds changed installs and puts their
--   hashes on the denylist that the next inspection reads.
-- * Egress (egress/engine.py, the digest and the verifier of egress/signing.py as parameters): outbound
--   flows that wait for a signed approval. Egress/State is the persisted state and its file,
--   Egress/Payload a request and what it shows, Egress/World the attributes of `Engine` and its
--   effects (an enforcer that may refuse and a write that may fail, each leaving what was done before),
--   Egress/Setup the unsigned operations and the recovery, Egress/Submit requests and the check of a
--   signed answer, Egress/Apply what an approval changes, Egress/Watch `observe`, Egress/Tick `tick`,
--   and Egress/Step any sequence of these calls. Egress/Moves follows a relation through a method.
-- * Privsep (privsep/daemon.py): the daemon that holds the right to cut. Privsep/World is `CutDaemon` with
--   its files and the machine around it, Privsep/Reply a reply and its code, Privsep/Files the files that
--   it reads and replaces, Privsep/Admin `AdminEngine` and the signed operations, on the requests of
--   Egress, Privsep/Handle `_cut` and `_status`, Privsep/Requests `_challenge`, `_submit`, `_bootstrap` and
--   the rate limit, Privsep/Dispatch a line and its reply, Privsep/Tamper `check_tamper`. Its cut asks the
--   boundary of Responder/Blocker and the permission of Responder/Permission.
--
-- Prelude holds the names that all share: tests, lists, texts, decoded JSON and TOML (Prelude/Json),
-- dicts (Prelude/Dict), sorting, methods that may raise (Prelude/Exec), and instants (Prelude/Time). Errors holds the error codes and the result monad. A child of a module
-- is named for what it proves; Tests runs each theorem at a concrete input.
--
-- Numbers are natural numbers; a signed integer of a file is `pos` or `negsuc`. All recursion is on
-- lists, texts or numbers, so no fuel is needed. The engine of
-- Egress counts whole seconds, and its clock stands still within one call. JSON and TOML enter decoded, since their parsers are
-- Python's own; a line that does not decode is a value of its own. SHA-256, `json.dumps`, `pathlib`,
-- the clock's texts and the operating system are parameters. Left out are error detail texts, log
-- messages, the creation of directories, file locks, and the parts of the program that only talk to
-- the operating system or print: watchers, notification backends, the sandbox, the command line.
pub mod Errors
pub mod Config
pub mod Events
pub mod Policy
pub mod Notifier
pub mod Telemetry
pub mod Responder
pub mod Recovery
pub mod Gate
pub mod Egress
pub mod Privsep
pub mod Prelude
pub mod Tests
