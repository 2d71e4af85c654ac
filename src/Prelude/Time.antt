-- ===== src/Prelude/Time.antt =====
-- Instants and their ISO 8601 texts, as Python's `datetime.isoformat` and `fromisoformat` give them.
use Prim.Native.Nat.{ℕ}
use Prim.Native.String.{String}
use mathlib.Core.Path.{◌≡◌}
use mathlib.Core.Bool.{Bool}
use mathlib.Core.Option.{Option, some}

-- `aware`: the instant has a time zone. `at` counts microseconds.
pub record Instant : Type 0 where
  pub at : ℕ
  pub aware : Bool

-- The part of Python's `datetime` that the ledgers rely on.
pub record IsoTime : Type 0 where
  pub isoformat : Instant → String
  pub fromisoformat : String → Option Instant
  pub fromisoformat-isoformat : (t : Instant) → fromisoformat (isoformat t) ≡ some t
