-- ===== src/Egress/FailClosed/Steps.antt =====
-- A state file that src/zee/egress/engine.py cannot use, along any calls but `recovery_start`.
use zee.Prelude.{◌||◌, ◌||◌, Dict.lookup}
use zee.Egress.World.{World}
