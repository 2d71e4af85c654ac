-- ===== src/Egress.antt =====
-- src/zee/egress/: outbound connections that wait for a signed approval.
pub mod Destination
pub mod State
pub mod Payload
pub mod World
pub mod Release
pub mod Setup
pub mod Submit
pub mod Apply
pub mod Watch
pub mod Tick
pub mod Step
pub mod Moves
pub mod Grants
pub mod KeyFloor
pub mod FailClosed
