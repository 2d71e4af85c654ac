-- ===== src/Responder.antt =====
-- src/zee/responder: the boundary of an automatic cut, the operator's permission, and the sequence.
pub mod Blocker
pub mod Permission
pub mod Sequence
