-- ===== src/Tests.antt =====
-- Concrete inputs for the theorems of this library: each is run at one of them.
mod Data
mod Responder
mod Telemetry
mod Evidence
mod Gate
mod Config
mod Recovery
mod Egress
mod Privsep
