-- ===== src/Tests.antt =====
-- Runs of the model and the theorems at concrete inputs.
mod Talking
mod Answering
mod Pipe
mod World
mod Wires
mod Transfers
mod Sessions
mod Negotiation
mod ServerRuns
mod ClientRuns
mod Roles
