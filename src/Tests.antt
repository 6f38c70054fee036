-- ===== src/Tests.antt =====
-- Runs of the models on concrete inputs, and the theorems at inputs that meet their hypotheses.
mod Queue
mod Methods
mod RateLimit
mod Envelope
mod Json
mod Ledger
mod Policy
mod Ipc
mod Crypto
mod Mutation
mod SecurityGate
mod Permissions
mod Settings
mod Recorded
mod Repair
