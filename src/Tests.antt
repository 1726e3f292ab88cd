-- ===== src/Tests.antt =====
-- Theorems applied at concrete inputs, and tests of the definitions.
mod Values
mod Models
mod Policy
mod Dispatcher
mod Retry
mod Projection
mod Service
mod Broker
mod Orchestrator
mod ToolCatalog
mod Fixlet
mod Stream
