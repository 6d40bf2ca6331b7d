-- ===== src/Cas/Autoscaler.antt =====
-- cas/pkg/machineapi/autoscaler.go: the specs of the cluster autoscaler. Resources is what they
-- create, Registry is how they keep track of it, Rounds is what they wait for, and the two
-- modules of scenarios are the specs themselves. The rest are proofs.
pub mod Resources
pub mod Registry
pub mod Rounds
pub mod Scenarios
pub mod Expansion
pub mod Lifecycle
pub mod Suite
pub mod Wiring
pub mod Ledger
pub mod Keeping
pub mod Leftovers
pub mod RoundsQuiet
pub mod SpecsKeep
pub mod AroundKeeps
pub mod CleanedUp
pub mod Choice
pub mod Balance
