-- ===== src/Checks.antt =====
-- Concrete runs of the modelled code: each applies a theorem to an input that its hypotheses hold for.
pub mod Scoring
pub mod Reports
pub mod Names
pub mod Incidents
pub mod Dispatching
pub mod Environments
pub mod Traffics
pub mod Leasing
pub mod Serving
pub mod Faulting
pub mod Addresses
pub mod Manifests
