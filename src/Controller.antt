-- ===== src/Controller.antt =====
-- internal/controller: the reconciler of DiagnosisTask objects, and the job that runs an agent.
pub mod Reconcile
pub mod Job
pub mod Phases
pub mod Agents
pub mod Answering
pub mod InFlight
pub mod Writes
pub mod Variants
pub mod Jobs
pub mod Settled
