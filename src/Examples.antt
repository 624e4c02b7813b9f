-- ===== src/Examples.antt =====
-- Concrete runs: the theorems applied to small clusters, and tests of the definitions.
mod Lab
mod Copies
mod Agents
mod Skills
mod Alerts
mod Piping
mod Reconciling
mod Working
mod Settling
mod Asking
mod Messages
mod Streams
mod Serving
mod Racing
mod Shipping
mod Secrets
mod Texts
