-- ===== src/Examples.antt =====
-- Concrete inputs, and each theorem applied to one of them.
mod Samples
mod Converging
mod Deciding
mod Clusters
mod Sending
mod Reconciling
mod Mutating
mod Building
mod Observing
mod Workloads
