-- ===== src/Remediation.antt =====
-- controlplane/controllers/remediation.go: replacing an unhealthy control plane machine. `Retry` and
-- `Quorum` hold the two checks, `Reconcile` the handler; the modules below these hold their theorems.
pub mod Retry
pub mod Quorum
pub mod Reconcile
