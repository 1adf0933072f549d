-- ===== src/Scale.antt =====
-- controlplane/controllers/scale.go: `Machines` computes and creates a control plane machine,
-- `Preflight` decides whether the control plane is stable, and `Down` and `Up` change its size.
pub mod Machines
pub mod Preflight
pub mod Up
pub mod Quiet
pub mod Down
