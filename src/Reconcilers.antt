-- ===== src/Reconcilers.antt =====
-- internal/upgrade/reconcilers: the reconcilers of the phases.
pub mod SucPlan
pub mod Nodes
pub mod Os
pub mod Kubernetes
pub mod HelmCharts
pub mod Rke2
