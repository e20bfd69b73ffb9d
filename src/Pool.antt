-- ===== src/Pool.antt =====
-- controllers/dnsupstreampool_controller.go, a module for each part of the reconciler.
pub mod Validate
pub mod Select
pub mod Circuit
pub mod Metric
pub mod Stamp
pub mod ConfigMap
pub mod Reconcile
pub mod Deletion
pub mod Entry
