-- ===== src/Api.antt =====
-- The custom resources, api/v1alpha1/*_types.go, and of the Kubernetes types the fields that the
-- operator reads or writes.
pub mod Meta
pub mod Keys
pub mod Agent
pub mod ToolServer
pub mod Workforce
pub mod Gateways
