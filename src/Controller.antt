-- ===== src/Controller.antt =====
-- internal/controller: the reconcilers, and the functions that they share
pub mod Util
pub mod SubAgents
pub mod Tools
pub mod AiGateways
pub mod Env
pub mod Names
pub mod Protocols
pub mod Template
pub mod Workload
pub mod AgentDeployment
pub mod Server
pub mod Status
pub mod Reconcile
pub mod ToolServers
pub mod Workforce
pub mod System
pub mod Watches
