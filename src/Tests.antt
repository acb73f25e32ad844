-- ===== src/Tests.antt =====
-- The theorems at concrete inputs.
mod Samples
mod Watches
mod Environment
mod Agents
mod Traversal
mod Memory
mod Reconciliation
mod Resolution
mod Services
mod Running
mod Ports
mod Success
mod Conflicts
mod Updates
mod Admission
mod Loops
