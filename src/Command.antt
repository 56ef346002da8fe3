-- ===== src/Command.antt =====
-- application: the handlers of the commands, over the ports and services of deps.go, and their wiring.
pub mod Deps
pub mod Output
pub mod Report
pub mod Analyze
pub mod Merge
pub mod Reconcile
pub mod Setup
pub mod Wire
pub mod Main
pub mod Sent
pub mod Unwired
