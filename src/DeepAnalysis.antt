-- ===== src/DeepAnalysis.antt =====
-- internal/deepanalysis: statistics of sessions and of tools, and a payload of them.
pub mod Tools
pub mod Sessions
pub mod Payload
