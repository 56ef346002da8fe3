-- ===== src/Tests.antt =====
-- Runs of the modelled code on small inputs, and each theorem at a concrete input.
pub mod Samples
pub mod Desk
mod DeployRuns
mod CommandRuns
mod AnalyticsRuns
mod InsightsRuns
mod WireRuns
mod CollectionRuns
pub mod TeamRuns
mod DeepRuns
mod StoreRuns
mod AdapterRuns
mod ProviderRuns
mod RenderRuns
mod FollowRuns
