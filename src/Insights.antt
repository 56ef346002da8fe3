-- ===== src/Insights.antt =====
-- internal/insights: findings, recommendations, follow-through, personas and trends.
pub mod Finding
pub mod Persona
pub mod Trend
pub mod Recommendation
pub mod FollowThrough
