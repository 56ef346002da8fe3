-- ===== src/Analytics.antt =====
-- internal/analytics: prices, the metrics record and the engine that computes it.
pub mod Price
pub mod Metrics
pub mod Engine
