-- ===== src/Metrics.antt =====
-- The metrics: src/metrics/ServerMetricsProvider.cpp and include/ServerMetricsProvider.h.
pub mod Slot
pub mod Registry
pub mod Report
pub mod Provider
pub mod Collector
