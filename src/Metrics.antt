-- ===== src/Metrics.antt =====
-- pkg/metrics: the counters of the program.
pub mod SlidingWindow
