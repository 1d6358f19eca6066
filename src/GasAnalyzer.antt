-- ===== src/GasAnalyzer.antt =====
-- internal/gasanalyzer: fees and tips (fee.go), percentiles (util.go), the histogram (histogram.go) and
-- the analyzer (analyzer.go).
pub mod Analyzer
pub mod Fee
pub mod Float
pub mod Histogram
pub mod Hundredths
pub mod Percentiles
pub mod Pools
pub mod Send
pub mod Targets
