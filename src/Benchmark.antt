-- ===== src/Benchmark.antt =====
-- internal/benchmark: the statistics of the measurements, the budgets they are held against, and
-- the reading of the JSON files.
pub mod Statistics
pub mod StrictJson
pub mod Names
pub mod Results
pub mod Budgets
pub mod Evaluating
pub mod ProcMetrics
pub mod Measuring
pub mod Loading
pub mod ResultType
pub mod Artifacts
