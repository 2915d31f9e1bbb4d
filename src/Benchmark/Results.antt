-- ===== src/Benchmark/Results.antt =====
-- internal/benchmark/types.go: the result of a benchmark. An int is an ℤ within 64 bits, a uint64 a
-- number below 2^64; a map is the list of its entries; `Time` is time.Time.
use fileserver_mcp.Base.{ℕ, List, Text, codes, Bool, ℤ, Option}
use fileserver_mcp.Benchmark.Statistics.{MetricSummary}

abbrev pub result_schema_version : Text
result_schema_version = codes "flashgate-benchmark/v1"

abbrev pub budget_schema_version : Text
budget_schema_version = codes "flashgate-benchmark-budgets/v1"

abbrev pub benchmark_suite_version : Text
benchmark_suite_version = codes "flashgate-benchmark-suite/v1"

abbrev pub workflow_catalog_version : Text
workflow_catalog_version = codes "flashgate-benchmark-workflows/v1"

abbrev pub corpus_version : Text
corpus_version = codes "flashgate-benchmark-corpus/v1"

pub record ResourceSummary : Type 0 where
  pub status : Text
  pub idle_working_set_bytes : Option MetricSummary
  pub peak_working_set_bytes : Option MetricSummary
  pub user_cpu_ns : Option MetricSummary
  pub system_cpu_ns : Option MetricSummary

pub record StartMeasurement : Type 0 where
  pub repetitions : ℤ
  pub duration_ns : MetricSummary
  pub request_bytes : MetricSummary
  pub response_bytes : MetricSummary
  pub result_bytes : MetricSummary
  pub resources : ResourceSummary
  pub exit_statuses : List (Text × ℤ)
  pub stderr_warnings : List Text
  pub warning_count : ℤ

pub record ProcessStartMeasurements : Type 0 where
  pub first_process_start : StartMeasurement
  pub subsequent_process_start : StartMeasurement

pub record ToolsListMeasurement : Type 0 where
  pub profile : Text
  pub tool_count : ℤ
  pub schema_count : ℤ
  pub request_bytes : ℕ
  pub response_bytes : ℕ
  pub result_bytes : ℕ
  pub approx_tokens_bytes4 : ℕ

pub record WorkflowMeasurement : Type 0 where
  pub name : Text
  pub repetitions : ℤ
  pub calls : ℤ
  pub request_bytes : MetricSummary
  pub response_bytes : MetricSummary
  pub result_bytes : MetricSummary
  pub duration_ns : MetricSummary
  pub read_bytes : MetricSummary
  pub written_bytes : MetricSummary
  pub scanned_bytes : MetricSummary
  pub entries : MetricSummary
  pub approx_tokens_bytes4 : MetricSummary
  pub resources : ResourceSummary
  pub exit_statuses : List (Text × ℤ)
  pub stderr_warnings : List Text
  pub warning_count : ℤ

-- `Message` stands for the texts of the messages.
pub record BudgetEvaluation (Message : Type 0) : Type 0 where
  pub schema_version : Text
  pub hard_failures : ℤ
  pub soft_warnings : ℤ
  pub messages : List Message

pub record BenchmarkResult (Time Message : Type 0) : Type 0 where
  pub schema_version : Text
  pub benchmark_suite : Text
  pub workflow_catalog : Text
  pub corpus : Text
  pub project : Text
  pub commit : Text
  pub working_tree_dirty : Bool
  pub generated_at_utc : Time
  pub go_version : Text
  pub os_name : Text
  pub architecture : Text
  pub runtime_mode : Text
  pub transport : Text
  pub execution_backend : Text
  pub profile : Text
  pub parallelism : ℤ
  pub repetitions : ℤ
  pub start_measurements : ProcessStartMeasurements
  pub resources : ResourceSummary
  pub tools_list : List ToolsListMeasurement
  pub workflows : List WorkflowMeasurement
  pub budget_evaluation : BudgetEvaluation Message
  pub warnings : List Text
  pub unsupported_metrics : List Text
