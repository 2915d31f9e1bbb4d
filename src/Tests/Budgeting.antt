-- ===== src/Tests/Budgeting.antt =====
-- EvaluateBudgets on a small result, and the measurement of two samples.
use fileserver_mcp.Base.{
  arith, ℕ, [], ◌∷◌, Text, codes, true, false, pos, none, some, ◌≡◌, ◌↔◌, refl,
}
use fileserver_mcp.Benchmark.Statistics.{MetricSummary}
use fileserver_mcp.Benchmark.Results.{
  BenchmarkResult, StartMeasurement, ResourceSummary, ToolsListMeasurement, WorkflowMeasurement,
}
use fileserver_mcp.Benchmark.Budgets.{
  ToolsListBudget, BudgetFile, hard_failure, fail_where, soft_warning, warn_where,
  check_hard_maximum, eq_int, add_int, exit_samples, all_sampled, complete_workflow_measurement,
  complete_tools_list_measurement,
}
use fileserver_mcp.Benchmark.StrictJson.{is_one_of}
use fileserver_mcp.Benchmark.Evaluating.{
  keys_of, names_of, value_at, check_name, check_measured, check_expected, check_budgeted,
  validate_measurements, tools_measured, workflows_measured, validate_tools_list_measurements,
  validate_workflow_measurements, hold_tools_list, hold_tools_lists, hold_workflow, hold_workflows,
  hold_metric, hard_checks, soft_checks, evaluate,
}
use fileserver_mcp.Base.{◌=ᵗ◌}
use fileserver_mcp.Benchmark.Measuring.{
  Counters, SampleResources, ProcessSample, workflow_measurement,
}
use fileserver_mcp.Benchmark.Measuring.Complete.{workflow_measurement-complete_workflow_measurement}
use fileserver_mcp.Benchmark.Evaluating.Conforming.{Conforms, evaluate-Conforms}

abbrev metric : ℕ → MetricSummary
metric n = record { samples = pos 1; min = n; p50 = n; p95 = n; max = n }

abbrev unmeasured : ResourceSummary
unmeasured = record {
  status = codes "not_supported";
  idle_working_set_bytes = none;
  peak_working_set_bytes = some (metric 9);
  user_cpu_ns = none;
  system_cpu_ns = none;
}

abbrev start : StartMeasurement
start = record {
  repetitions = pos 1;
  duration_ns = metric 5;
  request_bytes = metric 5;
  response_bytes = metric 5;
  result_bytes = metric 5;
  resources = unmeasured;
  exit_statuses = (codes "0", pos 1) ∷ [];
  stderr_warnings = [];
  warning_count = pos 0;
}

abbrev tools_of : Text → ToolsListMeasurement
tools_of profile = record {
  profile = profile;
  tool_count = pos 3;
  schema_count = pos 3;
  request_bytes = 10;
  response_bytes = 20;
  result_bytes = 15;
  approx_tokens_bytes4 = 5;
}

abbrev reading_workflow : WorkflowMeasurement
reading_workflow = record {
  name = codes "read";
  repetitions = pos 1;
  calls = pos 2;
  request_bytes = metric 5;
  response_bytes = metric 6;
  result_bytes = metric 7;
  duration_ns = metric 8;
  read_bytes = metric 9;
  written_bytes = metric 0;
  scanned_bytes = metric 0;
  entries = metric 0;
  approx_tokens_bytes4 = metric 1;
  resources = unmeasured;
  exit_statuses = (codes "0", pos 1) ∷ [];
  stderr_warnings = [];
  warning_count = pos 0;
}

abbrev measured : BenchmarkResult ℕ Text
measured = record {
  schema_version = codes "flashgate-benchmark/v1";
  benchmark_suite = codes "flashgate-benchmark-suite/v1";
  workflow_catalog = codes "flashgate-benchmark-workflows/v1";
  corpus = codes "flashgate-benchmark-corpus/v1";
  project = codes "flashgate-mcp";
  commit = codes "unknown";
  working_tree_dirty = false;
  generated_at_utc = 1;
  go_version = codes "go1.24";
  os_name = codes "linux";
  architecture = codes "amd64";
  runtime_mode = codes "direct_stdio";
  transport = codes "stdio";
  execution_backend = codes "current_process";
  profile = codes "read_only";
  parallelism = pos 1;
  repetitions = pos 1;
  start_measurements = record { first_process_start = start; subsequent_process_start = start };
  resources = unmeasured;
  tools_list = tools_of (codes "read_only") ∷ tools_of (codes "default") ∷ [];
  workflows = reading_workflow ∷ [];
  budget_evaluation = record {
    schema_version = [];
    hard_failures = pos 0;
    soft_warnings = pos 0;
    messages = [];
  };
  warnings = [];
  unsupported_metrics = [];
}

abbrev tools_budget : ToolsListBudget
tools_budget = record {
  tool_count = pos 3;
  schema_count = pos 3;
  max_request_bytes = 10;
  max_response_bytes = 30;
  max_result_bytes = 30;
}

-- Budgets whose limit for the bytes that the workflow reads is this.
abbrev budgets_with : ℕ → BudgetFile
budgets_with limit = record {
  schema_version = codes "flashgate-benchmark-budgets/v1";
  hard = record {
    tools_list = (codes "read_only", tools_budget) ∷ (codes "default", tools_budget) ∷ [];
    workflows =
        (
          codes "read",
          record {
            calls = pos 2;
            max_request_bytes = 10;
            max_response_bytes = 10;
            max_result_bytes = 10;
            max_read_bytes = limit;
            max_written_bytes = 0;
            max_scanned_bytes = 0;
            max_entries = 0;
          },
        )
        ∷ [];
    serialization = [];
  };
  soft = record {
    subsequent_process_start_p95_ns = 1;
    max_idle_working_set_bytes = 1;
    max_peak_working_set_bytes = 1;
    max_user_cpu_ns = 1;
    max_system_cpu_ns = 1;
    workflow_p95_ns = (codes "read", 10) ∷ [];
  };
}

evaluate-Conforms_example :
    ((evaluate (budgets_with 9) (codes "read" ∷ []) measured).hard_failures ≡ 0)
    ↔ Conforms (budgets_with 9) (codes "read" ∷ []) measured
evaluate-Conforms_example = evaluate-Conforms (budgets_with 9) (codes "read" ∷ []) measured

-- What a run unfolds.
all : Unit {0}
unfolding keys_of ◌=ᵗ◌ is_one_of names_of value_at hard_failure fail_where soft_warning warn_where
    check_hard_maximum eq_int add_int exit_samples all_sampled complete_workflow_measurement
    complete_tools_list_measurement check_name check_measured check_expected check_budgeted
    validate_measurements tools_measured workflows_measured validate_tools_list_measurements
    validate_workflow_measurements hold_tools_list hold_tools_lists hold_workflow hold_workflows
    hold_metric hard_checks soft_checks evaluate
all = tt

-- The soft budgets of the start and of the peak are passed; that is no failure.
evaluate_runs :
    ((evaluate (budgets_with 9) (codes "read" ∷ []) measured).hard_failures ≡ 0)
    × ((evaluate (budgets_with 9) (codes "read" ∷ []) measured).soft_warnings ≡ 2)
unfolding all
evaluate_runs = (refl, refl)

evaluate_over_runs : (evaluate (budgets_with 8) (codes "read" ∷ []) measured).hard_failures ≡ 1
unfolding all
evaluate_over_runs = refl

abbrev counted_bytes : Counters
counted_bytes = record {
  request_bytes = 40;
  response_bytes = 90;
  result_bytes = 70;
  read_bytes = 5;
  written_bytes = 0;
  scanned_bytes = 5;
  entries = 0;
  calls = pos 1;
}

abbrev unread : SampleResources
unread = record {
  status = codes "not_supported";
  idle_working_set_bytes = none;
  peak_working_set_bytes = none;
  user_cpu_ns = none;
  system_cpu_ns = none;
}

abbrev sample_of : ℕ → ProcessSample
sample_of ns = record {
  startup_ns = 3;
  duration_ns = ns;
  counters = counted_bytes;
  resources = unread;
  exit_status = pos 0;
  warnings = codes "slow" ∷ [];
  unsupported = [];
}

workflow_measurement-complete_workflow_measurement_example :
    (m : WorkflowMeasurement) × (workflow_measurement
        (codes "read")
        (sample_of 8 ∷ sample_of 6 ∷ [])
      ≡ some m)
    × (m.name ≡ codes "read")
    × (complete_workflow_measurement m ≡ true)
workflow_measurement-complete_workflow_measurement_example =
    workflow_measurement-complete_workflow_measurement (codes "read") (sample_of 8)
      (sample_of 6 ∷ []) (omega arith) (omega arith) (omega arith) (omega arith) (omega arith)
