-- ===== src/Benchmark/Evaluating.antt =====
-- internal/benchmark/budgets.go, EvaluateBudgets once the budgets are loaded: first which
-- measurements there are, then each against its budget, then the soft budgets.
pub mod Steps
pub mod Measured
pub mod Conforming
use fileserver_mcp.Base.{
  ℕ, [], ◌∷◌, List, length, Text, codes, ◌=ᵗ◌, ◌==◌, Bool, true, false, not, leb, Option, none,
  some, if◌then◌else◌,
}
use fileserver_mcp.Benchmark.Statistics.{MetricSummary}
use fileserver_mcp.Benchmark.StrictJson.{is_one_of}
use fileserver_mcp.Benchmark.Results.{ToolsListMeasurement, WorkflowMeasurement, BenchmarkResult}
use fileserver_mcp.Benchmark.Budgets.{
  ToolsListBudget, WorkflowBudget, BudgetFile, Area, tools_list_area, workflow_area, Finding,
  count_differs, empty_name, unknown, duplicated, incomplete, not_measured, budget_missing,
  budget_unknown, no_budget, differs, exceeds_budget, Evaluation, no_findings, hard_failure,
  fail_where, warn_where, check_hard_maximum, eq_int, complete_workflow_measurement,
  complete_tools_list_measurement,
}

unfoldable pub names_of {ℓ} : {V : Type ℓ} → List (Text × V) → List Text
names_of [] = []
names_of ((name, value) ∷ rest) = name ∷ names_of rest

-- values[name]
unfoldable pub value_at {ℓ} : {V : Type ℓ} → List (Text × V) → Text → Option V
value_at [] name = none
value_at ((key, value) ∷ rest) name =
    let later = value_at rest name in if key =ᵗ name then some value else later

-- One round of the loop over the measurements, at one with this name, which is complete or not;
-- `seen` are the names that have been seen. `expected` are different names.
unfoldable pub check_name :
    Area → List Text → Text → Bool → List Text × Evaluation → List Text × Evaluation
check_name area expected name complete (seen, e) =
    if name =ᵗ []
    then (seen, hard_failure (empty_name area) e)
    else if not (is_one_of name expected)
    then (seen, hard_failure (unknown area name) e)
    else if is_one_of name seen
    then (seen, hard_failure (duplicated area name) e)
    else (name ∷ seen, fail_where (not complete) (incomplete area name) e)

unfoldable pub check_measured :
    Area → List Text → List (Text × Bool) → List Text × Evaluation → List Text × Evaluation
check_measured area expected [] state = state
check_measured area expected ((name, complete) ∷ rest) state =
    check_measured area expected rest (check_name area expected name complete state)

-- The loop over what is expected.
unfoldable pub check_expected : Area → List Text → List Text → List Text → Evaluation → Evaluation
check_expected area seen budgeted [] e = e
check_expected area seen budgeted (name ∷ rest) e = check_expected area seen budgeted rest (
    fail_where (not (is_one_of name budgeted)) (budget_missing area name)
      (fail_where (not (is_one_of name seen)) (not_measured area name) e))

-- The loop over the budgets.
unfoldable pub check_budgeted : Area → List Text → List Text → Evaluation → Evaluation
check_budgeted area expected [] e = e
check_budgeted area expected (name ∷ rest) e =
    check_budgeted area expected rest
      (fail_where (not (is_one_of name expected)) (budget_unknown area name) e)

-- validateToolsListMeasurements and validateWorkflowMeasurements, of the names that they compare.
unfoldable pub validate_measurements :
    Area → List Text → List (Text × Bool) → List Text → Evaluation → Evaluation
validate_measurements area expected measured budgeted e =
    let (seen, e1) = check_measured area expected measured (
      [],
      fail_where (not (length measured == length expected))
          (count_differs area (length measured) (length expected)) e,
    ) in
    check_budgeted area expected budgeted (check_expected area seen budgeted expected e1)

-- The keys of the map that is made of the names.
unfoldable pub keys_of : List Text → List Text
keys_of [] = []
keys_of (name ∷ names) =
    let keys = keys_of names in if is_one_of name keys then keys else name ∷ keys

abbrev pub expected_tools_list_profiles : List Text
expected_tools_list_profiles = codes "read_only" ∷ codes "default" ∷ []

unfoldable pub tools_measured : List ToolsListMeasurement → List (Text × Bool)
tools_measured [] = []
tools_measured (m ∷ ms) = (m.profile, complete_tools_list_measurement m) ∷ tools_measured ms

unfoldable pub workflows_measured : List WorkflowMeasurement → List (Text × Bool)
workflows_measured [] = []
workflows_measured (m ∷ ms) = (m.name, complete_workflow_measurement m) ∷ workflows_measured ms

unfoldable pub validate_tools_list_measurements :
    List ToolsListMeasurement → List (Text × ToolsListBudget) → Evaluation → Evaluation
validate_tools_list_measurements measurements budgets e =
    validate_measurements tools_list_area expected_tools_list_profiles (tools_measured measurements)
      (names_of budgets) e

unfoldable pub validate_workflow_measurements :
    List WorkflowMeasurement → List Text → List (Text × WorkflowBudget) → Evaluation → Evaluation
validate_workflow_measurements measurements expected budgets e =
    validate_measurements workflow_area (keys_of expected) (workflows_measured measurements)
      (names_of budgets) e

-- One measurement of tools/list against its budget.
unfoldable pub hold_tools_list :
    ToolsListMeasurement → Option ToolsListBudget → Evaluation → Evaluation
hold_tools_list m none e = hard_failure (no_budget tools_list_area m.profile) e
hold_tools_list m (some b) e =
    check_hard_maximum m.profile (codes "result_bytes") m.result_bytes b.max_result_bytes (
      check_hard_maximum m.profile (codes "response_bytes") m.response_bytes b.max_response_bytes (
        check_hard_maximum m.profile (codes "request_bytes") m.request_bytes b.max_request_bytes (
          fail_where (not (eq_int m.schema_count b.schema_count))
            (differs m.profile (codes "schema_count") m.schema_count b.schema_count)
            (fail_where (not (eq_int m.tool_count b.tool_count))
              (differs m.profile (codes "tool_count") m.tool_count b.tool_count) e))))

unfoldable pub hold_tools_lists :
    List (Text × ToolsListBudget) → List ToolsListMeasurement → Evaluation → Evaluation
hold_tools_lists budgets [] e = e
hold_tools_lists budgets (m ∷ ms) e =
    hold_tools_lists budgets ms (hold_tools_list m (value_at budgets m.profile) e)

-- The limit of a missing key is 0.
abbrev pub limit_of : Option ℕ → ℕ
limit_of none = 0
limit_of (some limit) = limit

-- One workflow against its budget, and its duration against the soft one.
unfoldable pub hold_workflow :
    WorkflowMeasurement → Option WorkflowBudget → ℕ → Evaluation → Evaluation
hold_workflow m none limit e = hard_failure (no_budget workflow_area m.name) e
hold_workflow m (some b) limit e =
    warn_where (not (leb m.duration_ns.p95 limit))
      (exceeds_budget m.name (codes "duration p95") m.duration_ns.p95 limit)
      (check_hard_maximum m.name (codes "entries") m.entries.max b.max_entries (
        check_hard_maximum m.name (codes "scanned_bytes") m.scanned_bytes.max b.max_scanned_bytes (
          check_hard_maximum m.name (codes "written_bytes") m.written_bytes.max b.max_written_bytes
            (check_hard_maximum m.name (codes "read_bytes") m.read_bytes.max b.max_read_bytes (
              check_hard_maximum m.name (codes "result_bytes") m.result_bytes.max b.max_result_bytes
                (check_hard_maximum m.name (codes "response_bytes") m.response_bytes.max
                  b.max_response_bytes
                  (check_hard_maximum m.name (codes "request_bytes") m.request_bytes.max
                    b.max_request_bytes
                    (fail_where (not (eq_int m.calls b.calls))
                      (differs m.name (codes "calls") m.calls b.calls) e))))))))

unfoldable pub hold_workflows :
    List (Text × WorkflowBudget)
    → List (Text × ℕ)
    → List WorkflowMeasurement
    → Evaluation
    → Evaluation
hold_workflows budgets limits [] e = e
hold_workflows budgets limits (m ∷ ms) e =
    hold_workflows budgets limits ms
      (hold_workflow m (value_at budgets m.name) (limit_of (value_at limits m.name)) e)

-- A metric that was measured, against its soft budget.
unfoldable pub hold_metric : Text → Option MetricSummary → ℕ → Evaluation → Evaluation
hold_metric name none limit e = e
hold_metric name (some metric) limit e =
    warn_where (not (leb metric.max limit)) (exceeds_budget name (codes "max") metric.max limit) e

-- EvaluateBudgets, of budgets and names that are loaded and valid.
module _ {Time Printed : Type 0} (budgets : BudgetFile) (expected : List Text)
    (result : BenchmarkResult Time Printed) where
  unfoldable pub hard_checks : Evaluation → Evaluation
  hard_checks e =
      hold_workflows budgets.hard.workflows budgets.soft.workflow_p95_ns result.workflows (
        hold_tools_lists budgets.hard.tools_list result.tools_list (
          validate_workflow_measurements result.workflows expected budgets.hard.workflows
            (validate_tools_list_measurements result.tools_list budgets.hard.tools_list e)))

  unfoldable pub soft_checks : Evaluation → Evaluation
  soft_checks e =
      let start = result.start_measurements.subsequent_process_start.duration_ns.p95 in
      let limit = budgets.soft.subsequent_process_start_p95_ns in
      hold_metric (codes "system CPU") result.resources.system_cpu_ns budgets.soft.max_system_cpu_ns
        (hold_metric (codes "user CPU") result.resources.user_cpu_ns budgets.soft.max_user_cpu_ns (
          hold_metric (codes "peak working set") result.resources.peak_working_set_bytes
            budgets.soft.max_peak_working_set_bytes
            (hold_metric (codes "idle working set") result.resources.idle_working_set_bytes
              budgets.soft.max_idle_working_set_bytes
              (warn_where (not (leb start limit))
                (exceeds_budget (codes "subsequent_process_start") (codes "p95") start limit) e))))

  unfoldable pub evaluate : Evaluation
  evaluate = soft_checks (hard_checks no_findings)
