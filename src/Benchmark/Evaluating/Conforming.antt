-- ===== src/Benchmark/Evaluating/Conforming.antt =====
-- budgets.go, EvaluateBudgets: a result has no hard failure exactly if it conforms to the budgets.
use fileserver_mcp.Base.{
  ℕ, ◌≤◌, [], ◌∷◌, List, Text, codes, All, true, not, leb, ℤ, pos, negsuc, Option, none, some, ◌≡◌,
  ◌↔◌, refl, ap, arith,
}
use fileserver_mcp.Benchmark.Statistics.{MetricSummary}
use fileserver_mcp.Benchmark.Results.{ToolsListMeasurement, WorkflowMeasurement, BenchmarkResult}
use fileserver_mcp.Benchmark.Budgets.{
  ToolsListBudget, WorkflowBudget, BudgetFile, tools_list_area, workflow_area, no_findings,
  no_budget, differs, exceeds_budget, fail_where, eq_int,
}
use fileserver_mcp.Benchmark.Evaluating.{
  keys_of, names_of, value_at, expected_tools_list_profiles, tools_measured, workflows_measured,
  validate_tools_list_measurements, validate_workflow_measurements, hold_tools_list,
  hold_tools_lists, hold_workflow, hold_workflows, hold_metric, limit_of, hard_checks, soft_checks,
  evaluate,
}
use fileserver_mcp.Benchmark.Evaluating.Steps.{
  Requires, hard_failure-not, no_step-Requires, fail_where-not-Requires,
  check_hard_maximum-Requires, warn_where-Requires, Requires-then, Requires-iff,
}
use fileserver_mcp.Benchmark.Evaluating.Measured.{Measures, validate_measurements-Requires}

pub eq_int_iff : (x y : ℤ) → (eq_int x y ≡ true) ↔ (x ≡ y)
unfolding eq_int
eq_int_iff (pos m) (pos n) = ((λ h. ap pos (ground arith)), (λ h. ground arith))
eq_int_iff (pos m) (negsuc n) = ((λ h. cc), (λ h. cc))
eq_int_iff (negsuc m) (pos n) = ((λ h. cc), (λ h. cc))
eq_int_iff (negsuc m) (negsuc n) = ((λ h. ap negsuc (ground arith)), (λ h. ground arith))

same_int-Requires :
    (x y : ℤ) (name metric : Text)
    → Requires (fail_where (not (eq_int x y)) (differs name metric x y)) (x ≡ y)
same_int-Requires x y name metric =
    Requires-iff (eq_int_iff x y) (fail_where-not-Requires (eq_int x y) (differs name metric x y))

-- The measurement keeps to the budget, which is there.
abbrev pub ToolsWithin : ToolsListMeasurement → Option ToolsListBudget → Type 0
ToolsWithin m none = ⊥
ToolsWithin m (some b) =
    ((((m.tool_count ≡ b.tool_count) × (m.schema_count ≡ b.schema_count))
        × (m.request_bytes ≤ b.max_request_bytes))
      × (m.response_bytes ≤ b.max_response_bytes))
    × (m.result_bytes ≤ b.max_result_bytes)

hold_tools_list-Requires :
    (m : ToolsListMeasurement) (o : Option ToolsListBudget)
    → Requires (hold_tools_list m o) (ToolsWithin m o)
unfolding hold_tools_list
hold_tools_list-Requires m none = hard_failure-not (no_budget tools_list_area m.profile)
hold_tools_list-Requires m (some b) =
    Requires-then
      (Requires-then
        (Requires-then
          (Requires-then
            (same_int-Requires m.tool_count b.tool_count m.profile (codes "tool_count"))
            (same_int-Requires m.schema_count b.schema_count m.profile (codes "schema_count")))
          (check_hard_maximum-Requires m.profile (codes "request_bytes") m.request_bytes
            b.max_request_bytes))
        (check_hard_maximum-Requires m.profile (codes "response_bytes") m.response_bytes
          b.max_response_bytes))
      (check_hard_maximum-Requires m.profile (codes "result_bytes") m.result_bytes
        b.max_result_bytes)

hold_tools_lists-Requires :
    (budgets : List (Text × ToolsListBudget)) (ms : List ToolsListMeasurement)
    → Requires
        (hold_tools_lists budgets ms)
        (All (λ m. ToolsWithin m (value_at budgets m.profile)) ms)
unfolding hold_tools_lists
hold_tools_lists-Requires budgets [] = no_step-Requires
hold_tools_lists-Requires budgets (m ∷ ms) =
    Requires-then (hold_tools_list-Requires m (value_at budgets m.profile))
      (hold_tools_lists-Requires budgets ms)

-- A workflow keeps to the hard limits of its budget, which is there.
pub record WorkflowFits (m : WorkflowMeasurement) (b : WorkflowBudget) : Type 0 where
  pub same_calls : m.calls ≡ b.calls
  pub request_bytes : m.request_bytes.max ≤ b.max_request_bytes
  pub response_bytes : m.response_bytes.max ≤ b.max_response_bytes
  pub result_bytes : m.result_bytes.max ≤ b.max_result_bytes
  pub read_bytes : m.read_bytes.max ≤ b.max_read_bytes
  pub written_bytes : m.written_bytes.max ≤ b.max_written_bytes
  pub scanned_bytes : m.scanned_bytes.max ≤ b.max_scanned_bytes
  pub entries : m.entries.max ≤ b.max_entries

abbrev pub WorkflowWithin : WorkflowMeasurement → Option WorkflowBudget → Type 0
WorkflowWithin m none = ⊥
WorkflowWithin m (some b) = WorkflowFits m b

hold_workflow-Requires :
    (m : WorkflowMeasurement) (o : Option WorkflowBudget) (limit : ℕ)
    → Requires (hold_workflow m o limit) (WorkflowWithin m o)
unfolding hold_workflow
hold_workflow-Requires m none limit = hard_failure-not (no_budget workflow_area m.name)
hold_workflow-Requires m (some b) limit =
    Requires-iff
      (
        (λ ((((((((calls, request), response), result), read), written), scanned), entries), unit).
            record {
              same_calls = calls;
              request_bytes = request;
              response_bytes = response;
              result_bytes = result;
              read_bytes = read;
              written_bytes = written;
              scanned_bytes = scanned;
              entries = entries;
            }),
        (λ f. (
          (
            (
              (
                (
                  (((f.same_calls, f.request_bytes), f.response_bytes), f.result_bytes),
                  f.read_bytes,
                ),
                f.written_bytes,
              ),
              f.scanned_bytes,
            ),
            f.entries,
          ),
          tt,
        )),
      )
      (Requires-then
        (Requires-then
          (Requires-then
            (Requires-then
              (Requires-then
                (Requires-then
                  (Requires-then
                    (Requires-then (same_int-Requires m.calls b.calls m.name (codes "calls")) (
                      check_hard_maximum-Requires m.name (codes "request_bytes") m.request_bytes.max
                        b.max_request_bytes))
                    (check_hard_maximum-Requires m.name (codes "response_bytes")
                      m.response_bytes.max b.max_response_bytes))
                  (check_hard_maximum-Requires m.name (codes "result_bytes") m.result_bytes.max
                    b.max_result_bytes))
                (check_hard_maximum-Requires m.name (codes "read_bytes") m.read_bytes.max
                  b.max_read_bytes))
              (check_hard_maximum-Requires m.name (codes "written_bytes") m.written_bytes.max
                b.max_written_bytes))
            (check_hard_maximum-Requires m.name (codes "scanned_bytes") m.scanned_bytes.max
              b.max_scanned_bytes))
          (check_hard_maximum-Requires m.name (codes "entries") m.entries.max b.max_entries))
        (warn_where-Requires (not (leb m.duration_ns.p95 limit))
          (exceeds_budget m.name (codes "duration p95") m.duration_ns.p95 limit)))

hold_workflows-Requires :
    (budgets : List (Text × WorkflowBudget)) (limits : List (Text × ℕ))
    (ms : List WorkflowMeasurement)
    → Requires
        (hold_workflows budgets limits ms)
        (All (λ m. WorkflowWithin m (value_at budgets m.name)) ms)
unfolding hold_workflows
hold_workflows-Requires budgets limits [] = no_step-Requires
hold_workflows-Requires budgets limits (m ∷ ms) =
    Requires-then
      (hold_workflow-Requires m (value_at budgets m.name) (limit_of (value_at limits m.name)))
      (hold_workflows-Requires budgets limits ms)

hold_metric-Requires :
    (name : Text) (o : Option MetricSummary) (limit : ℕ) → Requires (hold_metric name o limit) Unit
unfolding hold_metric
hold_metric-Requires name none limit = no_step-Requires
hold_metric-Requires name (some metric) limit =
    warn_where-Requires (not (leb metric.max limit))
      (exceeds_budget name (codes "max") metric.max limit)

module _ {Time Printed : Type 0} (budgets : BudgetFile) (expected : List Text)
    (result : BenchmarkResult Time Printed) where
  -- The result has the measurements that are expected, each within its hard budget.
  pub record Conforms : Type 0 where
    pub tools_lists :
        Measures expected_tools_list_profiles
          (tools_measured result.tools_list)
          (names_of budgets.hard.tools_list)
    pub workflows :
        Measures
          (keys_of expected)
          (workflows_measured result.workflows)
          (names_of budgets.hard.workflows)
    pub tools_lists_within :
        All (λ m. ToolsWithin m (value_at budgets.hard.tools_list m.profile)) result.tools_list
    pub workflows_within :
        All (λ m. WorkflowWithin m (value_at budgets.hard.workflows m.name)) result.workflows

  hard_checks-Requires : Requires (hard_checks budgets expected result) Conforms
  unfolding hard_checks validate_tools_list_measurements validate_workflow_measurements
  hard_checks-Requires =
      Requires-iff
        (
          (λ (((tools, flows), tools_in), flows_in). record {
            tools_lists = tools;
            workflows = flows;
            tools_lists_within = tools_in;
            workflows_within = flows_in;
          }),
          (λ c. (((c.tools_lists, c.workflows), c.tools_lists_within), c.workflows_within)),
        )
        (Requires-then
          (Requires-then
            (Requires-then
              (validate_measurements-Requires tools_list_area expected_tools_list_profiles
                (tools_measured result.tools_list) (names_of budgets.hard.tools_list))
              (validate_measurements-Requires workflow_area (keys_of expected)
                (workflows_measured result.workflows) (names_of budgets.hard.workflows)))
            (hold_tools_lists-Requires budgets.hard.tools_list result.tools_list))
          (hold_workflows-Requires budgets.hard.workflows budgets.soft.workflow_p95_ns
            result.workflows))

  soft_checks-Requires : Requires (soft_checks budgets expected result) (Unit {0})
  unfolding soft_checks
  soft_checks-Requires =
      let start = result.start_measurements.subsequent_process_start.duration_ns.p95 in
      let limit = budgets.soft.subsequent_process_start_p95_ns in
      let resources = result.resources in
      Requires-iff ((λ h. tt), (λ h. ((((tt, tt), tt), tt), tt)))
        (Requires-then
          (Requires-then
            (Requires-then
              (Requires-then
                (warn_where-Requires (not (leb start limit))
                  (exceeds_budget (codes "subsequent_process_start") (codes "p95") start limit))
                (hold_metric-Requires (codes "idle working set") resources.idle_working_set_bytes
                  budgets.soft.max_idle_working_set_bytes))
              (hold_metric-Requires (codes "peak working set") resources.peak_working_set_bytes
                budgets.soft.max_peak_working_set_bytes))
            (hold_metric-Requires (codes "user CPU") resources.user_cpu_ns
              budgets.soft.max_user_cpu_ns))
          (hold_metric-Requires (codes "system CPU") resources.system_cpu_ns
            budgets.soft.max_system_cpu_ns))

  -- EvaluateBudgets counts no hard failure exactly if the result conforms: its measurements are
  -- those that are expected, once each, complete and with a budget, no budget is for another, and
  -- each keeps to the hard limits of its budget; the soft budgets play no part in it.
  pub evaluate-Conforms : ((evaluate budgets expected result).hard_failures ≡ 0) ↔ Conforms
  unfolding evaluate
  evaluate-Conforms =
      let (there, back) =
        (Requires-then hard_checks-Requires soft_checks-Requires).clean_iff no_findings in
      ((λ h. (there h).1.0), (λ c. back (refl, (c, tt))))
