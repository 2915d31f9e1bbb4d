-- ===== src/Benchmark/Artifacts.antt =====
-- internal/benchmark/artifact_validation.go: the checks of a stored result. `print` is fmt's text of a
-- message, and `is_zero` is time.Time's IsZero.
pub mod Accepted
use fileserver_mcp.Base.{
  ℕ, suc, [], ◌∷◌, List, length, map, Text, Bytes, codes, ◌=ᵗ◌, Bool, true, false, not, ◌&&◌, ◌||◌,
  ◌==◌, leb, ltb, is_digit, ℤ, pos, negsuc, is_positive, reaches, Option, none, some, or_else,
  if◌then◌else◌, Result, ok, err, ◌⊎◌, inl, inr,
}
use fileserver_mcp.Protocol.{Json}
use fileserver_mcp.Benchmark.Statistics.{MetricSummary}
use fileserver_mcp.Benchmark.ResultType.{result_type}
use fileserver_mcp.Benchmark.StrictJson.Decoding.{decode_strict_json}
use fileserver_mcp.Benchmark.Results.{
  BenchmarkResult, BudgetEvaluation, StartMeasurement, ResourceSummary, ToolsListMeasurement,
  WorkflowMeasurement, result_schema_version, budget_schema_version, benchmark_suite_version,
  workflow_catalog_version, corpus_version,
}
use fileserver_mcp.Benchmark.Budgets.{BudgetFile, Message, Evaluation, eq_int}
use fileserver_mcp.Benchmark.Loading.{LoadError, Catalog, ◌>>=◌, read_as, evaluate_budgets}

-- benchmarkCommitPattern: unknown, or 7 to 40 hexadecimal digits.
unfoldable pub all_hexadecimal : Text → Bool
all_hexadecimal [] = true
all_hexadecimal (c ∷ s) = (is_digit c || (leb b'a' c && leb c b'f')) && all_hexadecimal s

unfoldable pub commit_matches : Text → Bool
commit_matches commit =
    commit =ᵗ codes "unknown"
    || (leb 7 (length commit) && leb (length commit) 40 && all_hexadecimal commit)

pub data SchemaError : Type 0 where
  wrong_schema_version wrong_versions wrong_project wrong_commit no_time no_platform wrong_execution
        wrong_repetitions few_tools_lists few_workflows negative_samples wrong_counts
        negative_exit_status wrong_status wrong_profile negative_count wrong_workflow
        wrong_evaluation :
      SchemaError

abbrev pub is_negative : ℤ → Bool
is_negative (pos n) = false
is_negative (negsuc n) = true

-- `if test { return error }`, and then the rest.
unfoldable pub reject_if : Bool → SchemaError → Option SchemaError → Option SchemaError
reject_if true e next = some e
reject_if false e next = next

unfoldable pub validate_metric_schema : MetricSummary → Option SchemaError
validate_metric_schema summary = reject_if (is_negative summary.samples) negative_samples none

-- The loops over a list of metrics.
unfoldable pub validate_metrics : List MetricSummary → Option SchemaError
validate_metrics [] = none
validate_metrics (summary ∷ rest) = or_else (validate_metric_schema summary) (validate_metrics rest)

unfoldable pub measured_metrics : List (Option MetricSummary) → List MetricSummary
measured_metrics [] = []
measured_metrics (none ∷ rest) = measured_metrics rest
measured_metrics (some summary ∷ rest) = summary ∷ measured_metrics rest

unfoldable pub validate_resource_schema : ResourceSummary → Option SchemaError
validate_resource_schema r =
    reject_if (not (r.status =ᵗ codes "supported") && not (r.status =ᵗ codes "not_supported"))
      wrong_status
      (validate_metrics (
        measured_metrics (
          r.idle_working_set_bytes ∷ r.peak_working_set_bytes ∷ r.user_cpu_ns ∷ r.system_cpu_ns
          ∷ [])))

unfoldable pub validate_exit_statuses : List (Text × ℤ) → Option SchemaError
validate_exit_statuses [] = none
validate_exit_statuses ((code, count) ∷ rest) =
    reject_if (is_negative count) negative_exit_status (validate_exit_statuses rest)

unfoldable pub validate_start_measurement_schema : StartMeasurement → Option SchemaError
validate_start_measurement_schema m =
    reject_if (not (is_positive m.repetitions) || is_negative m.warning_count) wrong_counts (
      or_else
        (validate_metrics
          (m.duration_ns ∷ m.request_bytes ∷ m.response_bytes ∷ m.result_bytes ∷ []))
        (or_else (validate_exit_statuses m.exit_statuses) (validate_resource_schema m.resources)))

unfoldable pub validate_tools_lists : List ToolsListMeasurement → Option SchemaError
validate_tools_lists [] = none
validate_tools_lists (m ∷ rest) =
    reject_if (not (m.profile =ᵗ codes "read_only") && not (m.profile =ᵗ codes "default"))
      wrong_profile
      (reject_if (is_negative m.tool_count || is_negative m.schema_count) negative_count
        (validate_tools_lists rest))

unfoldable pub validate_workflows : List WorkflowMeasurement → Option SchemaError
validate_workflows [] = none
validate_workflows (m ∷ rest) =
    reject_if
      (m.name =ᵗ []
        || not (is_positive m.repetitions)
        || is_negative m.calls
        || is_negative m.warning_count)
      wrong_workflow
      (or_else
        (validate_metrics (
          m.request_bytes ∷ m.response_bytes ∷ m.result_bytes ∷ m.duration_ns ∷ m.read_bytes
          ∷ m.written_bytes ∷ m.scanned_bytes ∷ m.entries ∷ m.approx_tokens_bytes4 ∷ []))
        (or_else (validate_resource_schema m.resources) (validate_workflows rest)))

module _ {Time : Type 0} (is_zero : Time → Bool) where
  unfoldable pub validate_baseline_schema_invariants :
      BenchmarkResult Time Text → Option SchemaError
  validate_baseline_schema_invariants r =
      reject_if (not (r.schema_version =ᵗ result_schema_version)) wrong_schema_version (
        reject_if
          (not (r.benchmark_suite =ᵗ benchmark_suite_version)
            || not (r.workflow_catalog =ᵗ workflow_catalog_version)
            || not (r.corpus =ᵗ corpus_version))
          wrong_versions
          (reject_if (not (r.project =ᵗ codes "flashgate-mcp")) wrong_project (
            reject_if (not (commit_matches r.commit)) wrong_commit (
              reject_if (is_zero r.generated_at_utc) no_time (
                reject_if (r.go_version =ᵗ [] || r.os_name =ᵗ [] || r.architecture =ᵗ [])
                  no_platform
                  (reject_if
                    (not (r.runtime_mode =ᵗ codes "direct_stdio")
                      || not (r.transport =ᵗ codes "stdio")
                      || not (r.execution_backend =ᵗ codes "current_process")
                      || not (r.profile =ᵗ codes "read_only"))
                    wrong_execution
                    (reject_if
                      (not (eq_int r.parallelism (pos 1)) || not (is_positive r.repetitions))
                      wrong_repetitions
                      (reject_if (ltb (length r.tools_list) 2) few_tools_lists (
                        reject_if (ltb (length r.workflows) 10) few_workflows (
                          or_else
                            (validate_start_measurement_schema
                              r.start_measurements.first_process_start)
                            (or_else
                              (validate_start_measurement_schema
                                r.start_measurements.subsequent_process_start)
                              (or_else (validate_resource_schema r.resources) (
                                or_else (validate_tools_lists r.tools_list) (
                                  or_else (validate_workflows r.workflows) (
                                    reject_if
                                      (not (
                                          r.budget_evaluation.schema_version
                                          =ᵗ budget_schema_version)
                                        || is_negative r.budget_evaluation.hard_failures
                                        || is_negative r.budget_evaluation.soft_warnings)
                                      wrong_evaluation none)))))))))))))))

-- reflect.DeepEqual of the two evaluations.
unfoldable pub same_texts : List Text → List Text → Bool
same_texts [] [] = true
same_texts [] (t ∷ ts) = false
same_texts (s ∷ ss) [] = false
same_texts (s ∷ ss) (t ∷ ts) = s =ᵗ t && same_texts ss ts

unfoldable pub printed : (Message → Text) → Evaluation → BudgetEvaluation Text
printed print e = record {
  schema_version = budget_schema_version;
  hard_failures = pos e.hard_failures;
  soft_warnings = pos e.soft_warnings;
  messages = map print e.messages;
}

unfoldable pub deep_equal : BudgetEvaluation Text → BudgetEvaluation Text → Bool
deep_equal a b =
    a.schema_version =ᵗ b.schema_version
    && eq_int a.hard_failures b.hard_failures
    && eq_int a.soft_warnings b.soft_warnings
    && same_texts a.messages b.messages

-- The errors of loadValidatedBaselineArtifact.
pub data ArtifactError : Type 0 where
  not_loaded : LoadError → ArtifactError
  bad_schema : SchemaError → ArtifactError
  not_evaluated : LoadError → ArtifactError
  budget_failure : ℕ → Bool → ArtifactError
  evaluation_mismatch : ArtifactError

-- validateArtifactBudgets, of the evaluation that was computed again.
unfoldable pub judge :
    (Message → Text) → BudgetEvaluation Text → LoadError ⊎ Evaluation → Option ArtifactError
judge print embedded (inl e) = some (not_evaluated e)
judge print embedded (inr recomputed) =
    let matches = deep_equal embedded (printed print recomputed) in
    if ltb 0 recomputed.hard_failures
    then some (budget_failure recomputed.hard_failures matches)
    else if not matches
    then some evaluation_mismatch
    else none

unfoldable pub accepted_result :
    {Value : Type 0} → Option SchemaError → Option ArtifactError → Value → ArtifactError ⊎ Value
accepted_result (some e) budgets result = inl (bad_schema e)
accepted_result none (some e) result = inl e
accepted_result none none result = inr result

module _ {Time : Type 0} (is_zero : Time → Bool) (print : Message → Text) (marshal : Text → Text)
    (parse : Bytes → Option Json) (fill_budgets : Json → Option BudgetFile)
    (fill_catalog : Json → Option Catalog) (fill_result : Json → Option (BenchmarkResult Time Text))
    (read : Text → Result Bytes) where
  unfoldable pub validate_artifact_budgets : Text → BenchmarkResult Time Text → Option ArtifactError
  validate_artifact_budgets budget_path result =
      judge print result.budget_evaluation
        (evaluate_budgets marshal parse fill_budgets fill_catalog read budget_path result)

  unfoldable pub validated :
      Text → LoadError ⊎ BenchmarkResult Time Text → ArtifactError ⊎ BenchmarkResult Time Text
  validated budget_path (inl e) = inl (not_loaded e)
  validated budget_path (inr result) =
      accepted_result (validate_baseline_schema_invariants is_zero result)
        (validate_artifact_budgets budget_path result) result

  -- loadValidatedBaselineArtifact
  unfoldable pub load_validated_baseline_artifact :
      Text → Text → ArtifactError ⊎ BenchmarkResult Time Text
  load_validated_baseline_artifact artifact_path budget_path =
      validated budget_path
        (read_as (decode_strict_json marshal parse fill_result result_type) (read artifact_path))
