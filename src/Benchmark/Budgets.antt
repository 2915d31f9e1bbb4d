-- ===== src/Benchmark/Budgets.antt =====
-- internal/benchmark/budgets.go: a result is held against the budgets. A message is its format with
-- its arguments, before fmt prints it. A map is the list of its entries in the order in which a
-- loop over it meets them.
use fileserver_mcp.Base.{
  ℕ, suc, ◌+◌, ◌-◌, ◌%◌, [], ◌∷◌, ◌++◌, List, length, Text, ◌=ᵗ◌, Bool, true, false, not, ◌&&◌,
  ◌||◌, ◌==◌, ltb, leb, ℤ, pos, negsuc, is_positive, if◌then◌else◌,
}
use fileserver_mcp.Benchmark.Statistics.{MetricSummary}
use fileserver_mcp.Benchmark.Results.{ToolsListMeasurement, WorkflowMeasurement}

pub record ToolsListBudget : Type 0 where
  pub tool_count : ℤ
  pub schema_count : ℤ
  pub max_request_bytes : ℕ
  pub max_response_bytes : ℕ
  pub max_result_bytes : ℕ

pub record WorkflowBudget : Type 0 where
  pub calls : ℤ
  pub max_request_bytes : ℕ
  pub max_response_bytes : ℕ
  pub max_result_bytes : ℕ
  pub max_read_bytes : ℕ
  pub max_written_bytes : ℕ
  pub max_scanned_bytes : ℕ
  pub max_entries : ℕ

pub record SerializationBudget : Type 0 where
  pub max_payload_bytes : ℕ
  pub max_allocs_per_op : ℕ

pub record HardBudgets : Type 0 where
  pub tools_list : List (Text × ToolsListBudget)
  pub workflows : List (Text × WorkflowBudget)
  pub serialization : List (Text × SerializationBudget)

pub record SoftBudgets : Type 0 where
  pub subsequent_process_start_p95_ns : ℕ
  pub max_idle_working_set_bytes : ℕ
  pub max_peak_working_set_bytes : ℕ
  pub max_user_cpu_ns : ℕ
  pub max_system_cpu_ns : ℕ
  pub workflow_p95_ns : List (Text × ℕ)

pub record BudgetFile : Type 0 where
  pub schema_version : Text
  pub hard : HardBudgets
  pub soft : SoftBudgets

pub data Area : Type 0 where
  tools_list_area workflow_area : Area

-- The formats of the messages, with their arguments.
pub data Finding : Type 0 where
  count_differs : Area → ℕ → ℕ → Finding
  empty_name : Area → Finding
  unknown duplicated incomplete not_measured budget_missing budget_unknown no_budget :
      Area → Text → Finding
  differs : Text → Text → ℤ → ℤ → Finding
  exceeds_budget : Text → Text → ℕ → ℕ → Finding

pub data Message : Type 0 where
  hard_message soft_message : Finding → Message

pub record Evaluation : Type 0 where
  pub hard_failures : ℕ
  pub soft_warnings : ℕ
  pub messages : List Message

abbrev pub no_findings : Evaluation
no_findings = record { hard_failures = 0; soft_warnings = 0; messages = [] }

unfoldable pub hard_failure : Finding → Evaluation → Evaluation
hard_failure finding e = record e {
  hard_failures = suc e.hard_failures;
  messages = e.messages ++ hard_message finding ∷ [];
}

unfoldable pub soft_warning : Finding → Evaluation → Evaluation
soft_warning finding e = record e {
  soft_warnings = suc e.soft_warnings;
  messages = e.messages ++ soft_message finding ∷ [];
}

-- `if test { hardFailure(...) }`
unfoldable pub fail_where : Bool → Finding → Evaluation → Evaluation
fail_where test finding e = if test then hard_failure finding e else e

unfoldable pub warn_where : Bool → Finding → Evaluation → Evaluation
warn_where test finding e = if test then soft_warning finding e else e

unfoldable pub check_hard_maximum : Text → Text → ℕ → ℕ → Evaluation → Evaluation
check_hard_maximum name metric actual maximum e =
    fail_where (not (leb actual maximum)) (exceeds_budget name metric actual maximum) e

unfoldable pub eq_int : ℤ → ℤ → Bool
eq_int (pos m) (pos n) = m == n
eq_int (pos m) (negsuc n) = false
eq_int (negsuc m) (pos n) = false
eq_int (negsuc m) (negsuc n) = m == n

-- The 64 bits of an int, the int of 64 bits, and the sum of two ints, which wraps around.
abbrev pub int_bits : ℤ → ℕ
int_bits (pos n) = n % 18_446_744_073_709_551_616
int_bits (negsuc n) = 18_446_744_073_709_551_615 - n % 18_446_744_073_709_551_616

abbrev pub int_of_bits : ℕ → ℤ
int_of_bits n =
    if ltb n 9_223_372_036_854_775_808 then pos n else negsuc (18_446_744_073_709_551_615 - n)

unfoldable pub add_int : ℤ → ℤ → ℤ
add_int x y = int_of_bits ((int_bits x + int_bits y) % 18_446_744_073_709_551_616)

unfoldable pub exit_samples : List (Text × ℤ) → ℤ → ℤ
exit_samples [] sum = sum
exit_samples ((code, count) ∷ rest) sum = exit_samples rest (add_int sum count)

unfoldable pub all_sampled : ℤ → List MetricSummary → Bool
all_sampled repetitions [] = true
all_sampled repetitions (summary ∷ rest) =
    eq_int summary.samples repetitions && all_sampled repetitions rest

unfoldable pub complete_workflow_measurement : WorkflowMeasurement → Bool
complete_workflow_measurement m =
    is_positive m.repetitions
    && not (m.resources.status =ᵗ [])
    && eq_int m.warning_count (pos (length m.stderr_warnings))
    && all_sampled m.repetitions (
        m.request_bytes ∷ m.response_bytes ∷ m.result_bytes ∷ m.duration_ns ∷ m.read_bytes
        ∷ m.written_bytes ∷ m.scanned_bytes ∷ m.entries ∷ m.approx_tokens_bytes4 ∷ [])
    && not (
        m.request_bytes.max == 0
        || m.response_bytes.max == 0
        || m.result_bytes.max == 0
        || m.duration_ns.max == 0)
    && eq_int (exit_samples m.exit_statuses (pos 0)) m.repetitions

unfoldable pub complete_tools_list_measurement : ToolsListMeasurement → Bool
complete_tools_list_measurement m =
    is_positive m.tool_count
    && is_positive m.schema_count
    && not (m.request_bytes == 0)
    && not (m.response_bytes == 0)
    && not (m.result_bytes == 0)
    && not (m.approx_tokens_bytes4 == 0)
