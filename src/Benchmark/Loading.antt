-- ===== src/Benchmark/Loading.antt =====
-- internal/benchmark/budgets.go: loading the budgets and the workflow catalog, their validation, and
-- EvaluateBudgets as a whole. The files' bytes come from `read`.
use fileserver_mcp.Base.{
  ℕ, [], ◌∷◌, List, Text, Bytes, codes, ◌=ᵗ◌, Bool, true, false, not, ◌==◌, Option, none, some,
  or_else, if◌then◌else◌, Result, ok, err, Error, ◌⊎◌, inl, inr, is_not_exist, os, permission,
}
use fileserver_mcp.FilePath.{join, dir}
use fileserver_mcp.Protocol.{Json}
use fileserver_mcp.Benchmark.StrictJson.{
  GoType, string_type, bool_type, number_type, pointer_to, slice_of, map_of, struct_of, GoFields,
  no_more, member, is_one_of, sort_texts, not_among,
}
use fileserver_mcp.Benchmark.StrictJson.Decoding.{StrictError, decode_strict_json}
use fileserver_mcp.Benchmark.Results.{
  BenchmarkResult, budget_schema_version, workflow_catalog_version,
}
use fileserver_mcp.Benchmark.Budgets.{BudgetFile, SerializationBudget, Evaluation}
use fileserver_mcp.Benchmark.Evaluating.{
  names_of, value_at, limit_of, expected_tools_list_profiles, evaluate,
}

-- benchmarkReadError's cause
pub data ReadCause : Type 0 where
  file_does_not_exist permission_denied read_failed : ReadCause

unfoldable pub read_cause : Error → ReadCause
read_cause (os permission) = permission_denied
read_cause e = if is_not_exist e then file_does_not_exist else read_failed

pub data LoadError : Type 0 where
  unreadable : ReadCause → LoadError
  misread : StrictError → LoadError
  unsupported_version : Text → LoadError
  missing_keys unknown_keys : Text → List Text → LoadError
  zero_limit zero_workflow_limit duplicate_workflow : Text → LoadError
  empty_workflow_name empty_catalog empty_serialization : LoadError

-- The types of the two files.
abbrev number : Text → GoFields → GoFields
number name rest = member name name number_type rest

abbrev pub tools_list_budget_type : GoType
tools_list_budget_type = struct_of (
    number (codes "tool_count") (
      number (codes "schema_count") (
        number (codes "max_request_bytes")
          (number (codes "max_response_bytes") (number (codes "max_result_bytes") no_more)))))

abbrev pub workflow_budget_type : GoType
workflow_budget_type = struct_of (
    number (codes "calls") (
      number (codes "max_request_bytes") (
        number (codes "max_response_bytes") (
          number (codes "max_result_bytes") (
            number (codes "max_read_bytes") (
              number (codes "max_written_bytes")
                (number (codes "max_scanned_bytes") (number (codes "max_entries") no_more))))))))

abbrev pub serialization_budget_type : GoType
serialization_budget_type =
    struct_of (number (codes "max_payload_bytes") (number (codes "max_allocs_per_op") no_more))

abbrev pub soft_budgets_type : GoType
soft_budgets_type = struct_of (
    number (codes "subsequent_process_start_p95_ns") (
      number (codes "max_idle_working_set_bytes") (
        number (codes "max_peak_working_set_bytes") (
          number (codes "max_user_cpu_ns") (
            number (codes "max_system_cpu_ns") (
              member (codes "WorkflowP95NS") (codes "workflow_p95_ns") (map_of number_type)
                no_more))))))

abbrev pub budget_file_type : GoType
budget_file_type = struct_of (
    member (codes "SchemaVersion") (codes "schema_version") string_type (
      member (codes "Hard") (codes "hard")
        (struct_of (
          member (codes "ToolsList") (codes "tools_list") (map_of tools_list_budget_type) (
            member (codes "Workflows") (codes "workflows") (map_of workflow_budget_type) (
              member (codes "Serialization") (codes "serialization")
                (map_of serialization_budget_type) no_more))))
        (member (codes "Soft") (codes "soft") soft_budgets_type no_more)))

abbrev pub catalog_type : GoType
catalog_type = struct_of (
    member (codes "SchemaVersion") (codes "schema_version") string_type (
      member (codes "Profile") (codes "profile") string_type (
        member (codes "ProcessPerRepetition") (codes "process_per_repetition") bool_type (
          member (codes "Workflows") (codes "workflows")
            (slice_of (
              struct_of (
                member (codes "Name") (codes "name") string_type (
                  member (codes "Steps") (codes "steps") (slice_of string_type) (
                    number (codes "tools_call_count") (
                      member (codes "ExpectedReadBytes") (codes "expected_read_bytes,omitempty")
                        (pointer_to number_type)
                        (member (codes "ExpectedEntries") (codes "expected_entries,omitempty")
                          (pointer_to number_type) no_more)))))))
            no_more))))

-- The catalog, as far as the program goes on with it.
pub record Catalog : Type 0 where
  pub schema_version : Text
  pub workflow_names : List Text

-- validateExactBudgetKeys, of expected names that are different and of the keys of a map.
unfoldable pub unknown_error : Text → List Text → Option LoadError
unknown_error area [] = none
unknown_error area (key ∷ ks) = some (unknown_keys area (key ∷ ks))

unfoldable pub missing_error : Text → List Text → Option LoadError → Option LoadError
missing_error area [] next = next
missing_error area (key ∷ ks) next = some (missing_keys area (key ∷ ks))

unfoldable pub validate_exact_budget_keys : Text → List Text → List Text → Option LoadError
validate_exact_budget_keys area expected actual =
    missing_error area (sort_texts (not_among actual expected))
      (unknown_error area (sort_texts (not_among expected actual)))

unfoldable pub positive_limit : Text → ℕ → Option LoadError
positive_limit name value = if value == 0 then some (zero_limit name) else none

unfoldable pub positive_workflow_limits : List (Text × ℕ) → List Text → Option LoadError
positive_workflow_limits limits [] = none
positive_workflow_limits limits (name ∷ rest) =
    let later = positive_workflow_limits limits rest in
    if limit_of (value_at limits name) == 0 then some (zero_workflow_limit name) else later

unfoldable pub validate_budget_definitions : BudgetFile → List Text → Option LoadError
validate_budget_definitions budgets expected =
    or_else
      (validate_exact_budget_keys (codes "hard tools/list budgets") expected_tools_list_profiles
        (sort_texts (names_of budgets.hard.tools_list)))
      (or_else
        (validate_exact_budget_keys (codes "hard workflow budgets") expected
          (sort_texts (names_of budgets.hard.workflows)))
        (or_else
          (validate_exact_budget_keys (codes "soft workflow p95 budgets") expected
            (sort_texts (names_of budgets.soft.workflow_p95_ns)))
          (or_else
            (positive_limit (codes "subsequent_process_start_p95_ns")
              budgets.soft.subsequent_process_start_p95_ns)
            (or_else
              (positive_limit (codes "max_idle_working_set_bytes")
                budgets.soft.max_idle_working_set_bytes)
              (or_else
                (positive_limit (codes "max_peak_working_set_bytes")
                  budgets.soft.max_peak_working_set_bytes)
                (or_else (positive_limit (codes "max_user_cpu_ns") budgets.soft.max_user_cpu_ns) (
                  or_else
                    (positive_limit (codes "max_system_cpu_ns") budgets.soft.max_system_cpu_ns)
                    (positive_workflow_limits budgets.soft.workflow_p95_ns
                      (sort_texts expected)))))))))

-- The loop over the catalog's workflows, with the names before.
unfoldable pub check_workflow_names : List Text → List Text → Option LoadError
check_workflow_names seen [] = none
check_workflow_names seen (name ∷ rest) =
    let later = check_workflow_names (name ∷ seen) rest in
    if name =ᵗ []
    then some empty_workflow_name
    else if is_one_of name seen
    then some (duplicate_workflow name)
    else later

abbrev is_empty : List Text → Bool
is_empty [] = true
is_empty (name ∷ names) = false

unfoldable pub unless : {Value : Type 0} → Option LoadError → Value → LoadError ⊎ Value
unless none value = inr value
unless (some e) value = inl e

unfoldable pub catalog_names : Catalog → LoadError ⊎ List Text
catalog_names catalog =
    if not (catalog.schema_version =ᵗ workflow_catalog_version)
    then inl (unsupported_version catalog.schema_version)
    else unless
        (or_else (check_workflow_names [] catalog.workflow_names)
          (if is_empty catalog.workflow_names then some empty_catalog else none))
        catalog.workflow_names

unfoldable pub of_supported_version : BudgetFile → LoadError ⊎ BudgetFile
of_supported_version budgets =
    if budgets.schema_version =ᵗ budget_schema_version
    then inr budgets
    else inl (unsupported_version budgets.schema_version)

infixl 5 ◌>>=◌
abbrev pub ◌>>=◌ {ℓ κ} :
    {V : Type ℓ} {W : Type κ} → LoadError ⊎ V → (V → LoadError ⊎ W) → LoadError ⊎ W
inl e >>= next = inl e
inr v >>= next = next v

unfoldable pub read_as :
    {Value : Type 0} → (Bytes → StrictError ⊎ Value) → Result Bytes → LoadError ⊎ Value
read_as decode (err e) = inl (unreadable (read_cause e))
read_as decode (ok bytes) = elim (decode bytes) [ inl e ↦ inl (misread e) | inr value ↦ inr value ]

module _ (marshal : Text → Text) (parse : Bytes → Option Json)
    (fill_budgets : Json → Option BudgetFile) (fill_catalog : Json → Option Catalog)
    (read : Text → Result Bytes) where
  unfoldable pub load_budget_file : Text → LoadError ⊎ BudgetFile
  load_budget_file path = do
    budgets ← read_as (decode_strict_json marshal parse fill_budgets budget_file_type) (read path)
    of_supported_version budgets

  unfoldable pub load_expected_workflow_names : Text → LoadError ⊎ List Text
  load_expected_workflow_names path = do
    catalog ← read_as (decode_strict_json marshal parse fill_catalog catalog_type) (read path)
    catalog_names catalog

  -- EvaluateBudgets, of the budgets at `path` and the catalog beside them.
  unfoldable pub evaluate_budgets :
      {Time Printed : Type 0} → Text → BenchmarkResult Time Printed → LoadError ⊎ Evaluation
  evaluate_budgets path result = do
    budgets ← load_budget_file path
    expected ← load_expected_workflow_names (join (dir path) (codes "workflows.json"))
    unless (validate_budget_definitions budgets expected) (evaluate budgets expected result)

  unfoldable pub load_serialization_budgets : Text → LoadError ⊎ List (Text × SerializationBudget)
  load_serialization_budgets path = do
    budgets ← load_budget_file path
    unless
        (if is_empty (names_of budgets.hard.serialization) then some empty_serialization else none)
        budgets.hard.serialization
