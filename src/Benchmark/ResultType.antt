-- ===== src/Benchmark/ResultType.antt =====
-- internal/benchmark/types.go and statistics.go: the Go type of a result, as the strict JSON reader
-- sees it.
use fileserver_mcp.Base.{codes}
use fileserver_mcp.Benchmark.StrictJson.{
  GoType, time_type, string_type, bool_type, number_type, pointer_to, slice_of, map_of, struct_of,
  no_more, member,
}

abbrev pub metric_summary_type : GoType
metric_summary_type = struct_of (
    member (codes "Samples") (codes "samples") number_type (
      member (codes "Min") (codes "min") number_type (
        member (codes "P50") (codes "p50") number_type (
          member (codes "P95") (codes "p95") number_type
            (member (codes "Max") (codes "max") number_type no_more)))))

abbrev pub resource_summary_type : GoType
resource_summary_type = struct_of (
    member (codes "Status") (codes "status") string_type (
      member (codes "IdleWorkingSetBytes") (codes "idle_working_set_bytes,omitempty")
        (pointer_to metric_summary_type)
        (member (codes "PeakWorkingSetBytes") (codes "peak_working_set_bytes,omitempty")
          (pointer_to metric_summary_type)
          (member (codes "UserCPUNS") (codes "user_cpu_ns,omitempty")
            (pointer_to metric_summary_type)
            (member (codes "SystemCPUNS") (codes "system_cpu_ns,omitempty")
              (pointer_to metric_summary_type) no_more)))))

abbrev pub start_measurement_type : GoType
start_measurement_type = struct_of (
    member (codes "Repetitions") (codes "repetitions") number_type (
      member (codes "DurationNS") (codes "duration_ns") metric_summary_type (
        member (codes "RequestBytes") (codes "request_bytes") metric_summary_type (
          member (codes "ResponseBytes") (codes "response_bytes") metric_summary_type (
            member (codes "ResultBytes") (codes "result_bytes") metric_summary_type (
              member (codes "Resources") (codes "resources") resource_summary_type (
                member (codes "ExitStatuses") (codes "exit_statuses") (map_of number_type) (
                  member (codes "StderrWarnings") (codes "stderr_warnings") (slice_of string_type) (
                    member (codes "WarningCount") (codes "stderr_warning_count") number_type
                      no_more)))))))))

abbrev pub process_start_measurements_type : GoType
process_start_measurements_type = struct_of (
    member (codes "FirstProcessStart") (codes "first_process_start") start_measurement_type (
      member (codes "SubsequentProcessStart") (codes "subsequent_process_start")
        start_measurement_type no_more))

abbrev pub tools_list_measurement_type : GoType
tools_list_measurement_type = struct_of (
    member (codes "Profile") (codes "profile") string_type (
      member (codes "ToolCount") (codes "tool_count") number_type (
        member (codes "SchemaCount") (codes "schema_count") number_type (
          member (codes "RequestBytes") (codes "request_bytes") number_type (
            member (codes "ResponseBytes") (codes "response_bytes") number_type (
              member (codes "ResultBytes") (codes "result_bytes") number_type (
                member (codes "ApproxTokensBytes4") (codes "approx_tokens_bytes4") number_type
                  no_more)))))))

abbrev pub workflow_measurement_type : GoType
workflow_measurement_type = struct_of (
    member (codes "Name") (codes "name") string_type (
      member (codes "Repetitions") (codes "repetitions") number_type (
        member (codes "Calls") (codes "calls") number_type (
          member (codes "RequestBytes") (codes "request_bytes") metric_summary_type (
            member (codes "ResponseBytes") (codes "response_bytes") metric_summary_type (
              member (codes "ResultBytes") (codes "result_bytes") metric_summary_type (
                member (codes "DurationNS") (codes "duration_ns") metric_summary_type (
                  member (codes "ReadBytes") (codes "read_bytes") metric_summary_type (
                    member (codes "WrittenBytes") (codes "written_bytes") metric_summary_type (
                      member (codes "ScannedBytes") (codes "scanned_bytes") metric_summary_type (
                        member (codes "Entries") (codes "entries") metric_summary_type (
                          member (codes "ApproxTokensBytes4") (codes "approx_tokens_bytes4")
                            metric_summary_type
                            (member (codes "Resources") (codes "resources") resource_summary_type (
                              member (codes "ExitStatuses") (codes "exit_statuses")
                                (map_of number_type)
                                (member (codes "StderrWarnings") (codes "stderr_warnings")
                                  (slice_of string_type)
                                  (member (codes "WarningCount") (codes "stderr_warning_count")
                                    number_type no_more))))))))))))))))

abbrev pub budget_evaluation_type : GoType
budget_evaluation_type = struct_of (
    member (codes "SchemaVersion") (codes "schema_version") string_type (
      member (codes "HardFailures") (codes "hard_failures") number_type (
        member (codes "SoftWarnings") (codes "soft_warnings") number_type
          (member (codes "Messages") (codes "messages") (slice_of string_type) no_more))))

abbrev pub result_type : GoType
result_type = struct_of (
    member (codes "SchemaVersion") (codes "schema_version") string_type (
      member (codes "BenchmarkSuiteVersion") (codes "benchmark_suite_version") string_type (
        member (codes "WorkflowCatalogVersion") (codes "workflow_catalog_version") string_type (
          member (codes "CorpusVersion") (codes "corpus_version") string_type (
            member (codes "Project") (codes "project") string_type (
              member (codes "Commit") (codes "commit") string_type (
                member (codes "WorkingTreeDirty") (codes "working_tree_dirty") bool_type (
                  member (codes "GeneratedAtUTC") (codes "generated_at_utc") time_type (
                    member (codes "GoVersion") (codes "go_version") string_type (
                      member (codes "OS") (codes "os") string_type (
                        member (codes "Architecture") (codes "architecture") string_type (
                          member (codes "RuntimeMode") (codes "runtime_mode") string_type (
                            member (codes "Transport") (codes "transport") string_type (
                              member (codes "ExecutionBackend") (codes "execution_backend")
                                string_type
                                (member (codes "Profile") (codes "profile") string_type (
                                  member (codes "Parallelism") (codes "parallelism") number_type (
                                    member (codes "Repetitions") (codes "repetitions") number_type (
                                      member (codes "StartMeasurements")
                                        (codes "start_measurements") process_start_measurements_type
                                        (member (codes "Resources") (codes "resource_measurements")
                                          resource_summary_type
                                          (member (codes "ToolsList")
                                            (codes "tools_list_measurements")
                                            (slice_of tools_list_measurement_type)
                                            (member (codes "Workflows")
                                              (codes "workflow_measurements")
                                              (slice_of workflow_measurement_type)
                                              (member (codes "BudgetEvaluation")
                                                (codes "budget_evaluation") budget_evaluation_type
                                                (member (codes "Warnings") (codes "warnings")
                                                  (slice_of string_type)
                                                  (member (codes "UnsupportedMetrics")
                                                    (codes "unsupported_metrics")
                                                    (slice_of string_type)
                                                    no_more))))))))))))))))))))))))
