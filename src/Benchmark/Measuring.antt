-- ===== src/Benchmark/Measuring.antt =====
-- internal/benchmark/runner.go, process_metrics.go and counters.go: the samples of new processes are
-- made into measurements. `none` is a panic of an index out of range.
pub mod Complete
use fileserver_mcp.Base.{
  ℕ, suc, ◌+◌, ◌/◌, ◌%◌, [], ◌∷◌, ◌++◌, List, length, map, Text, codes, ◌=ᵗ◌, Bool, true, false, ℤ,
  pos, negsuc, decimal, Option, none, some, if◌then◌else◌,
}
use fileserver_mcp.Benchmark.Statistics.{MetricSummary, summarize, ◌>>=◌}
use fileserver_mcp.Benchmark.StrictJson.{is_one_of, sort_texts}
use fileserver_mcp.Benchmark.Results.{ResourceSummary, StartMeasurement, WorkflowMeasurement}

pub record Counters : Type 0 where
  pub request_bytes : ℕ
  pub response_bytes : ℕ
  pub result_bytes : ℕ
  pub read_bytes : ℕ
  pub written_bytes : ℕ
  pub scanned_bytes : ℕ
  pub entries : ℕ
  pub calls : ℤ

pub record ProcessSnapshot : Type 0 where
  pub status : Text
  pub working_set_bytes : Option ℕ
  pub peak_working_set_bytes : Option ℕ
  pub user_cpu_ns : Option ℕ
  pub system_cpu_ns : Option ℕ
  pub unsupported : List Text

pub record SampleResources : Type 0 where
  pub status : Text
  pub idle_working_set_bytes : Option ℕ
  pub peak_working_set_bytes : Option ℕ
  pub user_cpu_ns : Option ℕ
  pub system_cpu_ns : Option ℕ

-- A processSample, without the records of its responses.
pub record ProcessSample : Type 0 where
  pub startup_ns : ℕ
  pub duration_ns : ℕ
  pub counters : Counters
  pub resources : SampleResources
  pub exit_status : ℤ
  pub warnings : List Text
  pub unsupported : List Text

-- (utf8Bytes + 3) / 4, with the sum of two uint64.
unfoldable pub approx_tokens_bytes4 : ℕ → ℕ
approx_tokens_bytes4 utf8_bytes = ((utf8_bytes + 3) % 18_446_744_073_709_551_616) / 4

unfoldable pub combine_resource_snapshots : ProcessSnapshot → ProcessSnapshot → SampleResources
combine_resource_snapshots idle final = record {
  status = if final.status =ᵗ [] then idle.status else final.status;
  idle_working_set_bytes = idle.working_set_bytes;
  peak_working_set_bytes = final.peak_working_set_bytes;
  user_cpu_ns = final.user_cpu_ns;
  system_cpu_ns = final.system_cpu_ns;
}

unfoldable pub optional_sample_values : (ProcessSample → Option ℕ) → List ProcessSample → List ℕ
optional_sample_values select [] = []
optional_sample_values select (sample ∷ samples) =
    let rest = optional_sample_values select samples in
    elim (select sample) [ none ↦ rest | some value ↦ value ∷ rest ]

-- The summary of a resource, where a sample has it.
unfoldable pub summary_of : List ℕ → Option (Option MetricSummary)
summary_of [] = some none
summary_of (v ∷ vs) = do value ← summarize (v ∷ vs); some (some value)

unfoldable pub resource_status : List ℕ → Text
resource_status [] = codes "not_supported"
resource_status (v ∷ vs) = codes "supported"

unfoldable pub summarize_resources : List ProcessSample → Option ResourceSummary
summarize_resources samples = do
  let idle = optional_sample_values (λ s. s.resources.idle_working_set_bytes) samples
  let peak = optional_sample_values (λ s. s.resources.peak_working_set_bytes) samples
  let user = optional_sample_values (λ s. s.resources.user_cpu_ns) samples
  let system = optional_sample_values (λ s. s.resources.system_cpu_ns) samples
  idle_summary ← summary_of idle
  peak_summary ← summary_of peak
  user_summary ← summary_of user
  system_summary ← summary_of system
  some (record {
    status = resource_status (idle ++ peak ++ user ++ system);
    idle_working_set_bytes = idle_summary;
    peak_working_set_bytes = peak_summary;
    user_cpu_ns = user_summary;
    system_cpu_ns = system_summary;
  })

-- strconv.Itoa
unfoldable pub itoa : ℤ → Text
itoa (pos n) = decimal n
itoa (negsuc n) = b'-' ∷ decimal (suc n)

-- `result[status]++`; a count is at most the number of the samples.
unfoldable pub count_status : Text → List (Text × ℕ) → List (Text × ℕ)
count_status status [] = (status, 1) ∷ []
count_status status ((name, count) ∷ rest) =
    let later = count_status status rest in
    if name =ᵗ status then (name, suc count) ∷ rest else (name, count) ∷ later

unfoldable pub counted : List ProcessSample → List (Text × ℕ) → List (Text × ℕ)
counted [] counts = counts
counted (sample ∷ samples) counts = counted samples (count_status (itoa sample.exit_status) counts)

unfoldable pub as_ints : List (Text × ℕ) → List (Text × ℤ)
as_ints [] = []
as_ints ((name, count) ∷ rest) = (name, pos count) ∷ as_ints rest

unfoldable pub exit_statuses : List ProcessSample → List (Text × ℤ)
exit_statuses samples = as_ints (counted samples [])

-- The loop of uniqueSorted, with the values before.
unfoldable pub unique_after : List Text → List Text → List Text
unique_after seen [] = []
unique_after seen (value ∷ values) =
    let same = unique_after seen values in
    let longer = unique_after (value ∷ seen) values in
    if value =ᵗ [] then same else if is_one_of value seen then same else value ∷ longer

unfoldable pub unique_sorted : List Text → List Text
unique_sorted values = sort_texts (unique_after [] values)

unfoldable pub appended_texts : (ProcessSample → List Text) → List ProcessSample → List Text
appended_texts select [] = []
appended_texts select (sample ∷ samples) = select sample ++ appended_texts select samples

unfoldable pub collect_warnings : List ProcessSample → List Text
collect_warnings samples = unique_sorted (appended_texts ProcessSample.warnings samples)

unfoldable pub collect_unsupported : List ProcessSample → List Text
collect_unsupported samples = unique_sorted (appended_texts ProcessSample.unsupported samples)

-- summarize(sampleValues(samples, select))
unfoldable pub summarize_samples : (ProcessSample → ℕ) → List ProcessSample → Option MetricSummary
summarize_samples select samples = summarize (map select samples)

unfoldable pub start_measurement : List ProcessSample → Option StartMeasurement
start_measurement samples = do
  duration ← summarize_samples ProcessSample.startup_ns samples
  request ← summarize_samples (λ s. s.counters.request_bytes) samples
  response ← summarize_samples (λ s. s.counters.response_bytes) samples
  result ← summarize_samples (λ s. s.counters.result_bytes) samples
  resources ← summarize_resources samples
  some (record {
    repetitions = pos (length samples);
    duration_ns = duration;
    request_bytes = request;
    response_bytes = response;
    result_bytes = result;
    resources = resources;
    exit_statuses = exit_statuses samples;
    stderr_warnings = collect_warnings samples;
    warning_count = pos (length (collect_warnings samples));
  })

unfoldable pub first_calls : List ProcessSample → ℤ
first_calls [] = pos 0
first_calls (sample ∷ samples) = sample.counters.calls

unfoldable pub workflow_measurement : Text → List ProcessSample → Option WorkflowMeasurement
workflow_measurement name samples = do
  request ← summarize_samples (λ s. s.counters.request_bytes) samples
  response ← summarize_samples (λ s. s.counters.response_bytes) samples
  result ← summarize_samples (λ s. s.counters.result_bytes) samples
  duration ← summarize_samples ProcessSample.duration_ns samples
  read ← summarize_samples (λ s. s.counters.read_bytes) samples
  written ← summarize_samples (λ s. s.counters.written_bytes) samples
  scanned ← summarize_samples (λ s. s.counters.scanned_bytes) samples
  entries ← summarize_samples (λ s. s.counters.entries) samples
  tokens ← summarize_samples (λ s. approx_tokens_bytes4 s.counters.response_bytes) samples
  resources ← summarize_resources samples
  some (record {
    name = name;
    repetitions = pos (length samples);
    calls = first_calls samples;
    request_bytes = request;
    response_bytes = response;
    result_bytes = result;
    duration_ns = duration;
    read_bytes = read;
    written_bytes = written;
    scanned_bytes = scanned;
    entries = entries;
    approx_tokens_bytes4 = tokens;
    resources = resources;
    exit_statuses = exit_statuses samples;
    stderr_warnings = collect_warnings samples;
    warning_count = pos (length (collect_warnings samples));
  })
