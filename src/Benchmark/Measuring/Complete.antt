-- ===== src/Benchmark/Measuring/Complete.antt =====
-- runner.go, workflowMeasurement: what it makes of samples is complete for EvaluateBudgets.
use fileserver_mcp.Base.{
  ℕ, suc, ◌+◌, ◌<◌, ◌≤◌, ◌%◌, [], ◌∷◌, ◌++◌, List, length, map, Text, ◌=ᵗ◌, Bool, true, false, ◌==◌,
  pos, Option, none, some, ◌≡◌, refl, ap, ◌∙◌, arith, is_positive, ltb, leb,
}
use fileserver_mcp.Benchmark.Statistics.{MetricSummary}
use fileserver_mcp.Benchmark.Statistics.Ranks.{count, IsSummary, summarize-IsSummary}
use fileserver_mcp.Benchmark.Results.{ResourceSummary, WorkflowMeasurement}
use fileserver_mcp.Benchmark.Budgets.{
  add_int, exit_samples, eq_int, all_sampled, complete_workflow_measurement,
}
use fileserver_mcp.Benchmark.Measuring.{
  ProcessSample, optional_sample_values, summary_of, resource_status, summarize_resources, itoa,
  count_status, counted, as_ints, exit_statuses, collect_warnings, summarize_samples, first_calls,
  workflow_measurement, approx_tokens_bytes4,
}

-- The largest int.
abbrev pub max_int : ℕ
max_int = 9_223_372_036_854_775_807

length-map : {A : Type 0} (f : A → ℕ) (xs : List A) → length (map f xs) ≡ length xs
length-map f [] = refl
length-map f (x ∷ xs) = ap suc (length-map f xs)

count-le-length : (test : ℕ → Bool) (xs : List ℕ) → count test xs ≤ length xs
unfolding count
count-le-length test [] = ground arith
count-le-length test (x ∷ xs) = ground (arith, count-le-length test xs)

-- The maximum of values of which the first is positive is positive.
max-positive : (v : ℕ) (vs : List ℕ) (s : MetricSummary) → IsSummary (v ∷ vs) s → 0 < v → 0 < s.max
unfolding count
max-positive v vs s summary h =
    ground (arith, count-le-length (λ x. leb x s.max) vs, summary.all_at_most_max)

summarize_samples-some :
    (select : ProcessSample → ℕ) (s : ProcessSample) (ss : List ProcessSample)
    → (m : MetricSummary) × (summarize_samples select (s ∷ ss) ≡ some m)
      × (m.samples ≡ pos (length (s ∷ ss)))
      × (0 < select s → 0 < m.max)
unfolding summarize_samples
summarize_samples-some select s ss =
    let (m, found, summary) = summarize-IsSummary (select s) (map select ss) in
    (
      m,
      found,
      summary.all_counted ∙ ap (λ n. pos (suc n)) (length-map select ss),
      max-positive (select s) (map select ss) m summary,
    )

summary_of-some : (vs : List ℕ) → (o : Option MetricSummary) × (summary_of vs ≡ some o)
unfolding summary_of
summary_of-some [] = (none, refl)
summary_of-some (v ∷ vs) =
    let (m, found, summary) = summarize-IsSummary v vs in (some m, rw (summary_of, found) refl)

resource_status-named : (vs : List ℕ) → (resource_status vs =ᵗ []) ≡ false
unfolding resource_status ◌=ᵗ◌
resource_status-named [] = refl
resource_status-named (v ∷ vs) = refl

abbrev status_of : List ProcessSample → Text
status_of samples = resource_status (
    optional_sample_values (λ s. s.resources.idle_working_set_bytes) samples
    ++ optional_sample_values (λ s. s.resources.peak_working_set_bytes) samples
    ++ optional_sample_values (λ s. s.resources.user_cpu_ns) samples
    ++ optional_sample_values (λ s. s.resources.system_cpu_ns) samples)

summarize_resources-some :
    (samples : List ProcessSample)
    → (r : ResourceSummary) × (summarize_resources samples ≡ some r) × ((r.status =ᵗ []) ≡ false)
unfolding summarize_resources
summarize_resources-some samples =
    let (idle, h1) =
      summary_of-some (optional_sample_values (λ s. s.resources.idle_working_set_bytes) samples) in
    let (peak, h2) =
      summary_of-some (optional_sample_values (λ s. s.resources.peak_working_set_bytes) samples) in
    let (user, h3) =
      summary_of-some (optional_sample_values (λ s. s.resources.user_cpu_ns) samples) in
    let (system, h4) =
      summary_of-some (optional_sample_values (λ s. s.resources.system_cpu_ns) samples) in
    let r : ResourceSummary = record {
      status = status_of samples;
      idle_working_set_bytes = idle;
      peak_working_set_bytes = peak;
      user_cpu_ns = user;
      system_cpu_ns = system;
    } in
    (r, rw (summarize_resources, h1, h2, h3, h4) refl, resource_status-named _)

-- The sum of the counts.
total : List (Text × ℕ) → ℕ
total [] = 0
total ((name, n) ∷ rest) = n + total rest

total-count_status :
    (status : Text) (counts : List (Text × ℕ))
    → total (count_status status counts) ≡ suc (total counts)
unfolding total count_status
total-count_status status [] = refl
total-count_status status ((name, n) ∷ rest) = ground (arith, total-count_status status rest)

total-counted :
    (samples : List ProcessSample) (counts : List (Text × ℕ))
    → total (counted samples counts) ≡ length samples + total counts
unfolding counted
total-counted [] counts = omega arith
total-counted (s ∷ samples) counts =
    total-counted samples (count_status (itoa s.exit_status) counts)
    ∙ ground (arith, total-count_status (itoa s.exit_status) counts)

add_int-pos : (m n : ℕ) → m + n ≤ max_int → add_int (pos m) (pos n) ≡ pos (m + n)
unfolding add_int
add_int-pos m n h =
    let bits =
      (m % 18_446_744_073_709_551_616 + n % 18_446_744_073_709_551_616)
      % 18_446_744_073_709_551_616 in
    let whole : bits ≡ m + n = omega arith in
    let small : ltb (m + n) 9_223_372_036_854_775_808 ≡ true = ground arith in
    rw (add_int, whole, small) refl

exit_samples-as_ints :
    (counts : List (Text × ℕ)) (sum : ℕ)
    → sum + total counts ≤ max_int
    → exit_samples (as_ints counts) (pos sum) ≡ pos (sum + total counts)
unfolding exit_samples as_ints total
exit_samples-as_ints [] sum h = ap pos (omega arith)
exit_samples-as_ints ((name, n) ∷ rest) sum h =
    ap (exit_samples (as_ints rest)) (add_int-pos sum n (omega arith))
    ∙ exit_samples-as_ints rest (sum + n) (omega arith)
    ∙ ap pos (omega arith)

eq_int-same : (n : ℕ) → eq_int (pos n) (pos n) ≡ true
unfolding eq_int
eq_int-same n = ground arith

no_more : (n : ℕ) → n + total [] ≡ n
unfolding total
no_more n = omega arith

exit_statuses-sum :
    (samples : List ProcessSample)
    → length samples ≤ max_int
    → exit_samples (exit_statuses samples) (pos 0) ≡ pos (length samples)
unfolding exit_statuses
exit_statuses-sum samples h =
    let sum : total (counted samples []) ≡ length samples =
      total-counted samples [] ∙ no_more (length samples) in
    exit_samples-as_ints (counted samples []) 0 (omega (arith, sum)) ∙ ap pos (omega (arith, sum))

-- From one sample or more, no more than the largest int, of which the first has sent, received and
-- lasted something, workflowMeasurement makes without a panic a measurement of that name, which is
-- complete for EvaluateBudgets.
pub workflow_measurement-complete_workflow_measurement :
    (name : Text) (s : ProcessSample) (ss : List ProcessSample)
    → length (s ∷ ss) ≤ max_int
    → 0 < s.counters.request_bytes
    → 0 < s.counters.response_bytes
    → 0 < s.counters.result_bytes
    → 0 < s.duration_ns
    → (m : WorkflowMeasurement) × (workflow_measurement name (s ∷ ss) ≡ some m)
      × (m.name ≡ name)
      × (complete_workflow_measurement m ≡ true)
unfolding workflow_measurement complete_workflow_measurement all_sampled
workflow_measurement-complete_workflow_measurement name s ss few sent received answered lasted =
    let samples = s ∷ ss in
    let (request, f1, n1, p1) = summarize_samples-some (λ x. x.counters.request_bytes) s ss in
    let (response, f2, n2, p2) = summarize_samples-some (λ x. x.counters.response_bytes) s ss in
    let (result, f3, n3, p3) = summarize_samples-some (λ x. x.counters.result_bytes) s ss in
    let (duration, f4, n4, p4) = summarize_samples-some ProcessSample.duration_ns s ss in
    let (read, f5, n5, p5) = summarize_samples-some (λ x. x.counters.read_bytes) s ss in
    let (written, f6, n6, p6) = summarize_samples-some (λ x. x.counters.written_bytes) s ss in
    let (scanned, f7, n7, p7) = summarize_samples-some (λ x. x.counters.scanned_bytes) s ss in
    let (entries, f8, n8, p8) = summarize_samples-some (λ x. x.counters.entries) s ss in
    let (tokens, f9, n9, p9) =
      summarize_samples-some (λ x. approx_tokens_bytes4 x.counters.response_bytes) s ss in
    let (resources, f10, named) = summarize_resources-some samples in
    let m : WorkflowMeasurement = record {
      name = name;
      repetitions = pos (length samples);
      calls = first_calls samples;
      request_bytes = request;
      response_bytes = response;
      result_bytes = result;
      duration_ns = duration;
      read_bytes = read;
      written_bytes = written;
      scanned_bytes = scanned;
      entries = entries;
      approx_tokens_bytes4 = tokens;
      resources = resources;
      exit_statuses = exit_statuses samples;
      stderr_warnings = collect_warnings samples;
      warning_count = pos (length (collect_warnings samples));
    } in
    let some_request : (request.max == 0) ≡ false = ground (arith, p1 sent) in
    let some_response : (response.max == 0) ≡ false = ground (arith, p2 received) in
    let some_result : (result.max == 0) ≡ false = ground (arith, p3 answered) in
    let some_duration : (duration.max == 0) ≡ false = ground (arith, p4 lasted) in
    let positive : is_positive (pos (length samples)) ≡ true = ground arith in
    (
      m,
      rw (workflow_measurement, f1, f2, f3, f4, f5, f6, f7, f8, f9, f10) refl,
      refl,
      rw
          (
            complete_workflow_measurement,
            named,
            eq_int-same (length (collect_warnings samples)),
            n1,
            n2,
            n3,
            n4,
            n5,
            n6,
            n7,
            n8,
            n9,
            eq_int-same (length samples),
            some_request,
            some_response,
            some_result,
            some_duration,
            exit_statuses-sum samples few,
            eq_int-same (length samples),
            positive,
          )
          refl,
    )
