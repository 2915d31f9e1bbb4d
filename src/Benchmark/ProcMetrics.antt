-- ===== src/Benchmark/ProcMetrics.antt =====
-- internal/benchmark/process_metrics_linux_parse.go: the memory and the CPU times of a process, from
-- /proc. `text_of` is the text that Go reads in bytes of UTF-8; lines are bufio.Scanner's.
pub mod CpuTimes
use fileserver_mcp.Base.{
  ℕ, zero, suc, ◌+◌, ◌*◌, ◌/◌, ◌%◌, [], ◌∷◌, ◌++◌, List, Text, Bytes, codes, ◌=ᵗ◌, is_space, Bool,
  true, false, not, ◌&&◌, ◌||◌, ◌==◌, leb, digits_after, Option, none, some, if◌then◌else◌, Error,
  ◌⊎◌, inl, inr,
}

pub record LinuxMemoryMetrics : Type 0 where
  pub working_set_bytes : Option ℕ
  pub peak_working_set_bytes : Option ℕ
  pub unsupported : List Text

pub record LinuxCpuMetrics : Type 0 where
  pub user_cpu_ns : Option ℕ
  pub system_cpu_ns : Option ℕ
  pub unsupported : List Text

pub data StatError : Type 0 where
  invalid_tick_rate invalid_format omitted_cpu_fields invalid_cpu_fields : StatError

-- strings.Fields, with the word so far.
unfoldable pub flushed : Text → List Text → List Text
flushed [] rest = rest
flushed (c ∷ word) rest = (c ∷ word) ∷ rest

unfoldable pub fields_after : Text → Text → List Text
fields_after word [] = flushed word []
fields_after word (c ∷ s) =
    let next = fields_after [] s in
    let longer = fields_after (word ++ c ∷ []) s in if is_space c then flushed word next else longer

unfoldable pub fields : Text → List Text
fields s = fields_after [] s

unfoldable pub field_at : List Text → ℕ → Option Text
field_at [] index = none
field_at (word ∷ rest) zero = some word
field_at (word ∷ rest) (suc index) = field_at rest index

-- A uint64's values, and strconv.ParseUint(s, 10, 64).
abbrev pub uint64_values : ℕ
uint64_values = 18_446_744_073_709_551_616

unfoldable pub parse_uint64 : Text → Option ℕ
parse_uint64 [] = none
parse_uint64 (c ∷ s) = elim (digits_after 0 (c ∷ s)) [
  | none ↦ none
  | some n ↦ if leb uint64_values n then none else some n
]

-- What stands behind the last such byte.
unfoldable pub after_last : ℕ → Bytes → Option Bytes
after_last b [] = none
after_last b (x ∷ xs) = elim (after_last b xs) [
  | some rest ↦ some rest
  | none ↦ if x == b then some xs else none
]

-- The bytes from the second one behind the parenthesis, if there are any.
unfoldable pub stat_tail : Option Bytes → Option Bytes
stat_tail none = none
stat_tail (some []) = none
stat_tail (some (x ∷ [])) = none
stat_tail (some (x ∷ y ∷ ys)) = some (y ∷ ys)

-- A product of uint64 wraps around.
unfoldable pub nanoseconds : ℕ → ℕ → ℕ
nanoseconds ticks ticks_per_second = (ticks * 1_000_000_000 % uint64_values) / ticks_per_second

unfoldable pub cpu_time : ℕ → Option Text → Option ℕ
cpu_time ticks_per_second none = none
cpu_time ticks_per_second (some word) = elim (parse_uint64 word) [
  | none ↦ none
  | some ticks ↦ some (nanoseconds ticks ticks_per_second)
]

-- The name of a metric that is not there.
unfoldable pub missing_metric : Text → Option ℕ → List Text
missing_metric name none = name ∷ []
missing_metric name (some value) = []

unfoldable pub cpu_metrics : Option ℕ → Option ℕ → StatError ⊎ LinuxCpuMetrics
cpu_metrics none none = inl invalid_cpu_fields
cpu_metrics user system = inr (record {
  user_cpu_ns = user;
  system_cpu_ns = system;
  unsupported =
      missing_metric (codes "user_cpu_ns") user ++ missing_metric (codes "system_cpu_ns") system;
})

unfoldable pub parse_stat_fields : ℕ → List Text → StatError ⊎ LinuxCpuMetrics
parse_stat_fields ticks_per_second words = elim (field_at words 11) [
  | none ↦ inl omitted_cpu_fields
  | some word ↦
      cpu_metrics (cpu_time ticks_per_second (some word))
        (cpu_time ticks_per_second (field_at words 12))
]

unfoldable pub parse_stat_tail : (Bytes → Text) → ℕ → Option Bytes → StatError ⊎ LinuxCpuMetrics
parse_stat_tail text_of ticks_per_second none = inl invalid_format
parse_stat_tail text_of ticks_per_second (some tail) =
    parse_stat_fields ticks_per_second (fields (text_of tail))

unfoldable pub parse_linux_stat : (Bytes → Text) → Bytes → ℕ → StatError ⊎ LinuxCpuMetrics
parse_linux_stat text_of bytes ticks_per_second =
    if ticks_per_second == 0
    then inl invalid_tick_rate
    else parse_stat_tail text_of ticks_per_second (stat_tail (after_last b')' bytes))

-- One line of the status file: the metrics so far, and after it.
unfoldable pub with_status : List Text → Option ℕ × Option ℕ → Option ℕ × Option ℕ
with_status (name ∷ word ∷ rest) (working, peak) = elim (parse_uint64 word) [
  | none ↦ (working, peak)
  | some value ↦
      let bytes = value * 1024 % uint64_values in
      if name =ᵗ codes "VmRSS:"
      then (some bytes, peak)
      else if name =ᵗ codes "VmHWM:"
      then (working, some bytes)
      else (working, peak)
]
with_status _ so_far = so_far

unfoldable pub scan_status : List Text → Option ℕ × Option ℕ → Option ℕ × Option ℕ
scan_status [] so_far = so_far
scan_status (line ∷ lines) so_far = scan_status lines (with_status (fields line) so_far)

unfoldable pub memory_metrics : Option ℕ × Option ℕ → LinuxMemoryMetrics
memory_metrics (working, peak) = record {
  working_set_bytes = working;
  peak_working_set_bytes = peak;
  unsupported =
      missing_metric (codes "idle_working_set_bytes") working
      ++ missing_metric (codes "peak_working_set_bytes") peak;
}

-- parseLinuxStatus, of the lines that the scanner finds and of the error that it ends with, if any.
unfoldable pub parse_linux_status : List Text → Option Error → Error ⊎ LinuxMemoryMetrics
parse_linux_status lines none = inr (memory_metrics (scan_status lines (none, none)))
parse_linux_status lines (some e) = inl e
