-- ===== src/Benchmark/ProcMetrics/CpuTimes.antt =====
-- process_metrics_linux_parse.go, parseLinuxStat: whatever the name of the process is, the CPU times
-- are read from their own fields.
use fileserver_mcp.Base.{
  ℕ, ◌+◌, ◌*◌, ◌/◌, ◌%◌, ◌<◌, numeral, [], ◌∷◌, ◌++◌, List, length, All, Text, Bytes, is_space,
  false, ◌==◌, decimal, digits_after, digits_after-decimal, Without, none, some, ◌≡◌, inr, refl,
  sym, ap, ◌∙◌, arith,
}
use mathlib.Core.List.{append-nil, append_assoc}
use fileserver_mcp.Benchmark.ProcMetrics.{
  LinuxCpuMetrics, flushed, fields_after, fields, field_at, uint64_values, parse_uint64, after_last,
  stat_tail, nanoseconds, cpu_time, missing_metric, cpu_metrics, parse_stat_fields, parse_stat_tail,
  parse_linux_stat,
}

after_last-none : (b : ℕ) (s : Bytes) → Without b s → after_last b s ≡ none
unfolding after_last
after_last-none b [] h = refl
after_last-none b (x ∷ s) h = rw (after_last-none b s h.1, h.0) refl

after_last-append :
    (b : ℕ) (before s : Bytes) → Without b s → after_last b (before ++ b ∷ s) ≡ some s
unfolding after_last
after_last-append b [] s h = rw (after_last-none b s h) (ground arith)
after_last-append b (x ∷ before) s h = rw (after_last-append b before s h) refl

-- Characters that are no spaces.
abbrev pub IsWord : Text → Type 0
IsWord [] = ⊥
IsWord (c ∷ s) = All (λ x. is_space x ≡ false) (c ∷ s)

-- The words with a space between them.
unfoldable pub spaced : List Text → Text
spaced [] = []
spaced (w ∷ []) = w
spaced (w ∷ v ∷ ws) = w ++ b' ' ∷ spaced (v ∷ ws)

fields_after-word :
    (so_far w s : Text)
    → All (λ x. is_space x ≡ false) w
    → fields_after so_far (w ++ s) ≡ fields_after (so_far ++ w) s
unfolding fields_after
fields_after-word so_far [] s h = ap (λ x. fields_after x s) (sym (append-nil so_far))
fields_after-word so_far (c ∷ w) s h = rw h.0 (
    fields_after-word (so_far ++ c ∷ []) w s h.1
    ∙ ap (λ x. fields_after x s) (append_assoc so_far (c ∷ []) w))

fields_word : (w s : Text) → IsWord w → fields (w ++ b' ' ∷ s) ≡ w ∷ fields s
unfolding fields fields_after flushed is_space
fields_word [] s h = elim h [ ]
fields_word (c ∷ w) s h = fields_after-word [] (c ∷ w) (b' ' ∷ s) h

fields_last : (w : Text) → IsWord w → fields w ≡ w ∷ []
unfolding fields fields_after flushed
fields_last [] h = elim h [ ]
fields_last (c ∷ w) h =
    ap (fields_after []) (sym (append-nil (c ∷ w))) ∙ fields_after-word [] (c ∷ w) [] h

-- Fields finds the words.
fields-spaced : (ws : List Text) → All IsWord ws → fields (spaced ws) ≡ ws
unfolding spaced fields fields_after flushed
fields-spaced [] h = refl
fields-spaced (w ∷ []) h = fields_last w h.0
fields-spaced (w ∷ v ∷ ws) h =
    fields_word w (spaced (v ∷ ws)) h.0 ∙ ap (λ (r : List Text). w ∷ r) (fields-spaced (v ∷ ws) h.1)

parse_uint64_snoc :
    (s : Text) (c n : ℕ)
    → digits_after 0 (s ++ c ∷ []) ≡ some n
    → n < uint64_values
    → parse_uint64 (s ++ c ∷ []) ≡ some n
unfolding parse_uint64
parse_uint64_snoc [] c n h small = rw (parse_uint64, h) (ground arith)
parse_uint64_snoc (b ∷ s) c n h small = rw (parse_uint64, h) (ground arith)

parse_uint64-decimal : (n : ℕ) → n < uint64_values → parse_uint64 (decimal n) ≡ some n
unfolding decimal numeral
parse_uint64-decimal n h = parse_uint64_snoc _ (b'0' + n % 10) n (digits_after-decimal n) h

-- Ticks whose nanoseconds fit 64 bits are converted without wrapping around.
cpu_time-decimal :
    (ticks ticks_per_second : ℕ)
    → ticks * 1_000_000_000 < uint64_values
    → cpu_time ticks_per_second (some (decimal ticks))
      ≡ some (ticks * 1_000_000_000 / ticks_per_second)
unfolding cpu_time nanoseconds
cpu_time-decimal ticks ticks_per_second fits =
    let whole : ticks * 1_000_000_000 % uint64_values ≡ ticks * 1_000_000_000 = omega arith in
    rw (cpu_time, parse_uint64-decimal ticks (omega arith), nanoseconds, whole) refl

stat_tail-cons : (x : ℕ) (tail : Bytes) → 0 < length tail → stat_tail (some (x ∷ tail)) ≡ some tail
unfolding stat_tail
stat_tail-cons x [] h = ground arith
stat_tail-cons x (y ∷ ys) h = refl

abbrev times_of : ℕ → ℕ → ℕ → LinuxCpuMetrics
times_of user system ticks_per_second = record {
  user_cpu_ns = some (user * 1_000_000_000 / ticks_per_second);
  system_cpu_ns = some (system * 1_000_000_000 / ticks_per_second);
  unsupported = [];
}

parse_stat_fields-decimal :
    (words : List Text) (user system ticks_per_second : ℕ)
    → field_at words 11 ≡ some (decimal user)
    → field_at words 12 ≡ some (decimal system)
    → user * 1_000_000_000 < uint64_values
    → system * 1_000_000_000 < uint64_values
    → parse_stat_fields ticks_per_second words ≡ inr (times_of user system ticks_per_second)
unfolding parse_stat_fields cpu_metrics missing_metric
parse_stat_fields-decimal words user system ticks_per_second at_user at_system user_fits
      system_fits =
    rw
      (
        parse_stat_fields,
        at_user,
        at_system,
        cpu_time-decimal user ticks_per_second user_fits,
        cpu_time-decimal system ticks_per_second system_fits,
      )
      refl

-- Of a line of /proc/<pid>/stat, whatever stands up to the last parenthesis: if the words behind it
-- have the numerals of the ticks in their places, and the nanoseconds fit 64 bits, the times are
-- these ticks in nanoseconds.
pub parse_linux_stat-spaced :
    (text_of : Bytes → Text) (before : Bytes) (words : List Text) (user system ticks_per_second : ℕ)
    → text_of (spaced words) ≡ spaced words
    → All IsWord words
    → Without b')' (spaced words)
    → 0 < length (spaced words)
    → field_at words 11 ≡ some (decimal user)
    → field_at words 12 ≡ some (decimal system)
    → user * 1_000_000_000 < uint64_values
    → system * 1_000_000_000 < uint64_values
    → 0 < ticks_per_second
    → parse_linux_stat text_of (before ++ b')' ∷ b' ' ∷ spaced words) ticks_per_second
      ≡ inr (record {
        user_cpu_ns = some (user * 1_000_000_000 / ticks_per_second);
        system_cpu_ns = some (system * 1_000_000_000 / ticks_per_second);
        unsupported = [];
      })
unfolding parse_linux_stat parse_stat_tail
parse_linux_stat-spaced text_of before words user system ticks_per_second ascii are_words plain long
      at_user at_system user_fits system_fits ticking =
    let running : (ticks_per_second == 0) ≡ false = ground arith in
    rw
      (
        parse_linux_stat,
        running,
        after_last-append b')' before (b' ' ∷ spaced words) (refl, plain),
        stat_tail-cons b' ' (spaced words) long,
      )
      (ap (parse_stat_fields ticks_per_second) (ap fields ascii ∙ fields-spaced words are_words)
        ∙ parse_stat_fields-decimal words user system ticks_per_second at_user at_system user_fits
            system_fits)
