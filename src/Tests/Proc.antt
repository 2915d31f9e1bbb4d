-- ===== src/Tests/Proc.antt =====
-- A line of /proc/<pid>/stat, of a process whose name holds a parenthesis.
use fileserver_mcp.Base.{
  [], ◌∷◌, ◌++◌, List, Text, All, codes, is_space, Without, decimal, numeral, inr, some, ◌*◌, ◌/◌,
  ◌≡◌, refl, arith,
}
use fileserver_mcp.Benchmark.ProcMetrics.{field_at, parse_linux_stat}
use fileserver_mcp.Benchmark.ProcMetrics.CpuTimes.{IsWord, spaced, parse_linux_stat-spaced}

abbrev words : List Text
words =
    codes "S"
    ∷ codes "1"
    ∷ codes "1"
    ∷ codes "1"
    ∷ codes "1"
    ∷ codes "1"
    ∷ codes "1"
    ∷ codes "1"
    ∷ codes "1"
    ∷ codes "1"
    ∷ codes "1"
    ∷ codes "250"
    ∷ codes "50"
    ∷ []

words-IsWord : All IsWord words
unfolding is_space
words-IsWord = (
  (refl, tt),
  (
    (refl, tt),
    (
      (refl, tt),
      (
        (refl, tt),
        (
          (refl, tt),
          (
            (refl, tt),
            (
              (refl, tt),
              (
                (refl, tt),
                (
                  (refl, tt),
                  (
                    (refl, tt),
                    ((refl, tt), ((refl, (refl, (refl, tt))), ((refl, (refl, tt)), tt))),
                  ),
                ),
              ),
            ),
          ),
        ),
      ),
    ),
  ),
)

spaced-Without : Without b')' (spaced words)
unfolding spaced
spaced-Without = (
  refl,
  (
    refl,
    (
      refl,
      (
        refl,
        (
          refl,
          (
            refl,
            (
              refl,
              (
                refl,
                (
                  refl,
                  (
                    refl,
                    (
                      refl,
                      (
                        refl,
                        (
                          refl,
                          (
                            refl,
                            (
                              refl,
                              (
                                refl,
                                (
                                  refl,
                                  (
                                    refl,
                                    (
                                      refl,
                                      (
                                        refl,
                                        (
                                          refl,
                                          (
                                            refl,
                                            (refl, (refl, (refl, (refl, (refl, (refl, tt)))))),
                                          ),
                                        ),
                                      ),
                                    ),
                                  ),
                                ),
                              ),
                            ),
                          ),
                        ),
                      ),
                    ),
                  ),
                ),
              ),
            ),
          ),
        ),
      ),
    ),
  ),
)

parse_linux_stat-spaced_example :
    parse_linux_stat (λ bytes. bytes) (codes "12 (a) b" ++ b')' ∷ b' ' ∷ spaced words) 100
    ≡ inr (record {
      user_cpu_ns = some (250 * 1_000_000_000 / 100);
      system_cpu_ns = some (50 * 1_000_000_000 / 100);
      unsupported = [];
    })
unfolding spaced field_at decimal numeral
parse_linux_stat-spaced_example =
    parse_linux_stat-spaced (λ bytes. bytes) (codes "12 (a) b") words 250 50 100 refl words-IsWord
      spaced-Without (omega arith) refl refl (omega arith) (omega arith) (omega arith)
