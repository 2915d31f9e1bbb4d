-- ===== src/Benchmark/Statistics.antt =====
-- internal/benchmark/statistics.go: the summary of a list of measurements. `none` is a panic of an
-- index out of range.
pub mod Ranks
use fileserver_mcp.Base.{
  ℕ, zero, suc, ◌+◌, ◌-◌, ◌*◌, ◌/◌, [], ◌∷◌, List, length, ltb, leb, ℤ, pos, Option, none, some,
  if◌then◌else◌, ◌≡◌, refl,
}

pub record MetricSummary : Type 0 where
  pub samples : ℤ
  pub min : ℕ
  pub p50 : ℕ
  pub p95 : ℕ
  pub max : ℕ

abbrev pub no_samples : MetricSummary
no_samples = record { samples = pos 0; min = 0; p50 = 0; p95 = 0; max = 0 }

-- sort.Slice with `<`, by insertion.
unfoldable pub insert : ℕ → List ℕ → List ℕ
insert x [] = x ∷ []
insert x (y ∷ ys) = let rest = insert x ys in if leb x y then x ∷ y ∷ ys else y ∷ rest

unfoldable pub sorted : List ℕ → List ℕ
sorted [] = []
sorted (x ∷ xs) = insert x (sorted xs)

-- values[index]
unfoldable pub element : List ℕ → ℕ → Option ℕ
element [] index = none
element (x ∷ xs) zero = some x
element (x ∷ xs) (suc index) = element xs index

-- The program goes on where there is an element.
infixl 5 ◌>>=◌
abbrev pub ◌>>=◌ : {V W : Type 0} → Option V → (V → Option W) → Option W
none >>= next = none
some v >>= next = next v

unfoldable pub percentile : List ℕ → ℕ → Option ℕ
percentile values percent =
    let index = (length values * percent + 99) / 100 in
    element values ((if ltb index 1 then 1 else index) - 1)

unfoldable pub summarize : List ℕ → Option MetricSummary
summarize [] = some no_samples
summarize (v ∷ vs) = do
  let ordered = sorted (v ∷ vs)
  min ← element ordered 0
  p50 ← percentile ordered 50
  p95 ← percentile ordered 95
  max ← element ordered (length ordered - 1)
  some (record { samples = pos (length ordered); min = min; p50 = p50; p95 = p95; max = max })
