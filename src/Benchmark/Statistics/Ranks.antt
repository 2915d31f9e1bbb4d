-- ===== src/Benchmark/Statistics/Ranks.antt =====
-- statistics.go: the summary's fields are the nearest-rank percentiles.
use fileserver_mcp.Base.{
  ℕ, zero, suc, ◌+◌, ◌-◌, ◌*◌, ◌/◌, ◌<◌, ◌≤◌, [], ◌∷◌, List, length, All, Bool, false, Bool-cases,
  some_inj, ltb, leb, pos, some, if◌then◌else◌, ◌≡◌, refl, subst, inl, inr, arith,
}
use fileserver_mcp.Benchmark.Statistics.{
  MetricSummary, insert, sorted, element, percentile, summarize,
}

-- How many of the values pass a test.
unfoldable pub count : (ℕ → Bool) → List ℕ → ℕ
count test [] = 0
count test (x ∷ xs) = let rest = count test xs in if test x then suc rest else rest

abbrev pub at_most : ℕ → List ℕ → ℕ
at_most y = count (λ x. leb x y)

abbrev pub below : ℕ → List ℕ → ℕ
below y = count (λ x. ltb x y)

IsSorted : List ℕ → Type 0
IsSorted [] = Unit
IsSorted (x ∷ xs) = All (λ y. x ≤ y) xs × IsSorted xs

count-insert :
    (test : ℕ → Bool) (x : ℕ) (xs : List ℕ) → count test (insert x xs) ≡ count test (x ∷ xs)
unfolding count insert
count-insert test x [] = refl
count-insert test x (y ∷ ys) = elim (Bool-cases (leb x y)) [
  | inl before ↦ rw before refl
  | inr after ↦ rw (after, count-insert test x ys) (ground arith)
]

count-sorted : (test : ℕ → Bool) (xs : List ℕ) → count test (sorted xs) ≡ count test xs
unfolding count sorted
count-sorted test [] = refl
count-sorted test (x ∷ xs) = rw (count-insert test x (sorted xs), count-sorted test xs) refl

length-insert : (x : ℕ) (xs : List ℕ) → length (insert x xs) ≡ suc (length xs)
unfolding insert
length-insert x [] = refl
length-insert x (y ∷ ys) = ground (arith, length-insert x ys)

length-sorted : (xs : List ℕ) → length (sorted xs) ≡ length xs
unfolding sorted
length-sorted [] = refl
length-sorted (x ∷ xs) = ground (arith, length-insert x (sorted xs), length-sorted xs)

All-insert : (b x : ℕ) (xs : List ℕ) → b ≤ x → All (λ y. b ≤ y) xs → All (λ y. b ≤ y) (insert x xs)
unfolding insert
All-insert b x [] h hs = (h, tt)
All-insert b x (y ∷ ys) h hs = elim (Bool-cases (leb x y)) [
  | inl before ↦ rw before (h, hs)
  | inr after ↦ rw after (hs.0, All-insert b x ys h hs.1)
]

All-weaken : (a b : ℕ) (xs : List ℕ) → a ≤ b → All (λ y. b ≤ y) xs → All (λ y. a ≤ y) xs
All-weaken a b [] h hs = tt
All-weaken a b (x ∷ xs) h hs = (omega (arith, hs.0), All-weaken a b xs h hs.1)

insert-IsSorted : (x : ℕ) (xs : List ℕ) → IsSorted xs → IsSorted (insert x xs)
unfolding insert IsSorted
insert-IsSorted x [] h = (tt, tt)
insert-IsSorted x (y ∷ ys) h = elim (Bool-cases (leb x y)) [
  | inl before ↦
      rw before ((ground (arith, before), All-weaken x y ys (ground (arith, before)) h.0), h)
  | inr after ↦ rw after (All-insert y x ys (ground (arith, after)) h.0, insert-IsSorted x ys h.1)
]

sorted-IsSorted : (xs : List ℕ) → IsSorted (sorted xs)
unfolding sorted IsSorted
sorted-IsSorted [] = tt
sorted-IsSorted (x ∷ xs) = insert-IsSorted x (sorted xs) (sorted-IsSorted xs)

element-le : (b : ℕ) (xs : List ℕ) (i y : ℕ) → All (λ x. b ≤ x) xs → element xs i ≡ some y → b ≤ y
unfolding element
element-le b [] i y hs h = cc
element-le b (x ∷ xs) zero y hs h = subst (λ z. b ≤ z) (some_inj h) hs.0
element-le b (x ∷ xs) (suc i) y hs h = element-le b xs i y hs.1 h

below-least : (b : ℕ) (xs : List ℕ) → All (λ x. b ≤ x) xs → below b xs ≡ 0
unfolding count
below-least b [] hs = refl
below-least b (x ∷ xs) hs = ground (arith, hs.0, below-least b xs hs.1)

-- Of a sorted list's element at an index: no more values than the index are below it, and more than
-- the index are at most it.
element-rank :
    (xs : List ℕ) (i y : ℕ)
    → IsSorted xs
    → element xs i ≡ some y
    → (below y xs ≤ i) × (i < at_most y xs)
unfolding IsSorted element count
element-rank [] i y ordered h = cc
element-rank (x ∷ xs) zero y ordered h =
    subst (λ z. (below z (x ∷ xs) ≤ 0) × (0 < at_most z (x ∷ xs))) (some_inj h)
      (ground (arith, below-least x xs ordered.0))
element-rank (x ∷ xs) (suc i) y ordered h =
    let (few, many) = element-rank xs i y ordered.1 h in
    let least = element-le x xs i y ordered.0 h in ground (arith, few, many, least)

element-some : (xs : List ℕ) (i : ℕ) → i < length xs → (y : ℕ) × (element xs i ≡ some y)
unfolding element
element-some [] i h = ground arith
element-some (x ∷ xs) zero h = (x, refl)
element-some (x ∷ xs) (suc i) h = element-some xs i (omega arith)

ranked :
    (values : List ℕ) (index : ℕ)
    → index < length values
    → (y : ℕ) × (element (sorted values) index ≡ some y)
      × (below y values ≤ index)
      × (index < at_most y values)
ranked values index inside =
    let (y, found) = element-some (sorted values) index (rw (length-sorted values) inside) in
    let (few, many) = element-rank (sorted values) index y (sorted-IsSorted values) found in
    (
      y,
      found,
      subst (λ c. c ≤ index) (count-sorted _ values) few,
      subst (λ c. index < c) (count-sorted _ values) many,
    )

-- The value is a nearest-rank percentile: less than `percent` hundredths of the values are below it,
-- and that many are at most it.
pub record IsRank (percent y : ℕ) (values : List ℕ) : Type 0 where
  pub few_below : 100 * below y values < length values * percent
  pub enough_at_most : length values * percent ≤ 100 * at_most y values

percentile-IsRank :
    (percent : ℕ) (values : List ℕ)
    → 0 < length values * percent
    → (length values * percent + 99) / 100 ≤ length values
    → (y : ℕ) × (percentile (sorted values) percent ≡ some y) × IsRank percent y values
unfolding percentile
percentile-IsRank percent values some_values in_range =
    let index = (length values * percent + 99) / 100 in
    let (y, found, few, many) = ranked values (index - 1) (omega arith) in
    let large : ltb index 1 ≡ false = ground arith in
    (
      y,
      rw (percentile, length-sorted values, large) found,
      record { few_below = omega arith; enough_at_most = omega arith },
    )

-- The summary of these values.
pub record IsSummary (values : List ℕ) (s : MetricSummary) : Type 0 where
  pub all_counted : s.samples ≡ pos (length values)
  pub none_below_min : below s.min values ≡ 0
  pub min_attained : 0 < at_most s.min values
  pub median : IsRank 50 s.p50 values
  pub tail : IsRank 95 s.p95 values
  pub all_at_most_max : length values ≤ at_most s.max values
  pub max_attained : below s.max values < length values

-- Of one value or more, summarize gives a summary without running out of range: the number of the
-- values, the least and the greatest of them, and their 50 % and 95 % nearest-rank percentiles.
pub summarize-IsSummary :
    (v : ℕ) (vs : List ℕ)
    → (s : MetricSummary) × (summarize (v ∷ vs) ≡ some s) × IsSummary (v ∷ vs) s
unfolding summarize
summarize-IsSummary v vs =
    let values = v ∷ vs in
    let (min, min_found, least, attained) = ranked values 0 (omega arith) in
    let (p50, p50_found, median) = percentile-IsRank 50 values (omega arith) (omega arith) in
    let (p95, p95_found, tail) = percentile-IsRank 95 values (omega arith) (omega arith) in
    let (max, max_found, few, many) = ranked values (length values - 1) (omega arith) in
    (
      record { samples = pos (length values); min = min; p50 = p50; p95 = p95; max = max },
      rw (summarize, length-sorted values, min_found, p50_found, p95_found, max_found) refl,
      record {
        all_counted = refl;
        none_below_min = omega arith;
        min_attained = attained;
        median = median;
        tail = tail;
        all_at_most_max = omega arith;
        max_attained = omega arith;
      },
    )
