-- ===== src/Benchmark/Evaluating/Measured.antt =====
-- budgets.go: what it takes that validateToolsListMeasurements and validateWorkflowMeasurements find
-- no hard failure.
use fileserver_mcp.Base.{
  [], ◌∷◌, List, length, Text, ◌=ᵗ◌, All, All-map, Bool, true, false, not, ◌||◌, ◌==◌, Bool-cases,
  ◌≡◌, ◌↔◌, refl, inl, inr, arith, ap, sym, ◌∙◌, subst,
}
use fileserver_mcp.Benchmark.StrictJson.{is_one_of}
use fileserver_mcp.Benchmark.Names.{AreNew, AreNew-cons, AreNew-empty, AreDistinct}
use fileserver_mcp.Benchmark.Budgets.{
  Area, Finding, Evaluation, hard_failure, fail_where, budget_missing, not_measured, budget_unknown,
  incomplete, count_differs, empty_name, unknown, duplicated,
}
use fileserver_mcp.Benchmark.Evaluating.{
  names_of, check_name, check_measured, check_expected, check_budgeted, validate_measurements,
}
use fileserver_mcp.Benchmark.Evaluating.Steps.{
  IsClean, Requires, hard_failure-not, no_step-Requires, fail_where-not-Requires, Requires-then,
}

-- A measurement that is expected and complete.
abbrev pub IsGood : List Text → Text × Bool → Type 0
IsGood expected (name, complete) =
    ((name =ᵗ []) ≡ false) × (is_one_of name expected ≡ true) × (complete ≡ true)

module _ (area : Area) where
  check_budgeted-Requires :
      (expected budgeted : List Text)
      → Requires
          (check_budgeted area expected budgeted)
          (All (λ name. is_one_of name expected ≡ true) budgeted)
  unfolding check_budgeted
  check_budgeted-Requires expected [] = no_step-Requires
  check_budgeted-Requires expected (name ∷ rest) =
      Requires-then (fail_where-not-Requires (is_one_of name expected) (budget_unknown area name))
        (check_budgeted-Requires expected rest)

  check_expected-Requires :
      (seen budgeted expected : List Text)
      → Requires
          (check_expected area seen budgeted expected)
          (All (λ name. (is_one_of name seen ≡ true) × (is_one_of name budgeted ≡ true)) expected)
  unfolding check_expected
  check_expected-Requires seen budgeted [] = no_step-Requires
  check_expected-Requires seen budgeted (name ∷ rest) =
      Requires-then
        (Requires-then (fail_where-not-Requires (is_one_of name seen) (not_measured area name))
          (fail_where-not-Requires (is_one_of name budgeted) (budget_missing area name)))
        (check_expected-Requires seen budgeted rest)

  -- What the loop over the measurements requires, where these names have been seen.
  abbrev Required : List Text → List Text → List (Text × Bool) → Type 0
  Required expected seen measured =
      All (IsGood expected) measured
      × AreNew seen (names_of measured)
      × AreDistinct (names_of measured)

  module _ (expected : List Text) (name : Text) (complete : Bool) (rest : List (Text × Bool))
      (seen : List Text) (e : Evaluation) where
    -- What is to be shown of the rest of the loop from this state.
    Claim : List Text × Evaluation → Type 0
    Claim state =
        IsClean (check_measured area expected rest state).1
        ↔ (IsClean e × Required expected seen ((name, complete) ∷ rest))

    failed-Claim :
        (finding : Finding)
        → (IsClean (check_measured area expected rest (seen, hard_failure finding e)).1
            → IsClean (hard_failure finding e))
        → (Required expected seen ((name, complete) ∷ rest) → ⊥)
        → Claim (seen, hard_failure finding e)
    unfolding Claim
    failed-Claim finding before never = (
      (λ h. elim (((hard_failure-not finding).clean_iff e).0 (before h)).1 [ ]),
      (λ h. elim (never h.1) [ ]),
    )

    passed-Claim :
        (name =ᵗ []) ≡ false
        → is_one_of name expected ≡ true
        → is_one_of name seen ≡ false
        → (IsClean
              (check_measured area expected rest
                (name ∷ seen, fail_where (not complete) (incomplete area name) e)).1
            ↔ (IsClean (fail_where (not complete) (incomplete area name) e)
                × Required expected (name ∷ seen) rest))
        → Claim (name ∷ seen, fail_where (not complete) (incomplete area name) e)
    unfolding Claim names_of
    passed-Claim named known new (there, back) =
        let (split, split') = AreNew-cons name seen (names_of rest) in
        let (done, done') = (fail_where-not-Requires complete (incomplete area name)).clean_iff e in
        (
          (λ h.
              let (clean, (good, new_rest, distinct)) = there h in
              let (before, whole) = done clean in
              let (fresh, new') = split new_rest in
              (before, (((named, known, whole), good), (new, new'), (fresh, distinct)))),
          (λ h. back (done' (h.0, h.1.0.0.2), (h.1.0.1, split' (h.1.2.0, h.1.1.1), h.1.2.1))),
        )

  check_measured-IsClean :
      (expected : List Text) (measured : List (Text × Bool)) (seen : List Text) (e : Evaluation)
      → IsClean (check_measured area expected measured (seen, e)).1
        ↔ (IsClean e × Required expected seen measured)
  unfolding check_measured check_name names_of Claim
  check_measured-IsClean expected [] seen e = ((λ h. (h, (tt, tt, tt))), (λ h. h.0))
  check_measured-IsClean expected ((name, complete) ∷ rest) seen e =
      let claim = Claim expected name complete rest seen e in
      let state = check_name area expected name complete (seen, e) in
      let fails : (finding : Finding)
          → (Required expected seen ((name, complete) ∷ rest) → ⊥)
          → claim (seen, hard_failure finding e) =
        λ finding never.
          failed-Claim expected name complete rest seen e finding
            (λ h. ((check_measured-IsClean expected rest seen (hard_failure finding e)).0 h).0)
            never in
      elim (Bool-cases (name =ᵗ [])) [
        | inl empty ↦
            let r : state ≡ (seen, hard_failure (empty_name area) e) =
              rw (check_name, empty) refl in
            subst claim (sym r) (fails _ (λ h. ground (arith, h.0.0.0, empty)))
        | inr named ↦ elim (Bool-cases (is_one_of name expected)) [
          | inr stray ↦
              let r : state ≡ (seen, hard_failure (unknown area name) e) =
                rw (check_name, named, stray) refl in
              subst claim (sym r) (fails _ (λ h. ground (arith, h.0.0.1, stray)))
          | inl known ↦ elim (Bool-cases (is_one_of name seen)) [
            | inl again ↦
                let r : state ≡ (seen, hard_failure (duplicated area name) e) =
                  rw (check_name, named, known, again) refl in
                subst claim (sym r) (fails _ (λ h. ground (arith, h.1.0, again)))
            | inr new ↦
                let r : state ≡ (name ∷ seen, fail_where (not complete) (incomplete area name) e) =
                  rw (check_name, named, known, new) refl in
                subst claim (sym r) (
                  passed-Claim expected name complete rest seen e named known new (
                    check_measured-IsClean expected rest (name ∷ seen)
                      (fail_where (not complete) (incomplete area name) e)))
          ]
        ]
      ]

  -- The names that the loop has seen, where it found nothing wrong.
  check_measured-seen :
      (expected : List Text) (measured : List (Text × Bool)) (seen : List Text) (e : Evaluation)
      (key : Text)
      → Required expected seen measured
      → is_one_of key (check_measured area expected measured (seen, e)).0
        ≡ (is_one_of key (names_of measured) || is_one_of key seen)
  unfolding check_measured check_name names_of is_one_of
  check_measured-seen expected [] seen e key h = refl
  check_measured-seen expected ((name, complete) ∷ rest) seen e key (good, new, distinct) =
      let e' = fail_where (not complete) (incomplete area name) e in
      let r : check_name area expected name complete (seen, e) ≡ (name ∷ seen, e') =
        rw (check_name, good.0.0, good.0.1, new.0) refl in
      let new' = (AreNew-cons name seen (names_of rest)).1 (distinct.0, new.1) in
      ap (λ s. is_one_of key (check_measured area expected rest s).0) r
      ∙ check_measured-seen expected rest (name ∷ seen) e' key (good.1, new', distinct.1)
      ∙ ground arith

-- The measurements are those that are expected, once each, complete and with a budget, and there is
-- no other budget.
pub record Measures (expected : List Text) (measured : List (Text × Bool)) (budgeted : List Text)
    : Type 0 where
  pub all_good : All (IsGood expected) measured
  pub distinct : AreDistinct (names_of measured)
  pub same_count : (length measured == length expected) ≡ true
  pub all_there :
      All
        (λ name. (is_one_of name (names_of measured) ≡ true) × (is_one_of name budgeted ≡ true))
        expected
  pub no_stray_budget : All (λ name. is_one_of name expected ≡ true) budgeted

module _ (area : Area) (expected : List Text) (measured : List (Text × Bool))
    (budgeted : List Text) where
  seen_all :
      (e : Evaluation) (key : Text)
      → Required area expected [] measured
      → is_one_of key (check_measured area expected measured ([], e)).0
        ≡ is_one_of key (names_of measured)
  unfolding is_one_of
  seen_all e key h = check_measured-seen area expected measured [] e key h ∙ ground arith

  validate_measurements-IsClean :
      (e : Evaluation)
      → IsClean (validate_measurements area expected measured budgeted e)
        ↔ (IsClean e × Measures expected measured budgeted)
  unfolding validate_measurements
  validate_measurements-IsClean e =
      let e0 =
        fail_where (not (length measured == length expected))
          (count_differs area (length measured) (length expected)) e in
      let (seen, e1) = check_measured area expected measured ([], e0) in
      let (counted, counted') =
        (fail_where-not-Requires (length measured == length expected)
            (count_differs area (length measured) (length expected))).clean_iff
          e in
      let (looped, looped') = check_measured-IsClean area expected measured [] e0 in
      let (there, there') = (check_expected-Requires area seen budgeted expected).clean_iff e1 in
      let (others, others') =
        (check_budgeted-Requires area expected budgeted).clean_iff
          (check_expected area seen budgeted expected e1) in
      (
        (λ h.
            let (h1, no_stray_budget) = others h in
            let (h2, found) = there h1 in
            let (h3, required) = looped h2 in
            let (clean, same_count) = counted h3 in
            (
              clean,
              record {
                all_good = required.0;
                distinct = required.2;
                same_count = same_count;
                all_there =
                    All-map (λ name h. (sym (seen_all e0 name required) ∙ h.0, h.1)) expected found;
                no_stray_budget = no_stray_budget;
              },
            )),
        (λ h.
            let m = h.1 in
            let required : Required area expected [] measured =
              (m.all_good, AreNew-empty (names_of measured), m.distinct) in
            others' (
              there' (
                looped' (counted' (h.0, m.same_count), required),
                All-map (λ name h. (seen_all e0 name required ∙ h.0, h.1)) expected m.all_there,
              ),
              m.no_stray_budget,
            )),
      )

  pub validate_measurements-Requires :
      Requires
        (validate_measurements area expected measured budgeted)
        (Measures expected measured budgeted)
  validate_measurements-Requires = record { clean_iff = validate_measurements-IsClean }
