-- ===== src/Benchmark/Artifacts/Accepted.antt =====
-- artifact_validation.go: what an artifact that loadValidatedBaselineArtifact accepts has.
use fileserver_mcp.Base.{
  [], ◌∷◌, List, Text, Bytes, codes, ◌=ᵗ◌, text_eq_iff, Bool, true, ◌&&◌, ℤ, Bool-cases, Option,
  none, some, Result, ◌⊎◌, inl, inr, ◌≡◌, refl, sym, ap, ◌∙◌, subst, arith,
}
use fileserver_mcp.FilePath.{join, dir}
use fileserver_mcp.Protocol.{Json}
use fileserver_mcp.Benchmark.Results.{BenchmarkResult, BudgetEvaluation}
use fileserver_mcp.Benchmark.Budgets.{BudgetFile, Message, Evaluation, eq_int}
use fileserver_mcp.Benchmark.Evaluating.{evaluate}
use fileserver_mcp.Benchmark.Evaluating.Conforming.{Conforms, evaluate-Conforms, eq_int_iff}
use fileserver_mcp.Benchmark.Loading.{
  LoadError, Catalog, ◌>>=◌, unless, load_budget_file, load_expected_workflow_names,
  validate_budget_definitions, evaluate_budgets,
}
use fileserver_mcp.Benchmark.Artifacts.{
  SchemaError, ArtifactError, same_texts, printed, deep_equal, judge, accepted_result,
  validate_baseline_schema_invariants, validate_artifact_budgets, validated,
  load_validated_baseline_artifact,
}

abbrev right : (A : Type 0) {B : Type 0} → B → A ⊎ B
right A b = inr b

inr_inj : {A B : Type 0} {x y : B} → right A x ≡ right A y → x ≡ y
inr_inj {x} h = ap (λ s. elim s [ inl a ↦ x | inr b ↦ b ]) h

and_true : (a b : Bool) → (a && b) ≡ true → (a ≡ true) × (b ≡ true)
and_true a b h = ground arith

same_texts-eq : (ss ts : List Text) → same_texts ss ts ≡ true → ss ≡ ts
unfolding same_texts
same_texts-eq [] [] h = refl
same_texts-eq [] (t ∷ ts) h = cc
same_texts-eq (s ∷ ss) [] h = cc
same_texts-eq (s ∷ ss) (t ∷ ts) h =
    let (first, rest) = and_true (s =ᵗ t) (same_texts ss ts) h in
    let e1 = (text_eq_iff s t).0 first in let e2 = same_texts-eq ss ts rest in cc

evaluation_of : Text → ℤ → ℤ → List Text → BudgetEvaluation Text
evaluation_of version failures warnings texts = record {
  schema_version = version;
  hard_failures = failures;
  soft_warnings = warnings;
  messages = texts;
}

deep_equal-eq : (a b : BudgetEvaluation Text) → deep_equal a b ≡ true → a ≡ b
unfolding deep_equal evaluation_of
deep_equal-eq a b h =
    let same_version = a.schema_version =ᵗ b.schema_version in
    let same_failures = eq_int a.hard_failures b.hard_failures in
    let same_warnings = eq_int a.soft_warnings b.soft_warnings in
    let (h1, texts) =
      and_true (same_version && same_failures && same_warnings) (same_texts a.messages b.messages)
        h in
    let (h2, warnings) = and_true (same_version && same_failures) same_warnings h1 in
    let (version, failures) = and_true same_version same_failures h2 in
    ap (λ v. evaluation_of v a.hard_failures a.soft_warnings a.messages)
      ((text_eq_iff a.schema_version b.schema_version).0 version)
    ∙ ap (λ n. evaluation_of b.schema_version n a.soft_warnings a.messages)
        ((eq_int_iff a.hard_failures b.hard_failures).0 failures)
    ∙ ap (λ n. evaluation_of b.schema_version b.hard_failures n a.messages)
        ((eq_int_iff a.soft_warnings b.soft_warnings).0 warnings)
    ∙ ap (evaluation_of b.schema_version b.hard_failures b.soft_warnings)
        (same_texts-eq a.messages b.messages texts)

-- The two errors are none.
accepted_result-eq_inr :
    {Value : Type 0} (schema : Option SchemaError) (budgets : Option ArtifactError)
    (result r : Value)
    → accepted_result schema budgets result ≡ inr r
    → (schema ≡ none) × (budgets ≡ none) × (result ≡ r)
unfolding accepted_result
accepted_result-eq_inr (some e) budgets result r h = cc
accepted_result-eq_inr none (some e) result r h = cc
accepted_result-eq_inr none none result r h = (refl, refl, inr_inj h)

judge-eq_none :
    (print : Message → Text) (embedded : BudgetEvaluation Text)
    (recomputed : LoadError ⊎ Evaluation)
    → judge print embedded recomputed ≡ none
    → (e : Evaluation) × (recomputed ≡ inr e) × (e.hard_failures ≡ 0) × (embedded ≡ printed print e)
unfolding judge
judge-eq_none print embedded (inl e) h = cc
judge-eq_none print embedded (inr e) h = elim (Bool-cases (deep_equal embedded (printed print e))) [
  | inl same ↦ (e, refl, ground (arith, same), deep_equal-eq embedded (printed print e) same)
  | inr other ↦ ground (arith, other)
]

unless-eq_inr :
    {Value : Type 0} (o : Option LoadError) (x y : Value)
    → unless o x ≡ inr y
    → (o ≡ none) × (x ≡ y)
unfolding unless
unless-eq_inr none x y h = (refl, inr_inj h)
unless-eq_inr (some e) x y h = cc

>>=-eq_inr {ℓ κ} :
    {V : Type ℓ} {W : Type κ} (first : LoadError ⊎ V) (next : V → LoadError ⊎ W) {w : W}
    → (first >>= next) ≡ inr w
    → (v : V) × (first ≡ inr v) × (next v ≡ inr w)
>>=-eq_inr (inl e) next h = cc
>>=-eq_inr (inr v) next h = (v, refl, h)

module _ {Time : Type 0} (is_zero : Time → Bool) (print : Message → Text) (marshal : Text → Text)
    (parse : Bytes → Option Json) (fill_budgets : Json → Option BudgetFile)
    (fill_catalog : Json → Option Catalog) (fill_result : Json → Option (BenchmarkResult Time Text))
    (read : Text → Result Bytes) where
  -- The result has the invariants, conforms to the budgets of the file, which are defined for the
  -- workflows of the catalog beside it, and holds their evaluation.
  pub record IsBaseline (budget_path : Text) (result : BenchmarkResult Time Text) : Type 0 where
    pub invariants : validate_baseline_schema_invariants is_zero result ≡ none
    pub budgets : BudgetFile
    pub budgets_loaded :
        load_budget_file marshal parse fill_budgets fill_catalog read budget_path ≡ inr budgets
    pub expected : List Text
    pub catalog_loaded :
        load_expected_workflow_names marshal parse fill_budgets fill_catalog read
          (join (dir budget_path) (codes "workflows.json"))
        ≡ inr expected
    pub defined : validate_budget_definitions budgets expected ≡ none
    pub conforms : Conforms budgets expected result
    pub embedded : result.budget_evaluation ≡ printed print (evaluate budgets expected result)

  artifact-IsBaseline :
      (budget_path : Text) (result : BenchmarkResult Time Text)
      → validate_baseline_schema_invariants is_zero result ≡ none
      → validate_artifact_budgets is_zero print marshal parse fill_budgets fill_catalog fill_result
          read budget_path result
        ≡ none
      → IsBaseline budget_path result
  unfolding validate_artifact_budgets evaluate_budgets
  artifact-IsBaseline budget_path result invariants accepted =
      let (e, evaluated, clean, embedded) =
        judge-eq_none print result.budget_evaluation _ accepted in
      let (budgets, budgets_loaded, h1) =
        >>=-eq_inr (load_budget_file marshal parse fill_budgets fill_catalog read budget_path) _
          evaluated in
      let (expected, catalog_loaded, h2) =
        >>=-eq_inr
          (load_expected_workflow_names marshal parse fill_budgets fill_catalog read
            (join (dir budget_path) (codes "workflows.json")))
          _ h1 in
      let (defined, same) =
        unless-eq_inr (validate_budget_definitions budgets expected)
          (evaluate budgets expected result) e h2 in
      record {
        invariants = invariants;
        budgets = budgets;
        budgets_loaded = budgets_loaded;
        expected = expected;
        catalog_loaded = catalog_loaded;
        defined = defined;
        conforms =
            (evaluate-Conforms budgets expected result).0
              (ap Evaluation.hard_failures same ∙ clean);
        embedded = embedded ∙ ap (printed print) (sym same);
      }

  validated-IsBaseline :
      (budget_path : Text) (result : BenchmarkResult Time Text)
      (loaded : LoadError ⊎ BenchmarkResult Time Text)
      → validated is_zero print marshal parse fill_budgets fill_catalog fill_result read budget_path
          loaded
        ≡ inr result
      → IsBaseline budget_path result
  unfolding validated
  validated-IsBaseline budget_path result (inl e) h = cc
  validated-IsBaseline budget_path result (inr r) h =
      let (invariants, accepted, same) =
        accepted_result-eq_inr (validate_baseline_schema_invariants is_zero r) _ r result h in
      subst (IsBaseline budget_path) same (artifact-IsBaseline budget_path r invariants accepted)

  -- An artifact that loadValidatedBaselineArtifact accepts has the schema's invariants; it conforms
  -- to the loaded budgets, for the workflows of the loaded catalog; and the evaluation that it
  -- holds is the one that EvaluateBudgets makes of it.
  pub load_validated_baseline_artifact-IsBaseline :
      (artifact_path budget_path : Text) (result : BenchmarkResult Time Text)
      → load_validated_baseline_artifact is_zero print marshal parse fill_budgets fill_catalog
          fill_result read artifact_path budget_path
        ≡ inr result
      → IsBaseline budget_path result
  unfolding load_validated_baseline_artifact
  load_validated_baseline_artifact-IsBaseline artifact_path budget_path result h =
      validated-IsBaseline budget_path result _ h
