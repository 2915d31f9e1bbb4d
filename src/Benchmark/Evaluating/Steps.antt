-- ===== src/Benchmark/Evaluating/Steps.antt =====
-- budgets.go: what it takes that a step of EvaluateBudgets finds no hard failure.
use fileserver_mcp.Base.{ℕ, Text, Bool, true, false, not, leb, ◌≤◌, ◌≡◌, ◌↔◌, refl, arith}
use fileserver_mcp.Benchmark.Budgets.{
  Finding, Evaluation, hard_failure, soft_warning, fail_where, warn_where, check_hard_maximum,
  exceeds_budget,
}

-- No hard failure so far.
abbrev pub IsClean : Evaluation → Type 0
IsClean e = e.hard_failures ≡ 0

-- After the step there is no hard failure exactly if there was none before and the condition holds.
pub record Requires (step : Evaluation → Evaluation) (P : Type 0) : Type 0 where
  pub clean_iff : (e : Evaluation) → IsClean (step e) ↔ (IsClean e × P)

pub hard_failure-not : (finding : Finding) → Requires (hard_failure finding) ⊥
unfolding hard_failure
hard_failure-not finding = record { clean_iff = λ e. ((λ h. ground arith), (λ h. elim h.1 [ ])) }

fail_where-not-IsClean :
    (test : Bool) (finding : Finding) (e : Evaluation)
    → IsClean (fail_where (not test) finding e) ↔ (IsClean e × (test ≡ true))
unfolding fail_where hard_failure
fail_where-not-IsClean true finding e = ((λ h. (h, refl)), (λ h. h.0))
fail_where-not-IsClean false finding e = ((λ h. ground arith), (λ h. cc))

pub fail_where-not-Requires :
    (test : Bool) (finding : Finding) → Requires (fail_where (not test) finding) (test ≡ true)
fail_where-not-Requires test finding = record { clean_iff = fail_where-not-IsClean test finding }

warn_where-IsClean :
    (test : Bool) (finding : Finding) (e : Evaluation)
    → IsClean (warn_where test finding e) ↔ (IsClean e × Unit {0})
unfolding warn_where soft_warning
warn_where-IsClean true finding e = ((λ h. (h, tt)), (λ h. h.0))
warn_where-IsClean false finding e = ((λ h. (h, tt)), (λ h. h.0))

-- A warning requires nothing.
pub warn_where-Requires :
    (test : Bool) (finding : Finding) → Requires (warn_where test finding) Unit
warn_where-Requires test finding = record { clean_iff = warn_where-IsClean test finding }

-- Nor does no step.
pub no_step-Requires : Requires (λ e. e) Unit
no_step-Requires = record { clean_iff = λ e. ((λ h. (h, tt)), (λ h. h.0)) }

-- Of two steps, one after the other.
pub Requires-then :
    {first second : Evaluation → Evaluation} {P Q : Type 0}
    → Requires first P
    → Requires second Q
    → Requires (λ e. second (first e)) (P × Q)
Requires-then {first} ha hb = record {
  clean_iff = λ e.
      let (a, a') = ha.clean_iff e in
      let (b, b') = hb.clean_iff (first e) in
      (
        (λ h. let (clean, q) = b h in let (before, p) = a clean in (before, (p, q))),
        (λ h. b' (a' (h.0, h.1.0), h.1.1)),
      );
}

-- The condition may be put in other words.
pub Requires-iff :
    {step : Evaluation → Evaluation} {P Q : Type 0} → P ↔ Q → Requires step P → Requires step Q
Requires-iff (there, back) ha = record {
  clean_iff = λ e.
      let (a, a') = ha.clean_iff e in
      ((λ h. let (clean, p) = a h in (clean, there p)), (λ h. a' (h.0, back h.1)));
}

pub check_hard_maximum-Requires :
    (name metric : Text) (actual maximum : ℕ)
    → Requires (check_hard_maximum name metric actual maximum) (actual ≤ maximum)
unfolding check_hard_maximum
check_hard_maximum-Requires name metric actual maximum =
    Requires-iff ((λ h. ground arith), (λ h. ground arith))
      (fail_where-not-Requires (leb actual maximum) (exceeds_budget name metric actual maximum))
