-- ===== src/Boot/ExitCodes.antt =====
-- cli.go and main.go: the exit code of the program.
use mathlib.Core.List.{head-eq_of_cons-eq, tail-eq_of_cons-eq}
use fileserver_mcp.Base.{
  ℕ, [], ◌∷◌, List, Text, codes, ◌=ᵗ◌, text_eq_iff, true, false, Option, none, some, ◌≡◌, ◌≢◌,
  some_inj, Option-cases, ◌↔◌, refl, sym, ap, ◌∙◌, subst, arith, Bool-cases, inl, inr, ◌⊎◌,
}
use fileserver_mcp.Config.{ErrorCategory, startup_failed}
use fileserver_mcp.Boot.{
  ServerError, is_configuration, run_server, run_one, run_cli, exit_code, run_main,
}

-- The arguments that ask for the version or for help.
abbrev pub Informs : List Text → Type 0
Informs args =
    (args ≡ codes "--version" ∷ [])
    ⊎ ((args ≡ codes "--help" ∷ [])
        ⊎ ((args ≡ codes "-h" ∷ []) ⊎ (args ≡ codes "--version" ∷ codes "--verbose" ∷ [])))

-- The server ended without an error, or was canceled.
abbrev pub Stops : Option ServerError → Type 0
Stops served = (served ≡ none) ⊎ ((e : ServerError) × (served ≡ some e) × (e.is_canceled ≡ true))

-- The server failed, not canceled, with a category other than startup_failed.
abbrev pub Misconfigured : Option ServerError → Type 0
Misconfigured served =
    (e : ServerError) × (served ≡ some e)
    × (e.is_canceled ≡ false)
    × ((c : ErrorCategory) × (e.category ≡ some c) × (c ≢ startup_failed))

-- The server failed, not canceled, with no category or with startup_failed.
abbrev pub Breaks : Option ServerError → Type 0
Breaks served =
    (e : ServerError) × (served ≡ some e)
    × (e.is_canceled ≡ false)
    × ((e.category ≡ none) ⊎ (e.category ≡ some startup_failed))

-- The exit code that the arguments and the server's end ask for.
abbrev pub Exits : List Text → Option ServerError → ℕ → Type 0
Exits args served code =
    ((code ≡ 0) × (Informs args ⊎ ((args ≡ []) × Stops served)))
    ⊎ (((code ≡ 1) × ((args ≡ []) × Breaks served))
        ⊎ (((code ≡ 2) × ((args ≢ []) × (Informs args → ⊥)))
            ⊎ ((code ≡ 3) × ((args ≡ []) × Misconfigured served))))

category_cases :
    (o : Option ErrorCategory)
    → ((is_configuration o ≡ true) × ((c : ErrorCategory) × (o ≡ some c) × (c ≢ startup_failed)))
      ⊎ ((is_configuration o ≡ false) × ((o ≡ none) ⊎ (o ≡ some startup_failed)))
unfolding is_configuration
category_cases none = inr (refl, inl refl)
category_cases (some startup_failed) = inr (refl, inr refl)
category_cases (some c) = inl (refl, (c, refl, (λ e. cc)))

not_text : (a b : Text) → a ≢ b → (a =ᵗ b) ≡ false
not_text a b differ = elim (Bool-cases (a =ᵗ b)) [
  | inl same ↦ absurd (differ ((text_eq_iff a b).0 same))
  | inr other ↦ other
]

text_cases : (a b : Text) → (a ≡ b) ⊎ (a ≢ b)
text_cases a b = elim (Bool-cases (a =ᵗ b)) [
  | inl same ↦ inl ((text_eq_iff a b).0 same)
  | inr other ↦ inr (λ e. ground (arith, other, (text_eq_iff a b).1 e))
]

args_cases : (xs ys : List Text) → (xs ≡ ys) ⊎ (xs ≢ ys)
args_cases [] [] = inl refl
args_cases [] (y ∷ ys) = inr (λ e. cc)
args_cases (x ∷ xs) [] = inr (λ e. cc)
args_cases (x ∷ xs) (y ∷ ys) = elim (text_cases x y) [
  | inr differ ↦ inr (λ e. differ (head-eq_of_cons-eq e))
  | inl same ↦ elim (args_cases xs ys) [
    | inl rest ↦ inl (rw (same, rest) refl)
    | inr differ ↦ inr (λ e. differ (tail-eq_of_cons-eq e))
  ]
]

or_cases {ℓ κ} : {P : Type ℓ} {Q : Type κ} → P ⊎ (P → ⊥) → Q ⊎ (Q → ⊥) → (P ⊎ Q) ⊎ (P ⊎ Q → ⊥)
or_cases (inl p) q = inl (inl p)
or_cases (inr np) (inl q) = inl (inr q)
or_cases (inr np) (inr nq) = inr (λ s. elim s [ inl p ↦ np p | inr q ↦ nq q ])

asked_cases : (args : List Text) → Informs args ⊎ (Informs args → ⊥)
asked_cases args =
    or_cases (args_cases args _)
      (or_cases (args_cases args _) (or_cases (args_cases args _) (args_cases args _)))

module _ (served : Option ServerError) where
  informed : (args : List Text) → Informs args → run_main args served ≡ 0
  unfolding run_main run_cli run_one exit_code ◌=ᵗ◌
  informed args (inl e) = rw e refl
  informed args (inr (inl e)) = rw e refl
  informed args (inr (inr (inl e))) = rw e refl
  informed args (inr (inr (inr e))) = rw e refl

  stopped : Stops served → run_main [] served ≡ 0
  unfolding run_main run_cli run_server exit_code
  stopped (inl e) = rw e refl
  stopped (inr (x, e, canceled)) = rw e (rw canceled refl)

  broken : Breaks served → run_main [] served ≡ 1
  unfolding run_main run_cli run_server exit_code is_configuration
  broken (x, e, live, inl c) = rw e (rw (live, c) refl)
  broken (x, e, live, inr c) = rw e (rw (live, c) refl)

  misconfigured : Misconfigured served → run_main [] served ≡ 3
  unfolding run_main run_cli run_server exit_code
  misconfigured (x, e, live, (c, known, other)) = elim (category_cases x.category) [
    | inl (yes_, w) ↦ rw e (rw (live, yes_) refl)
    | inr (no_, inl none_) ↦ absurd (ground (arith, known, none_))
    | inr (no_, inr failed) ↦ absurd (other (some_inj (sym known ∙ failed)))
  ]

  misused : (args : List Text) → args ≢ [] → (Informs args → ⊥) → run_main args served ≡ 2
  unfolding run_main run_cli run_one exit_code ◌=ᵗ◌
  misused [] nonempty unasked = absurd (nonempty refl)
  misused (a ∷ []) nonempty unasked =
      let v = not_text a (codes "--version") (λ e. unasked (inl (ap (λ t. t ∷ []) e))) in
      let h = not_text a (codes "--help") (λ e. unasked (inr (inl (ap (λ t. t ∷ []) e)))) in
      let s = not_text a (codes "-h") (λ e. unasked (inr (inr (inl (ap (λ t. t ∷ []) e))))) in
      rw (v, h, s) refl
  misused (a ∷ b ∷ []) nonempty unasked = elim (text_cases a (codes "--version")) [
    | inr differ ↦ rw (not_text a (codes "--version") differ) refl
    | inl same ↦
        let other =
          not_text b (codes "--verbose") (λ e. unasked (inr (inr (inr (rw (same, e) refl))))) in
        rw (same, other) refl
  ]
  misused (a ∷ b ∷ c ∷ args) nonempty unasked = refl

  server_cases : Stops served ⊎ (Breaks served ⊎ Misconfigured served)
  server_cases = elim (Option-cases served) [
    | inl fine ↦ inl (inl fine)
    | inr (x, e) ↦ elim (Bool-cases x.is_canceled) [
      | inl canceled ↦ inl (inr (x, e, canceled))
      | inr live ↦ elim (category_cases x.category) [
        | inl (yes_, known) ↦ inr (inr (x, e, live, known))
        | inr (no_, other) ↦ inr (inl (x, e, live, other))
      ]
    ]
  ]

  -- The exit code is 0 exactly if the arguments ask for the version or for help, or there are none
  -- and the server stops without an error or canceled; 1 exactly if there are none and the server
  -- fails with no category or with startup_failed; 2 exactly if there are other arguments; and 3
  -- exactly if there are none and the server fails with another category.
  pub run_main-Exits :
      (args : List Text) (code : ℕ) → (run_main args served ≡ code) ↔ Exits args served code
  run_main-Exits args code = ((λ h. subst (Exits args served) h (exits args)), code_of)
    where
      exits : (args : List Text) → Exits args served (run_main args served)
      exits [] = elim server_cases [
        | inl s ↦ inl (stopped s, inr (refl, s))
        | inr (inl b) ↦ inr (inl (broken b, (refl, b)))
        | inr (inr m) ↦ inr (inr (inr (misconfigured m, (refl, m))))
      ]
      exits (a ∷ args) = elim (asked_cases (a ∷ args)) [
        | inl i ↦ inl (informed (a ∷ args) i, inl i)
        | inr n ↦ inr (inr (inl (misused (a ∷ args) (λ e. cc) n, ((λ e. cc), n))))
      ]

      code_of : Exits args served code → run_main args served ≡ code
      code_of (inl (zero_, inl i)) = informed args i ∙ sym zero_
      code_of (inl (zero_, inr (e, s))) = rw e (stopped s ∙ sym zero_)
      code_of (inr (inl (one_, (e, b)))) = rw e (broken b ∙ sym one_)
      code_of (inr (inr (inl (two_, (nonempty, n))))) = misused args nonempty n ∙ sym two_
      code_of (inr (inr (inr (three_, (e, m))))) = rw e (misconfigured m ∙ sym three_)
