-- ===== src/Benchmark/StrictJson/Checks.antt =====
-- strict_json.go: when the loops of validateJSONShape find no error.
use fileserver_mcp.Base.{
  ℕ, ◌+◌, [], ◌∷◌, List, Text, All, Bool, true, false, Bool-cases, Option-cases, Option, none, some,
  or_else, ◌≡◌, ◌↔◌, inl, inr, refl, arith,
}
use fileserver_mcp.Protocol.{Json, Items, nil, cons, Fields, get_field}
use fileserver_mcp.Benchmark.StrictJson.{
  ShapeError, is_one_of, text_leb, insert_text, sort_texts, not_among, check_items, check_keys,
  check_member, check_unknown,
}

pub or_else-eq-none {ℓ} :
    {A : Type ℓ} (a b : Option A) → (or_else a b ≡ none) ↔ ((a ≡ none) × (b ≡ none))
unfolding or_else
or_else-eq-none none b = ((λ h. (refl, h)), (λ h. h.1))
or_else-eq-none (some x) b = ((λ h. cc), (λ h. cc))

All-insert_text {ℓ} :
    (P : Text → Type ℓ) (s : Text) (ts : List Text) → All P (insert_text s ts) ↔ All P (s ∷ ts)
unfolding insert_text
All-insert_text P s [] = ((λ h. h), (λ h. h))
All-insert_text P s (t ∷ ts) = elim (Bool-cases (text_leb s t)) [
  | inl before ↦ rw before ((λ h. h), (λ h. h))
  | inr after ↦
      let (there, back) = All-insert_text P s ts in
      rw after
        ((λ h. let (hs, hts) = there h.1 in (hs, (h.0, hts))), (λ h. (h.1.0, back (h.0, h.1.1))))
]

-- Sorting keeps what holds of every text.
pub All-sort_texts {ℓ} : (P : Text → Type ℓ) (ts : List Text) → All P (sort_texts ts) ↔ All P ts
unfolding sort_texts
All-sort_texts P [] = ((λ h. h), (λ h. h))
All-sort_texts P (t ∷ ts) =
    let (out, into) = All-insert_text P t (sort_texts ts) in
    let (there, back) = All-sort_texts P ts in
    ((λ h. let hs = out h in (hs.0, there hs.1)), (λ h. into (h.0, back h.1)))

not_among-none :
    (names ks : List Text)
    → All (λ t. ⊥) (not_among names ks) ↔ All (λ key. is_one_of key names ≡ true) ks
unfolding not_among
not_among-none names [] = ((λ h. tt), (λ h. tt))
not_among-none names (key ∷ ks) =
    let (there, back) = not_among-none names ks in
    elim (Bool-cases (is_one_of key names)) [
      | inl known ↦ rw known ((λ h. (refl, there h)), (λ h. back h.1))
      | inr unknown ↦ rw unknown ((λ h. elim h.0 [ ]), (λ h. ground arith))
    ]

-- Every element of the array has the property.
abbrev pub AllItems : (Json → Type 0) → Items → Type 0
AllItems P nil = Unit
AllItems P (cons value rest) = P value × AllItems P rest

-- There is a value, and it has the property.
abbrev pub IsPresent : (Json → Type 0) → Option Json → Type 0
IsPresent P none = ⊥
IsPresent P (some value) = P value

abbrev pub HasValue : (Json → Type 0) → Fields → Text → Type 0
HasValue P object key = IsPresent P (get_field key object)

-- A field's value has the property; a field that is not there has omitempty.
abbrev pub MemberFits : (Json → Type 0) → Option Json → Bool → Type 0
MemberFits P none false = ⊥
MemberFits P none true = Unit
MemberFits P (some value) omit_empty = P value

module _ (marshal : Text → Text) where
  check_unknown-none :
      (ks : List Text) (path : Text) → (check_unknown marshal ks path ≡ none) ↔ All (λ t. ⊥) ks
  unfolding check_unknown
  check_unknown-none [] path = ((λ h. tt), (λ h. refl))
  check_unknown-none (key ∷ ks) path = ((λ h. cc), (λ h. elim h.0 [ ]))

  -- No field of these keys is unknown.
  pub check_unknown-sort_texts :
      (names ks : List Text) (path : Text)
      → (check_unknown marshal (sort_texts (not_among names ks)) path ≡ none)
        ↔ All (λ key. is_one_of key names ≡ true) ks
  check_unknown-sort_texts names ks path =
      let (a, a') = check_unknown-none (sort_texts (not_among names ks)) path in
      let (b, b') = All-sort_texts (λ t. ⊥) (not_among names ks) in
      let (c, c') = not_among-none names ks in ((λ h. c (b (a h))), (λ h. a' (b' (c' h))))

  module _ (check : Json → Text → Option ShapeError) (P : Json → Type 0)
      (right : (value : Json) (path : Text) → (check value path ≡ none) ↔ P value) where
    pub check_items-none :
        (items : Items) (path : Text) (index : ℕ)
        → (check_items marshal check items path index ≡ none) ↔ AllItems P items
    unfolding check_items
    check_items-none nil path index = ((λ h. tt), (λ h. refl))
    check_items-none (cons value rest) path index =
        let (first, first') = right value _ in
        let (later, later') = check_items-none rest path (index + 1) in
        let (both, both') =
          or_else-eq-none (check value _) (check_items marshal check rest path (index + 1)) in
        ((λ h. let hs = both h in (first hs.0, later hs.1)), (λ h. both' (first' h.0, later' h.1)))

    check_keys-none :
        (object : Fields) (ks : List Text) (path : Text)
        → (check_keys marshal check object ks path ≡ none) ↔ All (HasValue P object) ks
    unfolding check_keys
    check_keys-none object [] path = ((λ h. tt), (λ h. refl))
    check_keys-none object (key ∷ ks) path =
        let (later, later') = check_keys-none object ks path in
        elim (Option-cases (get_field key object)) [
          | inl absent ↦ rw (check_keys, absent) ((λ h. ground arith), (λ h. elim h.0 [ ]))
          | inr (value, present) ↦
              let (first, first') = right value _ in
              let (both, both') =
                or_else-eq-none (check value _) (check_keys marshal check object ks path) in
              rw (check_keys, present)
                (
                  (λ h. let hs = both h in (first hs.0, later hs.1)),
                  (λ h. both' (first' h.0, later' h.1)),
                )
        ]

    pub check_keys-sort_texts :
        (object : Fields) (ks : List Text) (path : Text)
        → (check_keys marshal check object (sort_texts ks) path ≡ none) ↔ All (HasValue P object) ks
    check_keys-sort_texts object ks path =
        let (a, a') = check_keys-none object (sort_texts ks) path in
        let (b, b') = All-sort_texts (HasValue P object) ks in ((λ h. b (a h)), (λ h. a' (b' h)))

    pub check_member-none :
        (o : Option Json) (omit_empty : Bool) (path : Text)
        → (check_member marshal check o omit_empty path ≡ none) ↔ MemberFits P o omit_empty
    unfolding check_member
    check_member-none none false path = ((λ h. cc), (λ h. elim h [ ]))
    check_member-none none true path = ((λ h. tt), (λ h. refl))
    check_member-none (some value) omit_empty path = right value path
