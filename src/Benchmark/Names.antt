-- ===== src/Benchmark/Names.antt =====
-- Names that a loop has seen, as a list: which ones are new, and which lists repeat none.
use fileserver_mcp.Base.{
  [], ◌∷◌, List, Text, ◌=ᵗ◌, All, false, Bool-cases, ◌≡◌, ◌↔◌, inl, inr, refl, arith,
}
use fileserver_mcp.Benchmark.StrictJson.{is_one_of}

-- Names that are new behind these.
abbrev pub AreNew : List Text → List Text → Type 0
AreNew seen = All (λ key. is_one_of key seen ≡ false)

pub AreNew-cons :
    (name : Text) (seen ks : List Text)
    → AreNew (name ∷ seen) ks ↔ (All (λ key. (name =ᵗ key) ≡ false) ks × AreNew seen ks)
unfolding is_one_of
AreNew-cons name seen [] = ((λ h. (tt, tt)), (λ h. tt))
AreNew-cons name seen (key ∷ ks) =
    let (there, back) = AreNew-cons name seen ks in
    elim (Bool-cases (name =ᵗ key)) [
      | inl same ↦ rw same ((λ h. ground arith), (λ h. ground arith))
      | inr other ↦ rw other (
        (λ h. let (fresh, new) = there h.1 in ((refl, fresh), (h.0, new))),
        (λ h. (h.1.0, back (h.0.1, h.1.1))),
      )
    ]

pub AreNew-empty : (ks : List Text) → AreNew [] ks
unfolding is_one_of
AreNew-empty [] = tt
AreNew-empty (key ∷ ks) = (refl, AreNew-empty ks)

-- No name stands in the list twice.
abbrev pub AreDistinct : List Text → Type 0
AreDistinct [] = Unit
AreDistinct (name ∷ names) = All (λ key. (name =ᵗ key) ≡ false) names × AreDistinct names
