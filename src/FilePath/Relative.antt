-- ===== src/FilePath/Relative.antt =====
-- `Rel` between rooted paths, by their elements.
use mathlib.Core.List.{tail-eq_of_cons-eq}
use fileserver_mcp.Base.{
  ◌≡◌, ◌≢◌, refl, Bool-cases, inl, inr, sym, ap, ◌∙◌, [], ◌∷◌, ◌++◌, List, Text, ◌=ᵗ◌, Bool, true,
  false, ◌&&◌, some, arith, All, text_eq_iff, text_eq_refl, if◌then◌else◌,
}
use fileserver_mcp.FilePath.{
  slash, dot, split, join_words, is_abs, elements, render, clean, words, rel, rel_words, rel_rest,
}
use fileserver_mcp.FilePath.Split.{split-join_words}
use fileserver_mcp.FilePath.Clean.{
  IsPlain, All-NoSlash, elements-IsPlain, elements-clean, clean-is_abs, is_abs-clean,
  clean-eq_of_elements,
}

-- The first list of names begins the second.
unfoldable pub is_prefix : List Text → List Text → Bool
is_prefix [] ts = true
is_prefix (b ∷ bs) [] = false
is_prefix (b ∷ bs) (t ∷ ts) = b =ᵗ t && is_prefix bs ts

-- What follows a prefix.
pub is_prefix-append :
    (bs ts : List Text) → is_prefix bs ts ≡ true → (rest : List Text) × (ts ≡ bs ++ rest)
unfolding is_prefix
is_prefix-append [] ts h = (ts, refl)
is_prefix-append (b ∷ bs) [] h = cc
is_prefix-append (b ∷ bs) (t ∷ ts) h =
    let (rest, e) = is_prefix-append bs ts (ground arith) in (rest, ground (arith, text_eq_iff b t))

pub is_prefix_self : (bs rest : List Text) → is_prefix bs (bs ++ rest) ≡ true
unfolding is_prefix
is_prefix_self [] rest = refl
is_prefix_self (b ∷ bs) rest = rw (text_eq_refl b) (is_prefix_self bs rest)

-- A path below "/" is another text than "/".
not_slash :
    (w : Text) (ws : List Text)
    → (w =ᵗ []) ≡ false
    → ((slash ∷ join_words (w ∷ ws)) =ᵗ (slash ∷ [])) ≡ false
unfolding join_words ◌=ᵗ◌
not_slash [] ws h = cc
not_slash (c ∷ w) [] h = refl
not_slash (c ∷ w) (v ∷ ws) h = refl

words-render : (ws : List Text) → All IsPlain ws → words (render true ws) ≡ [] ∷ ws
unfolding words render split join_words ◌=ᵗ◌
words-render [] h = refl
words-render (w ∷ ws) h =
    rw (not_slash w ws h.0.nonempty)
      (ap (λ (r : List Text). [] ∷ r) (split-join_words w ws h.0.no_slash (All-NoSlash ws h.1)))

words-clean : (p : Text) → is_abs p ≡ true → words (clean p) ≡ [] ∷ elements p
words-clean p h = rw (clean-is_abs p h) (words-render (elements p) (elements-IsPlain p h))

clean_ne_dot : (p : Text) → is_abs p ≡ true → (clean p =ᵗ dot) ≡ false
unfolding render ◌=ᵗ◌
clean_ne_dot p h = rw (clean-is_abs p h)

pub rel_words_self : (bs : List Text) → rel_words bs bs ≡ some []
unfolding rel_words rel_rest join_words
rel_words_self [] = refl
rel_words_self (b ∷ bs) = rw (text_eq_refl b) (rel_words_self bs)

pub rel-is_abs :
    (a b : Text)
    → is_abs a ≡ true
    → is_abs b ≡ true
    → rel a b ≡ (if clean b =ᵗ clean a then some dot else rel_words (elements a) (elements b))
unfolding rel rel_words ◌=ᵗ◌
rel-is_abs a b ha hb =
    rw (clean_ne_dot a ha, is_abs-clean a ha, is_abs-clean b hb, words-clean a ha, words-clean b hb)
      refl

pub append_longer : (xs : List Text) (t : Text) (rest : List Text) → xs ++ t ∷ rest ≢ xs
append_longer [] t rest e = cc
append_longer (x ∷ xs) t rest e = append_longer xs t rest (tail-eq_of_cons-eq e)

clean_ne :
    (a b : Text) (t : Text) (rest : List Text)
    → is_abs a ≡ true
    → is_abs b ≡ true
    → elements b ≡ elements a ++ t ∷ rest
    → (clean b =ᵗ clean a) ≡ false
clean_ne a b t rest ha hb e = elim (Bool-cases (clean b =ᵗ clean a)) [
  | inl same ↦ absurd (
      append_longer (elements a) t rest (
        sym e
        ∙ sym (elements-clean b hb)
        ∙ ap elements ((text_eq_iff _ _).0 same)
        ∙ elements-clean a ha))
  | inr differ ↦ differ
]

rel_words-append : (bs rest : List Text) → rel_words bs (bs ++ rest) ≡ some (join_words rest)
unfolding rel_words rel_rest
rel_words-append [] [] = refl
rel_words-append [] (t ∷ rest) = refl
rel_words-append (b ∷ bs) rest = rw (text_eq_refl b) (rel_words-append bs rest)

-- From a rooted path to one with further elements, `Rel` gives the joined further elements.
pub rel-append :
    (a b : Text) (t : Text) (rest : List Text)
    → is_abs a ≡ true
    → is_abs b ≡ true
    → elements b ≡ elements a ++ t ∷ rest
    → rel a b ≡ some (join_words (t ∷ rest))
rel-append a b t rest ha hb e =
    rw (rel-is_abs a b ha hb, e, clean_ne a b t rest ha hb e)
      (rel_words-append (elements a) (t ∷ rest))

-- From a rooted path to one with the same elements, `Rel` gives ".".
pub rel-same :
    (a b : Text) → is_abs a ≡ true → is_abs b ≡ true → elements b ≡ elements a → rel a b ≡ some dot
rel-same a b ha hb e =
    rw (rel-is_abs a b ha hb, clean-eq_of_elements b a hb ha e, text_eq_refl (clean a)) refl
