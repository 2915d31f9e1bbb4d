-- ===== src/FilePath/Join.antt =====
-- `Join` onto a rooted path.
use mathlib.Core.List.{append_assoc}
use fileserver_mcp.Base.{
  ◌≡◌, refl, sym, ap, ◌∙◌, [], ◌∷◌, ◌++◌, List, Text, ◌=ᵗ◌, has_prefix, true, arith, All,
  All-append,
}
use fileserver_mcp.FilePath.{
  slash, split, join_words, is_abs, clean_step, clean_walk, elements, render, clean, join,
}
use fileserver_mcp.FilePath.Split.{split_word}
use fileserver_mcp.FilePath.Clean.{IsPlain, clean-is_abs, clean-render, clean-clean, is_abs-clean}

pub join_words_last :
    (v : Text) (vs : List Text) (c : Text)
    → join_words ((v ∷ vs) ++ c ∷ []) ≡ join_words (v ∷ vs) ++ slash ∷ c
unfolding join_words
join_words_last v [] c = refl
join_words_last v (u ∷ vs) c =
    rw (join_words_last u vs c) (sym (append_assoc v (slash ∷ join_words (u ∷ vs)) (slash ∷ c)))

pub All-last {ℓ κ} :
    {A : Type ℓ} (P : A → Type κ) (xs : List A) (x : A) → All P xs → P x → All P (xs ++ x ∷ [])
All-last P xs x h hx = All-append P xs (x ∷ []) h (hx, tt)

pub slash-is_abs : (s : Text) → is_abs (slash ∷ s) ≡ true
unfolding is_abs has_prefix
slash-is_abs s = refl

elements_of_name : (c : Text) → IsPlain c → elements (slash ∷ (join_words [] ++ slash ∷ c)) ≡ c ∷ []
unfolding elements is_abs has_prefix join_words split clean_walk clean_step ◌=ᵗ◌
elements_of_name c h = rw (split_word c h.no_slash, h.nonempty, h.not_dot, h.not_dotdot)

-- Joining a plain name to a rooted path adds one element.
pub join-render :
    (ws : List Text) (c : Text)
    → All IsPlain ws
    → IsPlain c
    → join (render true ws) c ≡ render true (ws ++ c ∷ [])
unfolding join render ◌=ᵗ◌
join-render [] c h hc =
    clean-is_abs (slash ∷ (join_words [] ++ slash ∷ c)) (slash-is_abs (join_words [] ++ slash ∷ c))
    ∙ ap (render true) (elements_of_name c hc)
join-render (w ∷ ws) c h hc =
    rw (← join_words_last w ws c)
      (clean-render ((w ∷ ws) ++ c ∷ []) (All-last IsPlain (w ∷ ws) c h hc))

is_abs-append : (p s : Text) → is_abs p ≡ true → is_abs (p ++ s) ≡ true
unfolding is_abs has_prefix
is_abs-append [] s h = cc
is_abs-append (c ∷ p) s h = ground arith

absurd_abs {ℓ} : {A : Type ℓ} → is_abs [] ≡ true → A
unfolding is_abs has_prefix
absurd_abs h = absurd (cc)

-- Joining to a rooted path gives a rooted path.
pub is_abs-join : (p s : Text) → is_abs p ≡ true → is_abs (join p s) ≡ true
unfolding join ◌=ᵗ◌
is_abs-join [] s h = absurd_abs h
is_abs-join (c ∷ p) s h = is_abs-clean ((c ∷ p) ++ slash ∷ s) (is_abs-append (c ∷ p) (slash ∷ s) h)

pub join-clean : (p s : Text) → is_abs p ≡ true → clean (join p s) ≡ join p s
unfolding join ◌=ᵗ◌
join-clean [] s h = absurd_abs h
join-clean (c ∷ p) s h = clean-clean ((c ∷ p) ++ slash ∷ s) (is_abs-append (c ∷ p) (slash ∷ s) h)
