-- ===== src/FilePath/Parent.antt =====
-- `Dir` of a rooted path drops its last element.
use mathlib.Core.List.{append-nil, append_assoc, reverse-cons}
use fileserver_mcp.Base.{
  ℕ, ◌≤◌, ◌≡◌, refl, sym, ap, ◌∙◌, [], ◌∷◌, ◌++◌, List, length, length-append, reverse, Text, ◌=ᵗ◌,
  true, false, arith, All, All-append, ◌⊎◌, inl, inr,
}
use fileserver_mcp.FilePath.{
  slash, split, join_words, is_abs, clean_step, clean_walk, elements, render, clean,
  up_to_last_slash, dir,
}
use fileserver_mcp.FilePath.Split.{NoSlash, split-join_words}
use fileserver_mcp.FilePath.Clean.{IsPlain, All-NoSlash, clean-is_abs, clean_step_plain}
use fileserver_mcp.FilePath.Join.{join_words_last, slash-is_abs}

up_to_last_slash_word : (w : Text) → NoSlash w → up_to_last_slash w ≡ []
unfolding up_to_last_slash ◌=ᵗ◌
up_to_last_slash_word [] h = refl
up_to_last_slash_word (c ∷ w) h = rw (up_to_last_slash_word w h.1, h.0)

ends_nonempty : (s : Text) (c : ℕ) → ((s ++ c ∷ []) =ᵗ []) ≡ false
unfolding ◌=ᵗ◌
ends_nonempty [] c = refl
ends_nonempty (x ∷ s) c = refl

up_to_last_slash-append :
    (s w : Text) → NoSlash w → up_to_last_slash (s ++ slash ∷ w) ≡ s ++ slash ∷ []
unfolding up_to_last_slash ◌=ᵗ◌
up_to_last_slash-append [] w h = rw (up_to_last_slash_word w h)
up_to_last_slash-append (c ∷ s) w h = rw (up_to_last_slash-append s w h, ends_nonempty s slash) refl

clean_step_empty : (kept : List Text) → clean_step true kept [] ≡ kept
unfolding clean_step ◌=ᵗ◌
clean_step_empty kept = refl

clean_walk_trailing :
    (kept ws : List Text)
    → All IsPlain ws
    → clean_walk true kept (ws ++ [] ∷ []) ≡ reverse kept ++ ws
unfolding clean_walk
clean_walk_trailing kept [] h = rw clean_step_empty (sym (append-nil (reverse kept)))
clean_walk_trailing kept (w ∷ ws) h =
    rw (clean_step_plain true kept w h.0, clean_walk)
      (clean_walk_trailing (w ∷ kept) ws h.1
        ∙ rw reverse-cons (append_assoc (reverse kept) (w ∷ []) ws))

All-NoSlash_end : (ws : List Text) → All IsPlain ws → All NoSlash (ws ++ [] ∷ [])
All-NoSlash_end ws h = All-append NoSlash ws ([] ∷ []) (All-NoSlash ws h) (tt, tt)

-- A trailing slash is cleaned away.
clean_trailing :
    (v : Text) (vs : List Text)
    → All IsPlain (v ∷ vs)
    → elements (slash ∷ (join_words (v ∷ vs) ++ slash ∷ [])) ≡ v ∷ vs
unfolding elements split is_abs clean_walk clean_step ◌=ᵗ◌
clean_trailing v vs h =
    rw
      (
        ← join_words_last v vs [],
        split-join_words v (vs ++ [] ∷ []) h.0.no_slash (All-NoSlash_end vs h.1),
      )
      (clean_walk_trailing [] (v ∷ vs) h)

elements-slash : elements (slash ∷ []) ≡ []
unfolding elements split is_abs clean_walk clean_step ◌=ᵗ◌
elements-slash = refl

pub dir-render_root : dir (render true []) ≡ render true []
unfolding dir up_to_last_slash render join_words ◌=ᵗ◌
dir-render_root = clean-is_abs (slash ∷ []) (slash-is_abs []) ∙ ap (render true) elements-slash

dir_of : (s w : Text) → NoSlash w → dir (s ++ slash ∷ w) ≡ clean (s ++ slash ∷ [])
unfolding dir
dir_of s w h = ap clean (up_to_last_slash-append s w h)

-- The directory of a rooted path with a last element is the path without it.
pub dir-render :
    (ws : List Text) (w : Text)
    → All IsPlain ws
    → IsPlain w
    → dir (render true (ws ++ w ∷ [])) ≡ render true ws
unfolding render join_words
dir-render [] w h hw =
    dir_of [] w hw.no_slash
    ∙ clean-is_abs (slash ∷ []) (slash-is_abs [])
    ∙ ap (render true) elements-slash
dir-render (v ∷ vs) w h hw = rw (join_words_last v vs w) (
    dir_of (slash ∷ join_words (v ∷ vs)) w hw.no_slash
    ∙ clean-is_abs (slash ∷ (join_words (v ∷ vs) ++ slash ∷ [])) (slash-is_abs _)
    ∙ ap (render true) (clean_trailing v vs h))

-- A list is empty or has a last element.
pub last_cases {ℓ} :
    {A : Type ℓ} (xs : List A) → (xs ≡ []) ⊎ ((init : List A) × (x : A) × (xs ≡ init ++ x ∷ []))
last_cases [] = inl refl
last_cases (x ∷ xs) = elim (last_cases xs) [
  | inl e ↦ inr ([], x, ap (λ t. x ∷ t) e)
  | inr f ↦ inr (x ∷ f.0, f.1, ap (λ t. x ∷ t) f.2)
]

length_pos : (w : Text) → (w =ᵗ []) ≡ false → 1 ≤ length w
unfolding ◌=ᵗ◌
length_pos [] h = cc
length_pos (c ∷ w) h = omega arith

length-join_words : (ws : List Text) → All IsPlain ws → length ws ≤ length (join_words ws)
unfolding join_words ◌=ᵗ◌
length-join_words [] h = omega arith
length-join_words (w ∷ []) h = length_pos w h.0.nonempty
length-join_words (w ∷ v ∷ ws) h = omega (
  arith,
  length_pos w h.0.nonempty,
  length-join_words (v ∷ ws) h.1,
  length-append {0} w (slash ∷ join_words (v ∷ ws)),
)

-- A path is at least as long as it has elements.
pub length-render : (ws : List Text) → All IsPlain ws → length ws ≤ length (render true ws)
unfolding render
length-render ws h = omega (arith, length-join_words ws h)
