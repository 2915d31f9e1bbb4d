-- ===== src/FilePath/Clean.antt =====
-- `Clean` on rooted paths: the elements that it keeps are plain names, and it keeps them all.
use mathlib.Core.List.{append-nil, append_assoc, reverse-cons}
use fileserver_mcp.Base.{
  ◌≡◌, refl, sym, ap, ◌∙◌, [], ◌∷◌, ◌++◌, List, reverse, Text, ◌=ᵗ◌, Bool, true, false, ◌||◌, arith,
  All, All-append, Bool-cases, inl, inr,
}
use fileserver_mcp.FilePath.{
  dot, dotdot, split, join_words, is_abs, back_up, clean_step, clean_walk, elements, render, clean,
}
use fileserver_mcp.FilePath.Split.{NoSlash, split-NoSlash, split-join_words}

-- The word names an entry: it is none of "", "." and "..", and holds no slash.
pub record IsPlain (w : Text) : Type 0 where
  pub nonempty : (w =ᵗ []) ≡ false
  pub not_dot : (w =ᵗ dot) ≡ false
  pub not_dotdot : (w =ᵗ dotdot) ≡ false
  pub no_slash : NoSlash w

pub All-NoSlash : (ws : List Text) → All IsPlain ws → All NoSlash ws
All-NoSlash [] h = tt
All-NoSlash (w ∷ ws) h = (h.0.no_slash, All-NoSlash ws h.1)

back_up-IsPlain : (kept : List Text) → All IsPlain kept → All IsPlain (back_up true kept)
unfolding back_up
back_up-IsPlain [] h = tt
back_up-IsPlain (t ∷ kept) h = rw (h.0.not_dotdot) (h.1)

clean_step-IsPlain :
    (kept : List Text) (w : Text)
    → All IsPlain kept
    → NoSlash w
    → All IsPlain (clean_step true kept w)
unfolding clean_step
clean_step-IsPlain kept w h n = elim (Bool-cases (w =ᵗ [] || w =ᵗ dot)) [
  | inl e ↦ rw e h
  | inr e ↦ elim (Bool-cases (w =ᵗ dotdot)) [
    | inl f ↦ rw (e, f) (back_up-IsPlain kept h)
    | inr f ↦
        rw (e, f)
          (
            record {
              nonempty = ground arith;
              not_dot = ground arith;
              not_dotdot = f;
              no_slash = n;
            },
            h,
          )
  ]
]

All-reverse {ℓ κ} : {A : Type ℓ} (P : A → Type κ) (xs : List A) → All P xs → All P (reverse xs)
All-reverse P [] h = tt
All-reverse P (x ∷ xs) h =
    rw (reverse-cons) (All-append P (reverse xs) (x ∷ []) (All-reverse P xs h.1) (h.0, tt))

clean_walk-IsPlain :
    (kept ws : List Text)
    → All IsPlain kept
    → All NoSlash ws
    → All IsPlain (clean_walk true kept ws)
unfolding clean_walk
clean_walk-IsPlain kept [] h n = All-reverse IsPlain kept h
clean_walk-IsPlain kept (w ∷ ws) h n =
    clean_walk-IsPlain (clean_step true kept w) ws (clean_step-IsPlain kept w h n.0) n.1

-- The elements of a rooted path are plain names.
pub elements-IsPlain : (p : Text) → is_abs p ≡ true → All IsPlain (elements p)
unfolding elements
elements-IsPlain p h = rw h (clean_walk-IsPlain [] (split p) tt (split-NoSlash p))

pub clean_step_plain :
    (rooted : Bool) (kept : List Text) (w : Text) → IsPlain w → clean_step rooted kept w ≡ w ∷ kept
unfolding clean_step
clean_step_plain rooted kept w h = rw (h.nonempty, h.not_dot, h.not_dotdot)

clean_walk_plain :
    (rooted : Bool) (kept ws : List Text)
    → All IsPlain ws
    → clean_walk rooted kept ws ≡ reverse kept ++ ws
unfolding clean_walk
clean_walk_plain rooted kept [] h = sym (append-nil (reverse kept))
clean_walk_plain rooted kept (w ∷ ws) h = rw (clean_step_plain rooted kept w h.0) (
    clean_walk_plain rooted (w ∷ kept) ws h.1
    ∙ rw reverse-cons (append_assoc (reverse kept) (w ∷ []) ws))

pub render-is_abs : (ws : List Text) → is_abs (render true ws) ≡ true
unfolding is_abs render
render-is_abs ws = refl

-- Reading back the rendering of plain names below the root gives the names.
pub elements-render : (ws : List Text) → All IsPlain ws → elements (render true ws) ≡ ws
unfolding elements render clean_walk split join_words clean_step ◌=ᵗ◌ is_abs
elements-render [] h = refl
elements-render (w ∷ ws) h =
    rw (split-join_words w ws h.0.no_slash (All-NoSlash ws h.1))
      (clean_walk_plain true [] (w ∷ ws) h)

-- `Clean` of a rooted path renders its elements.
pub clean-is_abs : (p : Text) → is_abs p ≡ true → clean p ≡ render true (elements p)
unfolding clean
clean-is_abs p h = ap (λ (b : Bool). render b (elements p)) h

-- `Clean` of a rooted path keeps its elements.
pub elements-clean : (p : Text) → is_abs p ≡ true → elements (clean p) ≡ elements p
elements-clean p h = rw (clean-is_abs p h) (elements-render (elements p) (elements-IsPlain p h))

pub is_abs-clean : (p : Text) → is_abs p ≡ true → is_abs (clean p) ≡ true
is_abs-clean p h = rw (clean-is_abs p h) (render-is_abs (elements p))

-- `Clean` is idempotent on rooted paths.
pub clean-clean : (p : Text) → is_abs p ≡ true → clean (clean p) ≡ clean p
clean-clean p h =
    clean-is_abs (clean p) (is_abs-clean p h)
    ∙ ap (render true) (elements-clean p h)
    ∙ sym (clean-is_abs p h)

-- Rooted paths with the same elements are cleaned to the same text.
pub clean-eq_of_elements :
    (p q : Text) → is_abs p ≡ true → is_abs q ≡ true → elements p ≡ elements q → clean p ≡ clean q
clean-eq_of_elements p q hp hq e = clean-is_abs p hp ∙ ap (render true) e ∙ sym (clean-is_abs q hq)

pub clean-render : (ws : List Text) → All IsPlain ws → clean (render true ws) ≡ render true ws
clean-render ws h =
    clean-is_abs (render true ws) (render-is_abs ws) ∙ ap (render true) (elements-render ws h)
