-- ===== src/Base/Cuts.antt =====
-- strings.Split and strings.Cut at a separator of one character, and joining the pieces again.
use Prim.Native.Nat.{ℕ}
use mathlib.Core.Path.{◌≡◌, refl, ap, sym, ◌∙◌}
use mathlib.Core.Logic.{inl, inr}
use mathlib.Core.Bool.{false}
use mathlib.Core.Option.{Option, none, some}
use mathlib.Core.List.{List, [], ◌∷◌, ◌++◌}
use native.Mathlib.Omega.{arith}
use fileserver_mcp.Base.Tests.{◌==◌, Bool-cases, if◌then◌else◌}
use fileserver_mcp.Base.Lists.{All}
use fileserver_mcp.Base.Strings.{Text}

-- Puts a code point at the front of the first piece.
unfoldable pub before_first : ℕ → List Text → List Text
before_first c [] = (c ∷ []) ∷ []
before_first c (w ∷ ws) = (c ∷ w) ∷ ws

-- strings.Split and strings.Cut at a separator of one character, and joining the pieces again.
unfoldable pub split_on : ℕ → Text → List Text
split_on separator [] = [] ∷ []
split_on separator (c ∷ s) =
    let rest = split_on separator s in if c == separator then [] ∷ rest else before_first c rest

-- strings.Cut(s, separator): what stands before the first separator, and behind it if there is one.
unfoldable pub cut : ℕ → Text → Text × Option Text
cut separator [] = ([], none)
cut separator (c ∷ s) =
    let (before, after) = cut separator s in
    if c == separator then ([], some s) else (c ∷ before, after)

-- The text has no such code point.
abbrev pub Without : ℕ → Text → Type 0
Without separator = All (λ c. (c == separator) ≡ false)

pub split_on-append :
    (separator : ℕ) (w s : Text)
    → Without separator w
    → split_on separator (w ++ separator ∷ s) ≡ w ∷ split_on separator s
unfolding split_on before_first
split_on-append separator [] s h = ground arith
split_on-append separator (c ∷ w) s h = rw (h.0, split_on-append separator w s h.1) refl

pub split_on_word : (separator : ℕ) (w : Text) → Without separator w → split_on separator w ≡ w ∷ []
unfolding split_on before_first
split_on_word separator [] h = refl
split_on_word separator (c ∷ w) h = rw (h.0, split_on_word separator w h.1) refl

-- The pieces with the separator between them.
unfoldable pub join_on : ℕ → List Text → Text
join_on separator [] = []
join_on separator (w ∷ []) = w
join_on separator (w ∷ v ∷ ws) = w ++ separator ∷ join_on separator (v ∷ ws)

join_on-before_first :
    (separator c : ℕ) (ws : List Text)
    → join_on separator (before_first c ws) ≡ c ∷ join_on separator ws
unfolding join_on before_first
join_on-before_first separator c [] = refl
join_on-before_first separator c (w ∷ []) = refl
join_on-before_first separator c (w ∷ v ∷ ws) = refl

-- There is a first piece.
split_on-first :
    (separator : ℕ) (s : Text) → (w : Text) × (ws : List Text) × (split_on separator s ≡ w ∷ ws)
unfolding split_on before_first
split_on-first separator [] = ([], [], refl)
split_on-first separator (c ∷ s) =
    let (w, ws, e) = split_on-first separator s in
    elim (Bool-cases (c == separator)) [
      | inl here ↦ ([], split_on separator s, rw here refl)
      | inr other ↦ (c ∷ w, ws, rw (other, e) refl)
    ]

-- Joining the pieces gives the text back.
pub join_on-split_on : (separator : ℕ) (s : Text) → join_on separator (split_on separator s) ≡ s
unfolding split_on join_on
join_on-split_on separator [] = refl
join_on-split_on separator (c ∷ s) =
    let (w, ws, e) = split_on-first separator s in
    let joined : join_on separator (w ∷ ws) ≡ s =
      ap (join_on separator) (sym e) ∙ join_on-split_on separator s in
    elim (Bool-cases (c == separator)) [
      | inl here ↦
          rw (here, e) (ap (λ b. separator ∷ b) joined ∙ ap (λ x. x ∷ s) (ground (arith, here)))
      | inr other ↦ rw other (
          join_on-before_first separator c (split_on separator s)
          ∙ ap (λ b. c ∷ b) (join_on-split_on separator s))
    ]
