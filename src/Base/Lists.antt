-- ===== src/Base/Lists.antt =====
-- Lists over the native numbers, and predicates on lists by recursion.
use Prim.Native.Nat.{ℕ, suc, ◌+◌}
use mathlib.Core.Path.{◌≡◌, sym, subst}
use mathlib.Core.List.{List, [], ◌∷◌, ◌++◌, append_assoc}
use native.Mathlib.Omega.{arith}

module _ {ℓ} {A : Type ℓ} where
  abbrev pub length : List A → ℕ
  length [] = 0
  length (x ∷ xs) = suc (length xs)

  pub length-append : (xs ys : List A) → length (xs ++ ys) ≡ length xs + length ys
  length-append [] ys = omega arith
  length-append (x ∷ xs) ys = omega (arith, length-append xs ys)

module _ {ℓ κ} {A : Type ℓ} where
  -- Every element of the list has the property.
  abbrev pub All : (A → Type κ) → List A → Type κ
  All P [] = Unit
  All P (x ∷ xs) = P x × All P xs

  pub All-append : (P : A → Type κ) (xs ys : List A) → All P xs → All P ys → All P (xs ++ ys)
  All-append P [] ys hx hy = hy
  All-append P (x ∷ xs) ys hx hy = (hx.0, All-append P xs ys hx.1 hy)

  pub All-map : {P Q : A → Type κ} → ((x : A) → P x → Q x) → (xs : List A) → All P xs → All Q xs
  All-map f [] h = tt
  All-map f (x ∷ xs) h = (f x h.0, All-map f xs h.1)

  -- The predicate holds of every list that adds one more, or more, of the second to the first.
  abbrev pub Levels : (List A → Type κ) → List A → List A → Type κ
  Levels P above [] = Unit
  Levels P above (x ∷ more) = P (above ++ x ∷ []) × Levels P (above ++ x ∷ []) more

  pub Levels-last :
      (P : List A → Type κ) (above more : List A) (x : A)
      → Levels P above more
      → P (above ++ (more ++ x ∷ []))
      → Levels P above (more ++ x ∷ [])
  Levels-last P above [] x h here = (here, tt)
  Levels-last P above (y ∷ more) x h here = (
    h.0,
    Levels-last P (above ++ y ∷ []) more x h.1
        (subst P (sym (append_assoc above (y ∷ []) (more ++ x ∷ []))) here),
  )
