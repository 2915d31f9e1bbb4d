-- ===== src/Security/Inside.antt =====
-- `isInsideRoot` between rooted paths is a comparison of elements: the relative path of `Rel`
-- climbs exactly where the root's elements do not begin the path's.
use fileserver_mcp.Base.{
  ◌≡◌, refl, sym, ap, ◌∙◌, [], ◌∷◌, ◌++◌, List, Text, codes, ◌=ᵗ◌, has_prefix, true, false, arith,
  All, Bool-cases, inl, inr, text_eq_iff, text_eq_refl,
}
use fileserver_mcp.FilePath.{
  slash, dotdot, join_words, is_abs, elements, clean, rel_words, rel_rest, climb,
}
use fileserver_mcp.FilePath.Clean.{IsPlain, elements-IsPlain, elements-clean}
use fileserver_mcp.FilePath.Split.{NoSlash}
use fileserver_mcp.FilePath.Relative.{is_prefix, rel-is_abs}
use fileserver_mcp.Security.Policy.{stays_below, below_root, is_inside_root}

-- A name that is not ".." does not begin a text with "../".
no_climb : (t : Text) → (t =ᵗ dotdot) ≡ false → NoSlash t → has_prefix t (codes "../") ≡ false
unfolding has_prefix ◌=ᵗ◌
no_climb [] h n = refl
no_climb (a ∷ []) h n = ground arith
no_climb (a ∷ b ∷ []) h n = ground arith
no_climb (a ∷ b ∷ c ∷ t) h n = ground (arith, n.1.1.0)

no_climb_below : (t s : Text) → IsPlain t → has_prefix (t ++ slash ∷ s) (codes "../") ≡ false
unfolding has_prefix ◌=ᵗ◌
no_climb_below [] s p = cc
no_climb_below (a ∷ []) s p = ground arith
no_climb_below (a ∷ b ∷ []) s p = ground (arith, p.not_dotdot)
no_climb_below (a ∷ b ∷ c ∷ t) s p = ground (arith, p.no_slash.1.1.0)

name_ne_dotdot : (t s : Text) → IsPlain t → ((t ++ slash ∷ s) =ᵗ dotdot) ≡ false
unfolding ◌=ᵗ◌
name_ne_dotdot [] s p = refl
name_ne_dotdot (a ∷ []) s p = ground arith
name_ne_dotdot (a ∷ b ∷ []) s p = ground (arith, p.not_dotdot)
name_ne_dotdot (a ∷ b ∷ c ∷ t) s p = ground arith

stays_below_names :
    (t : Text) (ts : List Text) → IsPlain t → stays_below (join_words (t ∷ ts)) ≡ true
unfolding stays_below join_words
stays_below_names t [] p = rw (p.not_dotdot, no_climb t p.not_dotdot p.no_slash, p.not_dot)
stays_below_names t (u ∷ ts) p =
    ground
      (arith, name_ne_dotdot t (join_words (u ∷ ts)) p, no_climb_below t (join_words (u ∷ ts)) p)

stays_below-climb : (bs : List Text) → stays_below (climb bs) ≡ false
unfolding stays_below climb has_prefix ◌=ᵗ◌
stays_below-climb [] = refl
stays_below-climb (b ∷ bs) = refl

stays_below-climb_to : (bs : List Text) (s : Text) → stays_below (climb bs ++ slash ∷ s) ≡ false
unfolding stays_below climb has_prefix ◌=ᵗ◌
stays_below-climb_to [] s = refl
stays_below-climb_to (b ∷ bs) s = refl

below_root-rel_words :
    (bs ts : List Text) → All IsPlain ts → below_root (rel_words bs ts) ≡ is_prefix bs ts
unfolding rel_words rel_rest below_root is_prefix stays_below join_words ◌=ᵗ◌ has_prefix
below_root-rel_words [] [] p = refl
below_root-rel_words [] (t ∷ ts) p = stays_below_names t ts p.0
below_root-rel_words (b ∷ bs) [] p = stays_below-climb bs
below_root-rel_words (b ∷ bs) (t ∷ ts) p =
    ground (arith, below_root-rel_words bs ts p.1, stays_below-climb_to bs (join_words (t ∷ ts)))

same_elements :
    (root path : Text)
    → is_abs root ≡ true
    → is_abs path ≡ true
    → clean path ≡ clean root
    → elements path ≡ elements root
same_elements root path hr hp e =
    sym (elements-clean path hp) ∙ ap elements e ∙ elements-clean root hr

is_prefix_refl : (bs : List Text) → is_prefix bs bs ≡ true
unfolding is_prefix
is_prefix_refl [] = refl
is_prefix_refl (b ∷ bs) = rw (text_eq_refl b) (is_prefix_refl bs)

-- For rooted paths, `isInsideRoot` holds exactly where the elements of the root begin those of the
-- path.
pub is_inside_root-is_prefix :
    (root path : Text)
    → is_abs root ≡ true
    → is_abs path ≡ true
    → is_inside_root root path ≡ is_prefix (elements root) (elements path)
unfolding is_inside_root
is_inside_root-is_prefix root path hr hp =
    rw (rel-is_abs root path hr hp) (elim (Bool-cases (clean path =ᵗ clean root)) [
      | inl e ↦ rw e (
          unfold below_root stays_below ◌=ᵗ◌ in
          sym (
            rw (same_elements root path hr hp ((text_eq_iff _ _).0 e))
              (is_prefix_refl (elements root))))
      | inr e ↦
          rw e (below_root-rel_words (elements root) (elements path) (elements-IsPlain path hp))
    ])
