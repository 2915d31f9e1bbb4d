-- ===== src/Fs/Writing/Walk.antt =====
-- The walk that bounds a recursive deletion, against a count of the visited paths.
use native.Mathlib.Nat.{add-zero}
use fileserver_mcp.Base.{
  subst, ℕ, ◌+◌, ◌≤◌, ◌≡◌, ◌↔◌, refl, Text, List, [], ◌∷◌, false, arith, ◌=ᵗ◌, ℤ, pos, exceeds,
  none, ok, if◌then◌else◌, All, Bool-cases, inl, inr, Option-cases,
}
use fileserver_mcp.Os.{Visit}
use fileserver_mcp.Fs.Writing.{walk_within_limit}

-- The visited paths other than the root.
pub others : Text → List Visit → ℕ
others root [] = 0
others root (visit ∷ rest) = if visit.path =ᵗ root then others root rest else others root rest + 1

exceeds_mono : (a b : ℕ) (limit : ℤ) → a ≤ b → exceeds b limit ≡ false → exceeds a limit ≡ false
exceeds_mono a b (pos m) h e = ground arith
exceeds_mono a b (ℤ.negsuc m) h e = cc

-- No visit has an error, and the paths other than the root are within the limit, with those counted
-- before.
pub record Walked (root : Text) (limit : ℤ) (entries : ℕ) (visits : List Visit) : Type 0 where
  pub no_error : All (λ v. v.error ≡ none) visits
  pub within : exceeds (entries + others root visits) limit ≡ false

walk_within_limit-Walked :
    (root : Text) (limit : ℤ) (entries : ℕ) (visits : List Visit)
    → exceeds entries limit ≡ false
    → walk_within_limit root limit entries visits ≡ ok tt
    → Walked root limit entries visits
unfolding walk_within_limit others
walk_within_limit-Walked root limit entries [] w h = record {
  no_error = tt;
  within = rw add-zero w;
}
walk_within_limit-Walked root limit entries (v ∷ rest) w h = elim (Option-cases v.error) [
  | inr (e, failed) ↦ absurd (ground arith)
  | inl fine ↦ elim (Bool-cases (v.path =ᵗ root)) [
    | inl here ↦
        let r = walk_within_limit-Walked root limit entries rest w (ground arith) in
        record { no_error = (fine, r.no_error); within = rw here (r.within) }
    | inr other ↦ elim (Bool-cases (exceeds (entries + 1) limit)) [
      | inl full ↦ absurd (ground arith)
      | inr fits ↦
          let r = walk_within_limit-Walked root limit (entries + 1) rest fits (ground arith) in
          record {
            no_error = (fine, r.no_error);
            within = rw other (subst (λ n. exceeds n limit ≡ false) (omega arith) r.within);
          }
    ]
  ]
]

walk_within_limit_ok :
    (root : Text) (limit : ℤ) (entries : ℕ) (visits : List Visit)
    → Walked root limit entries visits
    → walk_within_limit root limit entries visits ≡ ok tt
unfolding walk_within_limit others
walk_within_limit_ok root limit entries [] r = refl
walk_within_limit_ok root limit entries (v ∷ rest) r = elim (Bool-cases (v.path =ᵗ root)) [
  | inl here ↦
      let later =
        walk_within_limit_ok root limit entries rest
          (record { no_error = r.no_error.1; within = rw here at r.within }) in
      ground (arith, r.no_error.0, here, later)
  | inr other ↦
      let within = rw other at r.within in
      let later = walk_within_limit_ok root limit (entries + 1) rest (record {
        no_error = r.no_error.1;
        within = subst (λ n. exceeds n limit ≡ false) (omega arith) within;
      }) in
      let fits =
        exceeds_mono (entries + 1) (entries + (others root rest + 1)) limit (omega arith) within in
      ground (arith, r.no_error.0, other, fits, later)
]

-- Where the limit allows `entries` paths, the walk succeeds exactly if it meets no error and the
-- paths counted before it with those visited other than the root are within the limit.
pub walk_within_limit-eq_ok :
    (root : Text) (limit : ℤ) (entries : ℕ) (visits : List Visit)
    → exceeds entries limit ≡ false
    → (walk_within_limit root limit entries visits ≡ ok tt) ↔ Walked root limit entries visits
walk_within_limit-eq_ok root limit entries visits w = (
  walk_within_limit-Walked root limit entries visits w,
  walk_within_limit_ok root limit entries visits,
)
