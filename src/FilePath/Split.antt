-- ===== src/FilePath/Split.antt =====
-- Splitting a path at its slashes, and joining the pieces again.
use fileserver_mcp.Base.{
  ℕ, ◌≡◌, refl, ap, [], ◌∷◌, ◌++◌, List, Text, Bool, false, ◌==◌, All, if◌then◌else◌,
}
use fileserver_mcp.FilePath.{slash, split, cons_head, join_words}

-- The word holds no slash.
abbrev pub NoSlash : Text → Type 0
NoSlash = All (λ c. (c == slash) ≡ false)

cons_head-NoSlash :
    (c : ℕ) (ws : List Text) → (c == slash) ≡ false → All NoSlash ws → All NoSlash (cons_head c ws)
unfolding cons_head
cons_head-NoSlash c [] h hs = ((h, tt), tt)
cons_head-NoSlash c (w ∷ ws) h hs = ((h, hs.0), hs.1)

split-NoSlash_step :
    (c : ℕ) (s : Text) (b : Bool)
    → (c == slash) ≡ b
    → All NoSlash (split s)
    → All NoSlash (if b then [] ∷ split s else cons_head c (split s))
split-NoSlash_step c s Bool.true h hs = (tt, hs)
split-NoSlash_step c s Bool.false h hs = cons_head-NoSlash c (split s) h hs

-- No piece of a split path holds a slash.
pub split-NoSlash : (s : Text) → All NoSlash (split s)
unfolding split
split-NoSlash [] = (tt, tt)
split-NoSlash (c ∷ s) = split-NoSlash_step c s (c == slash) refl (split-NoSlash s)

-- A word without a slash is its only piece.
pub split_word : (w : Text) → NoSlash w → split w ≡ w ∷ []
unfolding split cons_head
split_word [] h = refl
split_word (c ∷ w) h = rw (h.0, split_word w h.1)

-- A word, a slash and a rest split into the word and the pieces of the rest.
pub split-append : (w s : Text) → NoSlash w → split (w ++ slash ∷ s) ≡ w ∷ split s
unfolding split cons_head
split-append [] s h = refl
split-append (c ∷ w) s h = rw (h.0, split-append w s h.1)

-- Splitting a joined list of words gives the words back.
pub split-join_words :
    (w : Text) (ws : List Text) → NoSlash w → All NoSlash ws → split (join_words (w ∷ ws)) ≡ w ∷ ws
unfolding join_words
split-join_words w [] h hs = split_word w h
split-join_words w (v ∷ ws) h hs =
    rw (split-append w (join_words (v ∷ ws)) h)
      (ap (λ (r : List Text). w ∷ r) (split-join_words v ws hs.0 hs.1))
