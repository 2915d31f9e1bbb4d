-- ===== src/FilePath.antt =====
-- Go's path/filepath on Unix, as far as the program calls it. A path is a text; its elements are
-- the pieces between slashes.
pub mod Split
pub mod Clean
pub mod Join
pub mod Parent
pub mod Relative
use fileserver_mcp.Base.{
  List, [], ◌∷◌, ◌++◌, reverse, Text, codes, ◌=ᵗ◌, has_prefix, Bool, true, false, not, ◌&&◌, ◌||◌,
  Option, none, ◌≡◌, refl, some, ℕ, ◌==◌, if◌then◌else◌,
}

abbrev pub slash : ℕ
slash = b'/'

abbrev pub dot : Text
dot = codes "."

abbrev pub dotdot : Text
dotdot = codes ".."

-- Puts a code point at the front of the first piece.
unfoldable pub cons_head : ℕ → List Text → List Text
cons_head c [] = (c ∷ []) ∷ []
cons_head c (w ∷ ws) = (c ∷ w) ∷ ws

-- strings.Split(s, "/")
unfoldable pub split : Text → List Text
unfolding cons_head
split [] = [] ∷ []
split (c ∷ s) = if c == slash then [] ∷ split s else cons_head c (split s)

-- strings.Join(words, "/")
unfoldable pub join_words : List Text → Text
join_words [] = []
join_words (w ∷ []) = w
join_words (w ∷ v ∷ ws) = w ++ slash ∷ join_words (v ∷ ws)

-- filepath.IsAbs
unfoldable pub is_abs : Text → Bool
unfolding has_prefix
is_abs p = has_prefix p (codes "/")

-- One `..` of `Clean`; the elements kept so far stand in reverse order.
unfoldable pub back_up : Bool → List Text → List Text
back_up rooted [] = if rooted then [] else dotdot ∷ []
back_up rooted (t ∷ kept) = if t =ᵗ dotdot then dotdot ∷ t ∷ kept else kept

-- One element of `Clean`.
unfoldable pub clean_step : Bool → List Text → Text → List Text
clean_step rooted kept w =
    if w =ᵗ [] || w =ᵗ dot then kept else if w =ᵗ dotdot then back_up rooted kept else w ∷ kept

unfoldable pub clean_walk : Bool → List Text → List Text → List Text
clean_walk rooted kept [] = reverse kept
clean_walk rooted kept (w ∷ ws) = clean_walk rooted (clean_step rooted kept w) ws

-- The elements of the cleaned path.
unfoldable pub elements : Text → List Text
elements p = clean_walk (is_abs p) [] (split p)

unfoldable pub render : Bool → List Text → Text
render true ws = slash ∷ join_words ws
render false [] = dot
render false (w ∷ ws) = join_words (w ∷ ws)

-- filepath.Clean
unfoldable pub clean : Text → Text
clean p = render (is_abs p) (elements p)

-- filepath.Join of two elements
unfoldable pub join : Text → Text → Text
join a b = if not (a =ᵗ []) then clean (a ++ slash ∷ b) else if not (b =ᵗ []) then clean b else []

-- The text up to the last slash, that slash included.
unfoldable pub up_to_last_slash : Text → Text
up_to_last_slash [] = []
up_to_last_slash (c ∷ s) =
    let rest = up_to_last_slash s in if not (rest =ᵗ []) || c == slash then c ∷ rest else []

-- filepath.Dir
unfoldable pub dir : Text → Text
dir p = clean (up_to_last_slash p)

unfoldable pub last_word : Text → List Text → Text
last_word best [] = best
last_word best (w ∷ ws) = last_word (if w =ᵗ [] then best else w) ws

-- filepath.Base
unfoldable pub base : Text → Text
base p = if p =ᵗ [] then dot else last_word (codes "/") (split p)

-- The words that `Rel` compares: those of a cleaned path, with no empty word behind a last slash.
unfoldable pub words : Text → List Text
words p = if p =ᵗ codes "/" then [] ∷ [] else if p =ᵗ [] then [] else split p

unfoldable pub climb : List Text → Text
climb [] = dotdot
climb (w ∷ ws) = dotdot ++ slash ∷ climb ws

-- What `Rel` returns where the words of base and target first differ.
unfoldable pub rel_rest : List Text → List Text → Option Text
rel_rest [] ts = some (join_words ts)
rel_rest (b ∷ bs) [] = some (climb bs)
rel_rest (b ∷ bs) (t ∷ ts) =
    if b =ᵗ dotdot then none else some (climb bs ++ slash ∷ join_words (t ∷ ts))

unfoldable pub rel_words : List Text → List Text → Option Text
rel_words [] ts = rel_rest [] ts
rel_words (b ∷ bs) [] = rel_rest (b ∷ bs) []
rel_words (b ∷ bs) (t ∷ ts) = if b =ᵗ t then rel_words bs ts else rel_rest (b ∷ bs) (t ∷ ts)

-- filepath.Rel; `none` is its error. A base of "." counts as empty.
unfoldable pub rel : Text → Text → Option Text
rel basepath targpath =
    let base = clean basepath in
    let targ = clean targpath in
    if targ =ᵗ base
    then some dot
    else let base' = if base =ᵗ dot then [] else base in
      if (is_abs base' && is_abs targ) || (not (is_abs base') && not (is_abs targ))
      then rel_words (words base') (words targ)
      else none

-- What a run of the functions above unfolds.
unfoldable pub runs : Unit {0}
unfolding ◌=ᵗ◌ has_prefix is_abs split join_words back_up clean_step clean_walk elements render
    clean join up_to_last_slash dir last_word base words climb rel_rest rel_words rel
runs = tt

clean_runs : clean (codes "/a//b/./../c/") ≡ codes "/a/c"
unfolding runs
clean_runs = refl

clean_climbs : clean (codes "../../x/..") ≡ codes "../.."
unfolding runs
clean_climbs = refl

rel_down : rel (codes "/r") (codes "/r/a/b") ≡ some (codes "a/b")
unfolding runs
rel_down = refl

rel_up : rel (codes "/r/s/u") (codes "/r/a") ≡ some (codes "../../a")
unfolding runs
rel_up = refl

rel_root : rel (codes "/") (codes "/a") ≡ some (codes "a")
unfolding runs
rel_root = refl

dir-base : (dir (codes "/r/a") ≡ codes "/r") × (base (codes "/r/a") ≡ codes "a")
unfolding runs
dir-base = (refl, refl)
