-- ===== src/Base/Decimals.antt =====
-- Decimal numerals: reading digits and printing a number with %d.
use Prim.Native.Nat.{ℕ, zero, suc, ◌+◌, ◌-◌, ◌*◌, ◌/◌, ◌%◌, ◌<◌}
use mathlib.Core.Path.{◌≡◌, refl, ap, sym, ◌∙◌}
use mathlib.Core.Logic.{inl, inr}
use mathlib.Core.Bool.{Bool, true, false, ◌&&◌}
use mathlib.Core.Option.{Option, none, some}
use mathlib.Core.List.{append-nil, append_assoc, [], ◌∷◌, ◌++◌}
use native.Mathlib.Omega.{arith}
use fileserver_mcp.Base.Tests.{◌==◌, leb, ltb, Bool-cases, some_inj, if◌then◌else◌}
use fileserver_mcp.Base.Lists.{All-append}
use fileserver_mcp.Base.Strings.{Text}
use fileserver_mcp.Base.Cuts.{Without}

abbrev pub is_digit : ℕ → Bool
is_digit c = leb b'0' c && leb c b'9'

-- The number that the digits make after the number `n`.
unfoldable pub digits_after : ℕ → Text → Option ℕ
digits_after n [] = some n
digits_after n (c ∷ s) =
    let rest = digits_after (n * 10 + (c - b'0')) s in if is_digit c then rest else none

-- The last `k` digits at most; `suc n` is enough for the number `n`.
unfoldable pub numeral : ℕ → ℕ → Text
numeral zero n = []
numeral (suc k) n =
    let front = numeral k (n / 10) in (if ltb n 10 then [] else front) ++ (b'0' + n % 10) ∷ []

-- %d
unfoldable pub decimal : ℕ → Text
decimal n = numeral (suc n) n

digits_after-snoc :
    (m n d : ℕ) (s : Text)
    → digits_after m s ≡ some n
    → d < 10
    → digits_after m (s ++ (b'0' + d) ∷ []) ≡ some (n * 10 + d)
unfolding digits_after
digits_after-snoc m n d [] h small = ground arith
digits_after-snoc m n d (c ∷ s) h small = elim (Bool-cases (is_digit c)) [
  | inl digit ↦
      rw digit (digits_after-snoc (m * 10 + (c - b'0')) n d s (ground (arith, digit)) small)
  | inr other ↦ ground (arith, other)
]

digits_after-numeral : (k n : ℕ) → n < k → digits_after 0 (numeral k n) ≡ some n
unfolding numeral digits_after
digits_after-numeral zero n h = ground arith
digits_after-numeral (suc k) n h = elim (Bool-cases (ltb n 10)) [
  | inl small ↦ rw small (ground arith)
  | inr large ↦ rw large (
      digits_after-snoc 0 (n / 10) (n % 10) (numeral k (n / 10))
        (digits_after-numeral k (n / 10) (ground arith)) (omega arith)
      ∙ ap some (omega arith))
]

pub digits_after-decimal : (n : ℕ) → digits_after 0 (decimal n) ≡ some n
unfolding decimal
digits_after-decimal n = digits_after-numeral (suc n) n (omega arith)

numeral-Without : (separator k n : ℕ) → separator < b'0' → Without separator (numeral k n)
unfolding numeral
numeral-Without separator zero n h = tt
numeral-Without separator (suc k) n h = elim (Bool-cases (ltb n 10)) [
  | inl small ↦ rw small (ground arith, tt)
  | inr large ↦ rw large (
      All-append (λ c. (c == separator) ≡ false) (numeral k (n / 10)) _
        (numeral-Without separator k (n / 10) h) (ground arith, tt))
]

-- A numeral has no character below the digits.
pub decimal-Without : (separator n : ℕ) → separator < b'0' → Without separator (decimal n)
unfolding decimal
decimal-Without separator n h = numeral-Without separator (suc n) n h

-- More fuel than the number makes no difference.
numeral-enough : (j k n : ℕ) → n < j → n < k → numeral j n ≡ numeral k n
unfolding numeral
numeral-enough zero k n hj hk = ground arith
numeral-enough (suc j) zero n hj hk = ground arith
numeral-enough (suc j) (suc k) n hj hk = elim (Bool-cases (ltb n 10)) [
  | inl small ↦ rw small refl
  | inr large ↦ rw (large, numeral-enough j k (n / 10) (ground arith) (ground arith)) refl
]

-- One more digit behind a numeral.
decimal_snoc : (m d : ℕ) → 0 < m → d < 10 → decimal (m * 10 + d) ≡ decimal m ++ (b'0' + d) ∷ []
unfolding decimal numeral
decimal_snoc m d hm hd =
    let n = m * 10 + d in
    let front : numeral n (n / 10) ≡ numeral (suc m) m =
      ap (numeral n) (omega arith) ∙ numeral-enough n (suc m) m (omega arith) (omega arith) in
    let large : ltb n 10 ≡ false = ground arith in
    let last : n % 10 ≡ d = omega arith in rw (large, last, front) refl

decimal-digits_after_more :
    (m n : ℕ) (s : Text) → 0 < m → digits_after m s ≡ some n → decimal n ≡ decimal m ++ s
unfolding digits_after
decimal-digits_after_more m n [] hm h = ap decimal (sym (some_inj h)) ∙ sym (append-nil (decimal m))
decimal-digits_after_more m n (c ∷ s) hm h = elim (Bool-cases (is_digit c)) [
  | inl digit ↦
      let more : digits_after (m * 10 + (c - b'0')) s ≡ some n = ground (arith, digit) in
      let code : b'0' + (c - b'0') ≡ c = ground arith in
      decimal-digits_after_more (m * 10 + (c - b'0')) n s (omega arith) more
      ∙ ap (λ b. b ++ s)
          (decimal_snoc m (c - b'0') hm (ground arith) ∙ ap (λ b. decimal m ++ b ∷ []) code)
      ∙ append_assoc (decimal m) (c ∷ []) s
  | inr other ↦ ground (arith, other)
]

-- The numeral of the number that a text of digits reads as is the text: of one digit, or of more of
-- which the first is not zero.
pub decimal-one_digit : (c n : ℕ) → digits_after 0 (c ∷ []) ≡ some n → decimal n ≡ c ∷ []
unfolding digits_after decimal numeral
decimal-one_digit c n h = elim (Bool-cases (is_digit c)) [
  | inl digit ↦
      let same : c - b'0' ≡ n = some_inj (ground (arith, digit)) in
      let small : ltb n 10 ≡ true = ground arith in rw small (ap (λ (b : ℕ). b ∷ []) (ground arith))
  | inr other ↦ ground (arith, other)
]

pub decimal-digits_after :
    (c d n : ℕ) (s : Text)
    → (c == b'0') ≡ false
    → digits_after 0 (c ∷ d ∷ s) ≡ some n
    → decimal n ≡ c ∷ d ∷ s
unfolding digits_after
decimal-digits_after c d n s plain h = elim (Bool-cases (is_digit c)) [
  | inl digit ↦
      let rest : digits_after (c - b'0') (d ∷ s) ≡ some n = ground (arith, digit) in
      let first : digits_after 0 (c ∷ []) ≡ some (c - b'0') = ground (arith, digit) in
      decimal-digits_after_more (c - b'0') n (d ∷ s) (ground arith) rest
      ∙ ap (λ b. b ++ d ∷ s) (decimal-one_digit c (c - b'0') first)
  | inr other ↦ ground (arith, other)
]
