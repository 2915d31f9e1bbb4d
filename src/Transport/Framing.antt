-- ===== src/Transport/Framing.antt =====
-- transport.go, ReadMessage: how the input is cut into messages.
use fileserver_mcp.Base.{
  ◌⊎◌, ℕ, suc, ◌+◌, ◌≤◌, ◌<◌, [], ◌∷◌, ◌++◌, Bytes, length, length-append, Bool, true, false, ◌&&◌,
  ◌==◌, ℤ, pos, is_positive, exceeds, ◌≡◌, refl, ap, ◌∙◌, arith, All, Bool-cases, inl, inr,
}
use fileserver_mcp.Transport.{
  Input, ended, byte, newline, Reading, line, message_too_large, stopped, discard_line, read_line,
  read_message,
}

-- The input that starts with these bytes.
abbrev pub feed : Bytes → Input → Input
feed [] input = input
feed (b ∷ bs) input = byte b (feed bs input)

abbrev pub unread : Input → ℕ
unread (ended e) = 0
unread (byte b input) = suc (unread input)

abbrev pub IsInLine : ℕ → Type 0
IsInLine b = (b == newline) ≡ false

append_cons : (xs : Bytes) (y : ℕ) (ys : Bytes) → (xs ++ y ∷ []) ++ ys ≡ xs ++ y ∷ ys
append_cons [] y ys = refl
append_cons (x ∷ xs) y ys = ap (λ l. x ∷ l) (append_cons xs y ys)

discard_line-feed :
    (m : Bytes) (rest : Input) → All IsInLine m → discard_line (feed m (byte newline rest)) ≡ rest
unfolding discard_line
discard_line-feed [] rest h = refl
discard_line-feed (b ∷ m) rest h = rw h.0 (discard_line-feed m rest h.1)

too_long : ℕ → ℕ → Bool
too_long n limit = is_positive (pos limit) && exceeds n (pos limit)

read_line-feed_within :
    (n : ℕ) (so_far m : Bytes) (rest : Input)
    → All IsInLine m
    → too_long (length so_far + length m + 1) n ≡ false
    → read_line (pos n) so_far (feed m (byte newline rest))
      ≡ (line (so_far ++ (m ++ newline ∷ [])), rest)
unfolding too_long read_line
read_line-feed_within n so_far [] rest hm h =
    let size = length-append so_far (newline ∷ []) in
    let fits : too_long (length (so_far ++ newline ∷ [])) n ≡ false = ground (arith, size) in
    rw fits refl
read_line-feed_within n so_far (b ∷ m) rest hm h =
    let size = length-append so_far (b ∷ []) in
    let fits : too_long (length (so_far ++ b ∷ [])) n ≡ false = ground (arith, size) in
    let later : too_long (length (so_far ++ b ∷ []) + length m + 1) n ≡ false =
      ground (arith, size) in
    rw
      (
        fits,
        hm.0,
        read_line-feed_within n (so_far ++ b ∷ []) m rest hm.1 later,
        append_cons so_far b (m ++ newline ∷ []),
      )
      refl

-- The line is longer than the limit before its newline has come.
read_line-feed_over :
    (n : ℕ) (so_far m : Bytes) (rest : Input)
    → All IsInLine m
    → 0 < n
    → length so_far ≤ n
    → n < length so_far + length m
    → read_line (pos n) so_far (feed m (byte newline rest)) ≡ (message_too_large, rest)
unfolding too_long read_line
read_line-feed_over n so_far [] rest hm h0 h1 h2 = ground arith
read_line-feed_over n so_far (b ∷ m) rest hm h0 h1 h2 =
    let size = length-append so_far (b ∷ []) in
    elim (Bool-cases (too_long (length (so_far ++ b ∷ [])) n)) [
      | inl long ↦ rw (long, discard_line-feed m rest hm.1) refl
      | inr fits ↦
          rw (fits, hm.0)
            (read_line-feed_over n (so_far ++ b ∷ []) m rest hm.1 h0 (ground (arith, size))
              (omega (arith, size)))
    ]

-- The newline itself is the byte beyond the limit.
read_line-feed_at_limit :
    (n : ℕ) (so_far m : Bytes) (rest : Input)
    → All IsInLine m
    → 0 < n
    → length so_far + length m ≡ n
    → read_line (pos n) so_far (feed m (byte newline rest)) ≡ (message_too_large, discard_line rest)
unfolding too_long read_line
read_line-feed_at_limit n so_far [] rest hm h0 h =
    let size = length-append so_far (newline ∷ []) in
    let long : too_long (length (so_far ++ newline ∷ [])) n ≡ true = ground (arith, size) in
    rw long refl
read_line-feed_at_limit n so_far (b ∷ m) rest hm h0 h =
    let size = length-append so_far (b ∷ []) in
    let fits : too_long (length (so_far ++ b ∷ [])) n ≡ false = ground (arith, size) in
    rw (fits, hm.0)
      (read_line-feed_at_limit n (so_far ++ b ∷ []) m rest hm.1 h0 (omega (arith, size)))

-- With the limit `n` (0 is none), a line `m` that fits it, its newline included, is the message
-- read, and reading goes on behind it.
pub read_message-feed :
    (n : ℕ) (m : Bytes) (rest : Input)
    → All IsInLine m
    → (n ≡ 0) ⊎ (length m < n)
    → read_message (pos n) (feed m (byte newline rest)) ≡ (line (m ++ newline ∷ []), rest)
unfolding read_message too_long
read_message-feed n m rest hm h = read_line-feed_within n [] m rest hm (ground arith)

-- A line `m` that is longer than the positive limit `n` without its newline is refused as too
-- large, and reading goes on behind its newline.
pub read_message-feed_over :
    (n : ℕ) (m : Bytes) (rest : Input)
    → All IsInLine m
    → 0 < n
    → n < length m
    → read_message (pos n) (feed m (byte newline rest)) ≡ (message_too_large, rest)
unfolding read_message
read_message-feed_over n m rest hm h0 h =
    read_line-feed_over n [] m rest hm h0 (omega arith) (omega arith)

-- A line `m` of exactly the positive limit `n`, to which only its newline is too much, is refused
-- as too large together with the whole next line `m2`: reading goes on behind the newline of `m2`.
pub read_message-feed_at_limit :
    (n : ℕ) (m m2 : Bytes) (rest : Input)
    → All IsInLine m
    → All IsInLine m2
    → 0 < n
    → length m ≡ n
    → read_message (pos n) (feed m (byte newline (feed m2 (byte newline rest))))
      ≡ (message_too_large, rest)
unfolding read_message
read_message-feed_at_limit n m m2 rest hm hm2 h0 h =
    read_line-feed_at_limit n [] m (feed m2 (byte newline rest)) hm h0 (omega arith)
    ∙ ap (λ i. (message_too_large, i)) (discard_line-feed m2 rest hm2)

-- Each reading that gives or refuses a message takes at least one byte of the input.
abbrev pub Progress : ℕ → Reading × Input → Type 0
Progress n (line l, input) = unread input < n
Progress n (message_too_large, input) = unread input < n
Progress n (stopped e, input) = Unit

discard_line-unread : (input : Input) → unread (discard_line input) ≤ unread input
unfolding discard_line
discard_line-unread (ended e) = omega arith
discard_line-unread (byte b input) = ground (arith, discard_line-unread input)

Progress-le : (n m : ℕ) → n ≤ m → (r : Reading × Input) → Progress n r → Progress m r
Progress-le n m h (line l, input) p = omega arith
Progress-le n m h (message_too_large, input) p = omega arith
Progress-le n m h (stopped e, input) p = tt

read_line-Progress :
    (limit : ℤ) (so_far : Bytes) (input : Input)
    → Progress (unread input) (read_line limit so_far input)
unfolding read_line
read_line-Progress limit so_far (ended e) = tt
read_line-Progress limit so_far (byte next input) =
    let longer = so_far ++ next ∷ [] in
    elim (Bool-cases (is_positive limit && exceeds (length longer) limit)) [
      | inl long ↦ rw long (omega (arith, discard_line-unread input))
      | inr fits ↦ elim (Bool-cases (next == newline)) [
        | inl found ↦ rw (fits, found) (omega arith)
        | inr inside ↦
            rw (fits, inside)
              (Progress-le (unread input) (suc (unread input)) (omega arith)
                (read_line limit longer input) (read_line-Progress limit longer input))
      ]
    ]

pub read_message-Progress :
    (limit : ℤ) (input : Input) → Progress (unread input) (read_message limit input)
unfolding read_message
read_message-Progress limit input = read_line-Progress limit [] input
