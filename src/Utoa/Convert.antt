-- ===== src/Utoa/Convert.antt =====
-- `utoa` writes the decimal text of the number, where the buffer has room, and faults elsewhere.
use Prim.Native.Nat.add
use native.Mathlib.Decide.{dec_lt}
use mathlib.Core.List.{reverse, reverse-append, reverse-reverse}
use native.Mathlib.Nat.{pow-suc}
use quark_meteo_station.Base.{
  ℕ, zero, suc, ◌+◌, ◌/◌, ◌%◌, ◌^◌, ◌≤◌, ◌<◌, ◌≡◌, sym, ap, ◌∙◌, arith, List, [], ◌∷◌, ◌++◌,
  append_assoc, append-nil, length, length-append, length-reverse, set-append, length_zero,
  split_at, take-append, ◌==◌, true, false, Bool-cases, inl, inr, none, some, All, All-append,
}
use quark_meteo_station.Utoa.{store, text, digits_loop, utoa}
use quark_meteo_station.Utoa.Decimal.{
  value, IsDigit, decimal, decimal_of, decimal_of_small, decimal_of_large, IsDecimal,
  decimal-IsDecimal, decimal_of-IsDecimal,
}
use quark_meteo_station.Utoa.Reverse.{IsText, strlen-append, strrev_lem}

-- A write at the place behind a written part.
store_behind :
    (pre : List ℕ) (old : ℕ) (post : List ℕ) (v : ℕ)
    → store (pre ++ old ∷ post) (length pre) v ≡ some (pre ++ v ∷ post)
unfolding store
store_behind pre old post v =
    ground (arith, length-append pre (old ∷ post), set-append pre old post v)

store_full : (pre : List ℕ) (v : ℕ) → store pre (length pre) v ≡ none
unfolding store
store_full pre v = ground arith

module _ (fuel number : ℕ) (pre : List ℕ) (old : ℕ) (rest : List ℕ) (room : length pre < 255) where
  -- The round of the highest digit.
  last_round :
      (number / 10 == 0) ≡ true
      → digits_loop (suc fuel) number (length pre) (pre ++ old ∷ rest)
        ≡ some (length pre + 1, pre ++ (number % 10 + 48) ∷ rest)
  unfolding digits_loop
  last_round e = ground (arith, store_behind pre old rest (number % 10 + 48))

  -- Any other round.
  next_round :
      (number / 10 == 0) ≡ false
      → let pre' = pre ++ (number % 10 + 48) ∷ [] in
        digits_loop (suc fuel) number (length pre) (pre ++ old ∷ rest)
        ≡ digits_loop fuel (number / 10) (length pre') (pre' ++ rest)
  unfolding digits_loop
  next_round e = ground (
    arith,
    store_behind pre old rest (number % 10 + 48),
    length-append pre ((number % 10 + 48) ∷ []),
    append_assoc pre ((number % 10 + 48) ∷ []) rest,
  )

reverse-snoc : (s : List ℕ) (d : ℕ) → reverse (s ++ d ∷ []) ≡ d ∷ reverse s
reverse-snoc s d = reverse-append s (d ∷ [])

-- The loop behind the digits `pre`: it puts the text of the number, reversed, over what stood there.
digits_loop_lem :
    (fuel number : ℕ)
    → number < 10 ^ suc fuel
    → (pre old rest : List ℕ) → length pre + fuel < 255
    → length old ≡ length (decimal_of (suc fuel) number)
    → digits_loop (suc fuel) number (length pre) (pre ++ (old ++ rest))
      ≡ some (length pre + length old, pre ++ (reverse (decimal_of (suc fuel) number) ++ rest))
digits_loop_lem fuel number h pre [] rest room e =
    absurd (omega (arith, (decimal_of-IsDecimal fuel number h).filled))
digits_loop_lem zero number h pre (o ∷ old) rest room e =
    let small : (number / 10 == 0) ≡ true = ground arith in
    let text = decimal_of_small 0 number small in
    ground (arith, e, text, length_zero old, last_round 0 number pre o (old ++ rest))
digits_loop_lem (suc fuel) number h pre (o ∷ old) rest room e =
    let tenth : number / 10 < 10 ^ suc fuel = omega (arith, pow-suc 10 (suc fuel)) in
    let d = number % 10 + 48 in
    let shorter = decimal_of (suc fuel) (number / 10) in
    let step = digits_loop_lem fuel (number / 10) tenth (pre ++ d ∷ []) old rest in
    elim (Bool-cases (number / 10 == 0)) [
      | inl small ↦ ground (
        arith,
        decimal_of_small (suc fuel) number small,
        length_zero old,
        last_round (suc fuel) number pre o (old ++ rest),
      )
      | inr big ↦ ground (
        arith,
        decimal_of_large (suc fuel) number big,
        next_round (suc fuel) number pre o (old ++ rest),
        step,
        reverse-snoc shorter d,
        length-append shorter (d ∷ []),
        length-append pre (d ∷ []),
        append_assoc pre (d ∷ []) (reverse shorter ++ rest),
      )
    ]

-- With less room than the text has digits the loop writes past the end of the buffer.
digits_loop_short :
    (fuel number : ℕ)
    → number < 10 ^ suc fuel
    → (pre old : List ℕ) → length pre + fuel < 255
    → length old < length (decimal_of (suc fuel) number)
    → digits_loop (suc fuel) number (length pre) (pre ++ old) ≡ none
digits_loop_short fuel number h pre [] room e =
    rw append-nil (unfold digits_loop in ground (arith, store_full pre (number % 10 + 48)))
digits_loop_short zero number h pre (o ∷ old) room e =
    absurd (omega (arith, ap length (decimal_of_small 0 number (ground arith))))
digits_loop_short (suc fuel) number h pre (o ∷ old) room e =
    let tenth : number / 10 < 10 ^ suc fuel = omega (arith, pow-suc 10 (suc fuel)) in
    let d = number % 10 + 48 in
    let shorter = decimal_of (suc fuel) (number / 10) in
    elim (Bool-cases (number / 10 == 0)) [
      | inl small ↦ absurd (omega (arith, ap length (decimal_of_small (suc fuel) number small)))
      | inr big ↦ ground (
        arith,
        decimal_of_large (suc fuel) number big,
        next_round (suc fuel) number pre o old,
        digits_loop_short fuel (number / 10) tenth (pre ++ d ∷ []) old,
        length-append shorter (d ∷ []),
        length-append pre (d ∷ []),
      )
    ]

All-reverse : (s : List ℕ) → IsText s → IsText (reverse s)
All-reverse [] h = h
All-reverse (c ∷ s) h =
    rw (reverse-append (c ∷ []) s)
      (All-append (λ c. 0 < c) (reverse s) (c ∷ []) (All-reverse s h.1) (omega arith))

IsText-of_digits : (s : List ℕ) → All IsDigit s → IsText s
IsText-of_digits [] h = tt
IsText-of_digits (c ∷ s) h = (omega arith, IsText-of_digits s h.1)

pub decimal-IsText : (n : ℕ) → n < 2 ^ 32 → IsText (decimal n)
decimal-IsText n h = IsText-of_digits (decimal n) (decimal-IsDecimal n h).digits

pub text-append : (s rest : List ℕ) → IsText s → text (s ++ 0 ∷ rest) ≡ s
unfolding text
text-append s rest h = rw (strlen-append s rest h) (take-append s (0 ∷ rest))

-- In a buffer with room for the text and its NUL, whatever it held, `utoa` returns, and leaves
-- exactly the decimal text of the number, its NUL, and the rest of the buffer as it was.
utoa_fits :
    (n : ℕ) (old : List ℕ) (o : ℕ) (rest : List ℕ)
    → n < 2 ^ 32
    → length old ≡ length (decimal n)
    → utoa n (old ++ o ∷ rest) ≡ some (decimal n ++ 0 ∷ rest)
unfolding utoa decimal
utoa_fits n old o rest h e =
    let reversed = reverse (decimal n) in
    let loop = digits_loop_lem 9 n (omega arith) [] old (o ∷ rest) (omega arith) e in
    let length_same : 0 + length old ≡ length reversed =
      omega (arith, e, length-reverse (decimal n)) in
    ground (
      arith,
      loop,
      length_same,
      store_behind reversed o rest 0,
      strrev_lem reversed rest (All-reverse (decimal n) (decimal-IsText n h)),
      reverse-reverse (decimal n),
    )

-- In every buffer longer than the decimal text of a 32-bit number `utoa` returns: the buffer then
-- holds that text, a NUL, and behind it what stood there.
pub utoa_lem :
    (n : ℕ) (buf : List ℕ)
    → n < 2 ^ 32
    → length (decimal n) < length buf
    → (old rest : List ℕ) × (o : ℕ) × (buf ≡ old ++ o ∷ rest)
      × (length old ≡ length (decimal n))
      × (utoa n buf ≡ some (decimal n ++ 0 ∷ rest))
utoa_lem n buf h room =
    let (old, o, rest, e, l) = split_at (length (decimal n)) buf room in
    (old, rest, o, e, l, rw e (utoa_fits n old o rest h l))

-- In a buffer that is not longer than the decimal text of a 32-bit number `utoa` writes past the end.
pub utoa_overflow :
    (n : ℕ) (buf : List ℕ) → n < 2 ^ 32 → length buf ≤ length (decimal n) → utoa n buf ≡ none
unfolding utoa decimal
utoa_overflow n buf h small = elim (dec_lt (length buf) (length (decimal n))) [
  | yes short ↦ rw (digits_loop_short 9 n (omega arith) [] buf (omega arith) short, utoa)
  | no long ↦
      let e : length buf ≡ length (decimal n) = omega arith in
      let loop = digits_loop_lem 9 n (omega arith) [] buf [] (omega arith) e in
      let reversed = reverse (decimal n) in
      let full : store reversed (length buf) 0 ≡ none =
        rw (e ∙ sym (length-reverse (decimal n))) (store_full reversed 0) in
      ground (arith, loop, append-nil buf, append-nil reversed, full, add.zero (length buf))
]

-- Where `utoa` returns, for a 32-bit number: what is read back from the buffer is the number, its text
-- is the decimal numeral without leading zeros, and the buffer is as long as before.
pub value-utoa :
    (n : ℕ) (buf out : List ℕ)
    → n < 2 ^ 32
    → utoa n buf ≡ some out
    → (value (text out) ≡ n) × IsDecimal n (text out) × (length out ≡ length buf)
value-utoa n buf out h e = elim (dec_lt (length (decimal n)) (length buf)) [
  | yes room ↦
      let (old, rest, o, split, l, returns) = utoa_lem n buf h room in
      let is : out ≡ decimal n ++ 0 ∷ rest = cc (sym e ∙ returns) in
      let read : text out ≡ decimal n =
        ap text is ∙ text-append (decimal n) rest (decimal-IsText n h) in
      let numeral = decimal-IsDecimal n h in
      let sizes : length out ≡ length buf = omega (
        arith,
        ap length is,
        ap length split,
        length-append (decimal n) (0 ∷ rest),
        length-append old (o ∷ rest),
      ) in
      (rw read numeral.worth, rw read numeral, sizes)
  | no full ↦ absurd (none-ne-some (sym (utoa_overflow n buf h (omega arith)) ∙ e))
]
  where
    none-ne-some : (none ≡ some out) → ⊥
    none-ne-some p = cc
