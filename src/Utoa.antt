-- ===== src/Utoa.antt =====
-- utoa.c: unsigned numbers to decimal text, in a buffer that the caller provides.
pub mod Decimal
pub mod Reverse
pub mod Convert
use mathlib.Core.Option
use quark_meteo_station.Base.{
  ℕ, zero, suc, ◌+◌, ◌-◌, ◌/◌, ◌%◌, Bool, true, false, List, [], ◌∷◌, Option, none, some, ◌==◌, ltb,
  if◌then◌else◌, length, get_or, set, take,
}
use quark_meteo_station.Base.Word.{u8}

-- A buffer is an array of bytes. A write past its end is undefined in C: `none`.
unfoldable pub store : List ℕ → ℕ → ℕ → Option (List ℕ)
store buf i v = if ltb i (length buf) then some (set buf i v) else none

-- The length of the text in a buffer: the bytes before the first NUL.
unfoldable pub strlen : List ℕ → ℕ
strlen [] = 0
strlen (c ∷ r) = if c == 0 then 0 else suc (strlen r)

-- The text in a buffer.
unfoldable pub text : List ℕ → List ℕ
unfolding strlen
text buf = take (strlen buf) buf

-- The loop of `strrev`: `i` goes up and `j` down until they meet. `fuel` bounds the rounds.
unfoldable pub swap_loop : ℕ → ℕ → ℕ → List ℕ → List ℕ
swap_loop zero i j string = string
swap_loop (suc fuel) i j string = elim (ltb i j) [
  | true ↦
      let temp = get_or string i 0 in
      let string' = set string i (get_or string j 0) in
      swap_loop fuel (i + 1) (j - 1) (set string' j temp)
  | false ↦ string
]

-- `j` starts at `length - 1`; for the empty text it is -1, and the loop does not run either way.
unfoldable pub strrev : List ℕ → List ℕ
unfolding swap_loop strlen
strrev string = swap_loop (strlen string) 0 (strlen string - 1) string

-- The digits, the lowest first. `digit_count` is a `uint8_t`. The loop has a round for each decimal
-- digit; `none` stands for a write out of bounds, and for the fuel's end.
unfoldable pub digits_loop : ℕ → ℕ → ℕ → List ℕ → Option (ℕ × List ℕ)
digits_loop zero number digit_count result = none
digits_loop (suc fuel) number digit_count result =
    elim (store result digit_count (number % 10 + 48)) [
      | none ↦ none
      | some result' ↦ elim (number / 10 == 0) [
        | true ↦ some (u8 (digit_count + 1), result')
        | false ↦ digits_loop fuel (number / 10) (u8 (digit_count + 1)) result'
      ]
    ]

-- A 32-bit number has ten digits at most.
unfoldable pub utoa : ℕ → List ℕ → Option (List ℕ)
unfolding digits_loop store strrev
utoa number result = elim (digits_loop 10 number 0 result) [
  | none ↦ none
  | some (digit_count, result') ↦ Option.map strrev (store result' digit_count 0)
]
