-- ===== src/Hd44780/Integer.antt =====
-- `HD44780_write_integer`: what the display is sent.
use quark_meteo_station.Base.{
  ℕ, zero, suc, ◌-◌, ◌^◌, ◌≤◌, ◌<◌, ◌≡◌, refl, arith, true, List, [], ◌∷◌, ◌++◌, length, replicate,
  All, some, if◌then◌else◌,
}
use quark_meteo_station.Base.Int.{ℤ, pos, negsuc, abs, is_neg, pos_part, neg_part}
use quark_meteo_station.Board.{Board}
use quark_meteo_station.Utoa.Decimal.{IsDigit, decimal, decimal-IsDecimal, length-decimal}
use quark_meteo_station.Utoa.Reverse.{strlen-append}
use quark_meteo_station.Utoa.Convert.{utoa_lem, text-append, decimal-IsText}
use quark_meteo_station.Hd44780.{
  Config, write_char, write_string, write_zeros, write_number, write_integer,
}
use quark_meteo_station.Hd44780.Bus.{
  Msg, said, IsWired, Shows, write_char-Shows, write_string-Shows,
}

-- The text of an integer: a sign, and at least so many digits.
unfoldable pub int_text : ℤ → ℕ → List ℕ
int_text n required =
    (if is_neg n then b'-' ∷ [] else [])
    ++ (replicate (required - length (decimal (abs n))) b'0' ++ decimal (abs n))

pub said-append : (s t : List ℕ) (ms : List Msg) → said (s ++ t) ms ≡ said t (said s ms)
said-append [] t ms = refl
said-append (c ∷ s) t ms = said-append s t ((true, c) ∷ ms)

digits_small : (s : List ℕ) → All IsDigit s → All (λ c. c < 256) s
digits_small [] h = tt
digits_small (c ∷ s) h = (omega arith, digits_small s h.1)

module _ (config : Config) (wired : IsWired config) where
  write_zeros-Shows :
      (k : ℕ) (b : Board) {ms : List Msg}
      → Shows config b ms
      → Shows config (write_zeros config k b) (said (replicate k b'0') ms)
  unfolding write_zeros
  write_zeros-Shows zero b s = s
  write_zeros-Shows (suc k) b s =
      write_zeros-Shows k (write_char config b'0' b)
        (write_char-Shows config wired b'0' b (omega arith) s)

  write_number-Shows :
      (buffer : List ℕ) (n required : ℕ) (b : Board) {ms : List Msg}
      → length buffer ≡ 11
      → n < 2 ^ 32
      → required ≤ 128
      → Shows config b ms
      → (b' : Board) × (write_number config buffer n required b ≡ some b')
        × Shows config b' (said (replicate (required - length (decimal n)) b'0' ++ decimal n) ms)
  unfolding write_number
  write_number-Shows buffer n required b {ms} room small few s =
      let short : length (decimal n) ≤ 10 = length-decimal 9 n (omega arith) in
      let (old, rest, o, split, l, returns) = utoa_lem n buffer small (omega (arith, room)) in
      let is_text = decimal-IsText n small in
      let digits = (decimal-IsDecimal n small).digits in
      let zeros = required - length (decimal n) in
      let padded = write_zeros config zeros b in
      (
        write_string config (decimal n) padded,
        ground (
          arith,
          returns,
          text-append (decimal n) rest is_text,
          strlen-append (decimal n) rest is_text,
          (decimal-IsDecimal n small).filled,
        ),
        rw said-append (
            write_string-Shows config wired (decimal n) padded (digits_small (decimal n) digits)
              (write_zeros-Shows zeros b s)),
      )

  -- For every `int32_t` and every length up to 128, and whatever the local buffer holds, the
  -- display is sent the integer's sign if it is negative, zeros up to the length, and its digits.
  pub write_integer-Shows :
      (buffer : List ℕ) (n : ℤ) (required : ℕ) (b : Board) {ms : List Msg}
      → length buffer ≡ 11
      → pos_part n < 2 ^ 31
      → neg_part n ≤ 2 ^ 31
      → required ≤ 128
      → Shows config b ms
      → (b' : Board) × (write_integer config buffer n required b ≡ some b')
        × Shows config b' (said (int_text n required) ms)
  unfolding write_integer int_text
  write_integer-Shows buffer (pos n) required b room lo hi few s =
      write_number-Shows buffer n required b room (omega arith) few s
  write_integer-Shows buffer (negsuc n) required b room lo hi few s =
      write_number-Shows buffer (suc n) required (write_char config b'-' b) room (omega arith) few
        (write_char-Shows config wired b'-' b (omega arith) s)
