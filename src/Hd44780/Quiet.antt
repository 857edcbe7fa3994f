-- ===== src/Hd44780/Quiet.antt =====
-- What HD44780.c sends to the modem: nothing.
use quark_meteo_station.Base.{
  ℕ, zero, suc, ◌+◌, ◌-◌, ◌≡◌, refl, ◌∙◌, arith, some, List, [], ◌∷◌, inl, inr, outcome, returned,
  Bool-cases, ltb, if◌then◌else◌,
}
use quark_meteo_station.Base.Int.{ℤ, is_neg, abs}
use quark_meteo_station.Board.{Board}
use quark_meteo_station.Board.Untouched.{Quiet, sent}
use quark_meteo_station.Base.Word.{u8}
use quark_meteo_station.Utoa.{utoa, strlen, text}
use quark_meteo_station.Hd44780.{
  Config, Mode, write_byte, write_char, gotoxy, write_string, write_zeros, write_number,
  write_integer,
}

module _ (config : Config) where
  write_byte-Quiet : (byte : ℕ) (mode : Mode) (b : Board) → Quiet b (write_byte config byte mode b)
  unfolding write_byte sent
  write_byte-Quiet byte mode b = refl

  pub write_char-Quiet : (c : ℕ) (b : Board) → Quiet b (write_char config c b)
  unfolding write_char
  write_char-Quiet c b = write_byte-Quiet c _ b

  pub gotoxy-Quiet : (x y : ℕ) (b : Board) → Quiet b (gotoxy config x y b)
  unfolding gotoxy
  gotoxy-Quiet x y b = write_byte-Quiet _ _ b

  pub write_string-Quiet : (s : List ℕ) (b : Board) → Quiet b (write_string config s b)
  unfolding write_string
  write_string-Quiet [] b = refl
  write_string-Quiet (c ∷ s) b = write_string-Quiet s (write_char config c b) ∙ write_char-Quiet c b

  write_zeros-Quiet : (n : ℕ) (b : Board) → Quiet b (write_zeros config n b)
  unfolding write_zeros
  write_zeros-Quiet zero b = refl
  write_zeros-Quiet (suc n) b =
      write_zeros-Quiet n (write_char config b'0' b) ∙ write_char-Quiet b'0' b

  write_number-Quiet :
      (buffer : List ℕ) (n required : ℕ) (b b' : Board)
      → write_number config buffer n required b ≡ some b'
      → Quiet b b'
  unfolding write_number
  write_number-Quiet buffer n required b b' e = elim (outcome (utoa n buffer)) [
    | inl fails ↦ ground arith
    | inr (digits, done) ↦
        let zeros = u8 (required + 256 - strlen digits) in
        let padded = (if ltb zeros 128 then write_zeros config zeros b else b) in
        let quiet : Quiet b padded = elim (Bool-cases (ltb zeros 128)) [
          | inl e₁ ↦ rw e₁ (write_zeros-Quiet zeros b)
          | inr e₁ ↦ rw e₁ refl
        ] in
        returned (Quiet b)
          (
            write_string config (text digits) padded,
            rw (write_number, done) refl,
            write_string-Quiet (text digits) padded ∙ quiet,
          )
          e
  ]

  pub write_integer-Quiet :
      (buffer : List ℕ) (n : ℤ) (required : ℕ) (b b' : Board)
      → write_integer config buffer n required b ≡ some b'
      → Quiet b b'
  unfolding write_integer
  write_integer-Quiet buffer n required b b' e =
      let signed = (if is_neg n then write_char config b'-' b else b) in
      let quiet : Quiet b signed = elim (Bool-cases (is_neg n)) [
        | inl e₁ ↦ rw e₁ (write_char-Quiet b'-' b)
        | inr e₁ ↦ rw e₁ refl
      ] in
      write_number-Quiet buffer (abs n) required signed b' e ∙ quiet
