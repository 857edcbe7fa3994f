-- ===== src/Gui/Quiet.antt =====
-- What GUI.c sends to the modem: nothing.
use quark_meteo_station.Base.{
  ℕ, ◌/◌, ◌%◌, ◌≡◌, refl, ◌∙◌, arith, Option, some, List, codes, inl, inr, outcome, returned,
}
use quark_meteo_station.Base.Int.{ℤ, pos, div_ℤ, mod_ℤ}
use quark_meteo_station.Board.{Board}
use quark_meteo_station.Board.Untouched.{Quiet}
use quark_meteo_station.Bmp280
use quark_meteo_station.Ds18b20
use quark_meteo_station.Ds18b20.{positive, negative}
use quark_meteo_station.Dht11
use quark_meteo_station.Hd44780.Interface.{Display}
use quark_meteo_station.Gui.{
  Pointers, draw_hundredths, draw_bmp280, draw_ds18b20, draw_dht11, update, ◌>>=◌,
}

-- Of two steps that send nothing.
abbrev AreQuiet : (Board → Option Board) → Type 0
AreQuiet f = (b b' : Board) → f b ≡ some b' → Quiet b b'

AreQuiet->>= : (f g : Board → Option Board) → AreQuiet f → AreQuiet g → AreQuiet (λ b. f b >>= g)
AreQuiet->>= f g hf hg b b' e = elim (outcome (f b)) [
  | inl fails ↦ ground arith
  | inr (b₁, done) ↦ hg b₁ b' (rw done at e) ∙ hf b b₁ done
]

-- A step behind one that cannot fault, and such a step by itself.
AreQuiet-after :
    (f : Board → Board) (g : Board → Option Board)
    → ((b : Board) → Quiet b (f b))
    → AreQuiet g
    → AreQuiet (λ b. g (f b))
AreQuiet-after f g hf hg b b' e = hg (f b) b' e ∙ hf b

AreQuiet-some : (f : Board → Board) → ((b : Board) → Quiet b (f b)) → AreQuiet (λ b. some (f b))
AreQuiet-some f hf b b' e = returned (Quiet b) (f b, refl, hf b) e

module _ (lcd : Display) where
  open lcd use {
    gotoxy, write_string, write_char, write_integer, gotoxy-Quiet, write_string-Quiet,
    write_char-Quiet, write_integer-Quiet,
  }

  draw_hundredths-Quiet :
      (whole part : ℤ) (unit : List ℕ) → AreQuiet (draw_hundredths lcd whole part unit)
  unfolding draw_hundredths
  draw_hundredths-Quiet whole part unit =
      let last = λ (b : Board). some (write_string unit b) in
      let second = λ (b : Board). write_integer part 2 b >>= last in
      AreQuiet->>= (write_integer whole 0) (λ b. second (write_char b'.' b))
        (write_integer-Quiet whole 0)
        (AreQuiet-after (write_char b'.') second (write_char-Quiet b'.') (
          AreQuiet->>= (write_integer part 2) last (write_integer-Quiet part 2)
            (AreQuiet-some (write_string unit) (write_string-Quiet unit))))

  draw_bmp280-Quiet : (meas : Bmp280.Meas) → AreQuiet (draw_bmp280 lcd meas)
  unfolding draw_bmp280
  draw_bmp280-Quiet meas =
      let t =
        draw_hundredths lcd (div_ℤ meas.temperature 100) (mod_ℤ meas.temperature 100)
          (codes "C ") in
      let p =
        draw_hundredths lcd (pos (meas.pressure / 100)) (pos (meas.pressure % 100))
          (codes "hPa ") in
      AreQuiet->>= (λ b. t (gotoxy 1 4 b)) (λ b. p (gotoxy 2 4 b))
        (AreQuiet-after (gotoxy 1 4) t (gotoxy-Quiet 1 4) (draw_hundredths-Quiet _ _ _))
        (AreQuiet-after (gotoxy 2 4) p (gotoxy-Quiet 2 4) (draw_hundredths-Quiet _ _ _))

  draw_ds18b20-Quiet : (meas : Ds18b20.Meas) → AreQuiet (draw_ds18b20 lcd meas)
  unfolding draw_ds18b20
  draw_ds18b20-Quiet meas =
      let sign : ℕ = elim meas.sign [ negative ↦ b'-' | positive ↦ b' ' ] in
      let t = draw_hundredths lcd (pos meas.integer) (pos meas.fraction) (codes "C ") in
      AreQuiet-after (λ b. write_char sign (gotoxy 1 14 b)) t
        (λ b. write_char-Quiet sign (gotoxy 1 14 b) ∙ gotoxy-Quiet 1 14 b)
        (draw_hundredths-Quiet _ _ _)

  draw_dht11-Quiet : (meas : Dht11.Meas) → AreQuiet (draw_dht11 lcd meas)
  unfolding draw_dht11
  draw_dht11-Quiet meas =
      let n = write_integer (pos meas.humidity) 0 in
      AreQuiet->>= (λ b. n (gotoxy 2 18 b)) (λ b. some (write_string (codes "%") b))
        (AreQuiet-after (gotoxy 2 18) n (gotoxy-Quiet 2 18)
          (write_integer-Quiet (pos meas.humidity) 0))
        (AreQuiet-some (write_string (codes "%")) (write_string-Quiet (codes "%")))

  pub update-Quiet : {M : Type 0} (p : Pointers M) (m : M) → AreQuiet (update lcd p m)
  unfolding update
  update-Quiet p m =
      AreQuiet->>=
        (λ b. draw_bmp280 lcd (p.bmp280_meas m) b >>= draw_ds18b20 lcd (p.ds18b20_meas m))
        (draw_dht11 lcd (p.dht11_meas m))
        (AreQuiet->>= (draw_bmp280 lcd (p.bmp280_meas m)) (draw_ds18b20 lcd (p.ds18b20_meas m))
          (draw_bmp280-Quiet (p.bmp280_meas m)) (draw_ds18b20-Quiet (p.ds18b20_meas m)))
        (draw_dht11-Quiet (p.dht11_meas m))
