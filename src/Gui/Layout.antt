-- ===== src/Gui/Layout.antt =====
-- `GUI_update`: what the display is sent for a set of measurements.
use quark_meteo_station.Base.{
  ℕ, suc, ◌+◌, ◌-◌, ◌/◌, ◌%◌, ◌^◌, ◌≤◌, ◌<◌, ◌≡◌, append_assoc, arith, true, false, some, List, ◌∷◌,
  ◌++◌, codes, All, length, replicate, get_or,
}
use quark_meteo_station.Base.Int.{ℤ, pos, negsuc, pos_part, neg_part, div_ℤ, mod_ℤ}
use quark_meteo_station.Board.{Board}
use quark_meteo_station.Bmp280
use quark_meteo_station.Ds18b20
use quark_meteo_station.Ds18b20.{Sign, positive, negative}
use quark_meteo_station.Dht11
use quark_meteo_station.Hd44780.{type_data, display_20x2}
use quark_meteo_station.Hd44780.Interface.{Display}
use quark_meteo_station.Hd44780.Bus.{Msg, said}
use quark_meteo_station.Hd44780.Cursor.{nearest}
use quark_meteo_station.Hd44780.Integer.{int_text, said-append}
use quark_meteo_station.Utoa.Decimal.{decimal}
use quark_meteo_station.Gui.{
  Pointers, draw_hundredths, draw_bmp280, draw_ds18b20, draw_dht11, update,
}

-- The cursor on the first and on the second row of the 20x2 display.
abbrev pub at_top : ℕ → Msg
at_top y = (false, 127 + y)

abbrev pub at_bottom : ℕ → Msg
at_bottom y = (false, 191 + y)

-- Integers of an `int32_t`.
abbrev pub IsInt32 : ℤ → Type 0
IsInt32 a = (pos_part a < 2 ^ 31) × (neg_part a ≤ 2 ^ 31)

abbrev pub hundredths_text : ℤ → ℤ → List ℕ → List ℕ
hundredths_text whole part unit = int_text whole 0 ++ (b'.' ∷ (int_text part 2 ++ unit))

abbrev pub sign_text : Sign → ℕ
sign_text negative = b'-'
sign_text positive = b' '

-- What each part of the screen sends.
abbrev pub bmp280_msgs : Bmp280.Meas → List Msg → List Msg
bmp280_msgs m ms =
    let t = hundredths_text (div_ℤ m.temperature 100) (mod_ℤ m.temperature 100) (codes "C ") in
    let p = hundredths_text (pos (m.pressure / 100)) (pos (m.pressure % 100)) (codes "hPa ") in
    said p (at_bottom 4 ∷ said t (at_top 4 ∷ ms))

abbrev pub ds18b20_msgs : Ds18b20.Meas → List Msg → List Msg
ds18b20_msgs m ms =
    let t = hundredths_text (pos m.integer) (pos m.fraction) (codes "C ") in
    said t ((true, sign_text m.sign) ∷ at_top 14 ∷ ms)

abbrev pub dht11_msgs : Dht11.Meas → List Msg → List Msg
dht11_msgs m ms = said (codes "%") (said (int_text (pos m.humidity) 0) (at_bottom 18 ∷ ms))

sign_text-lt : (s : Sign) → sign_text s < 256
sign_text-lt negative = omega arith
sign_text-lt positive = omega arith

div_ℤ-IsInt32 : (a : ℤ) → IsInt32 a → IsInt32 (div_ℤ a 100)
unfolding div_ℤ
div_ℤ-IsInt32 a h = ground arith

mod_ℤ-IsInt32 : (a : ℤ) → IsInt32 a → IsInt32 (mod_ℤ a 100)
unfolding mod_ℤ
mod_ℤ-IsInt32 a h = ground arith

module _ (lcd : Display) (wide : lcd.config.type ≡ display_20x2) where
  open lcd use {Shows, gotoxy, write_char, write_string}

  pub top-Shows :
      (y : ℕ) (b : Board) {ms : List Msg}
      → 0 < y
      → y ≤ 20
      → Shows b ms
      → Shows (gotoxy 1 y b) (at_top y ∷ ms)
  top-Shows y b py hy s =
      let address : 128
            + (get_or (type_data lcd.config.type).rows_first_addr
                  (nearest (type_data lcd.config.type).rows 1 - 1) 0
                + (nearest (type_data lcd.config.type).columns y - 1))
          ≡ 127 + y =
        rw wide (omega arith) in
      rw (← address) (lcd.gotoxy-Shows 1 y b s)

  pub bottom-Shows :
      (y : ℕ) (b : Board) {ms : List Msg}
      → 0 < y
      → y ≤ 20
      → Shows b ms
      → Shows (gotoxy 2 y b) (at_bottom y ∷ ms)
  bottom-Shows y b py hy s =
      let address : 128
            + (get_or (type_data lcd.config.type).rows_first_addr
                  (nearest (type_data lcd.config.type).rows 2 - 1) 0
                + (nearest (type_data lcd.config.type).columns y - 1))
          ≡ 191 + y =
        rw wide (omega arith) in
      rw (← address) (lcd.gotoxy-Shows 2 y b s)

  draw_hundredths-Shows :
      (whole part : ℤ) (unit : List ℕ) (b : Board) {ms : List Msg}
      → IsInt32 whole
      → IsInt32 part
      → All (λ c. c < 256) unit
      → Shows b ms
      → (b' : Board) × (draw_hundredths lcd whole part unit b ≡ some b')
        × Shows b' (said (hundredths_text whole part unit) ms)
  unfolding draw_hundredths
  draw_hundredths-Shows whole part unit b hw hp hu s =
      let (b₁, e₁, s₁) = lcd.write_integer-Shows whole 0 b hw.0 hw.1 (omega arith) s in
      let s₂ = lcd.write_char-Shows b'.' b₁ (omega arith) s₁ in
      let (b₃, e₃, s₃) =
        lcd.write_integer-Shows part 2 (write_char b'.' b₁) hp.0 hp.1 (omega arith) s₂ in
      let s₄ = lcd.write_string-Shows unit b₃ hu s₃ in
      (write_string unit b₃, rw (e₁, e₃), simp said-append s₄)

  draw_bmp280-Shows :
      (m : Bmp280.Meas) (b : Board) {ms : List Msg}
      → IsInt32 m.temperature
      → m.pressure < 2 ^ 32
      → Shows b ms
      → (b' : Board) × (draw_bmp280 lcd m b ≡ some b') × Shows b' (bmp280_msgs m ms)
  unfolding draw_bmp280
  draw_bmp280-Shows m b ht hp s =
      let (b₁, e₁, s₁) =
        draw_hundredths-Shows (div_ℤ m.temperature 100) (mod_ℤ m.temperature 100) (codes "C ")
          (gotoxy 1 4 b) (div_ℤ-IsInt32 m.temperature ht) (mod_ℤ-IsInt32 m.temperature ht)
          (omega arith, (omega arith, tt)) (top-Shows 4 b (omega arith) (omega arith) s) in
      let (b₂, e₂, s₂) =
        draw_hundredths-Shows (pos (m.pressure / 100)) (pos (m.pressure % 100)) (codes "hPa ")
          (gotoxy 2 4 b₁) (omega arith, omega arith) (omega arith, omega arith)
          (omega arith, (omega arith, (omega arith, (omega arith, tt))))
          (bottom-Shows 4 b₁ (omega arith) (omega arith) s₁) in
      (b₂, rw (e₁, e₂), s₂)

  draw_ds18b20-Shows :
      (m : Ds18b20.Meas) (b : Board) {ms : List Msg}
      → m.integer < 256
      → m.fraction < 256
      → Shows b ms
      → (b' : Board) × (draw_ds18b20 lcd m b ≡ some b') × Shows b' (ds18b20_msgs m ms)
  unfolding draw_ds18b20
  draw_ds18b20-Shows m b hi hf s =
      let sign = sign_text m.sign in
      let s₁ =
        lcd.write_char-Shows sign (gotoxy 1 14 b) (sign_text-lt m.sign)
          (top-Shows 14 b (omega arith) (omega arith) s) in
      draw_hundredths-Shows (pos m.integer) (pos m.fraction) (codes "C ")
        (write_char sign (gotoxy 1 14 b)) (omega arith, omega arith) (omega arith, omega arith)
        (omega arith, (omega arith, tt)) s₁

  draw_dht11-Shows :
      (m : Dht11.Meas) (b : Board) {ms : List Msg}
      → m.humidity < 256
      → Shows b ms
      → (b' : Board) × (draw_dht11 lcd m b ≡ some b') × Shows b' (dht11_msgs m ms)
  unfolding draw_dht11
  draw_dht11-Shows m b h s =
      let (b₁, e₁, s₁) =
        lcd.write_integer-Shows (pos m.humidity) 0 (gotoxy 2 18 b) (omega arith) (omega arith)
          (omega arith) (bottom-Shows 18 b (omega arith) (omega arith) s) in
      let s₂ = lcd.write_string-Shows (codes "%") b₁ (omega arith, tt) s₁ in
      (write_string (codes "%") b₁, rw e₁, s₂)

  -- On a 20x2 display, where the pointers lead to a temperature and a pressure of 32 bits and to bytes:
  -- an update ends, and sends, behind what was
  -- sent before, the indoor temperature at column 4 of the first row, the pressure below it, the
  -- outdoor temperature with its sign at column 14, and the humidity at column 18 below.
  pub update-Shows :
      {M : Type 0} (p : Pointers M) (m : M) (b : Board) {ms : List Msg}
      → IsInt32 (p.bmp280_meas m).temperature
      → (p.bmp280_meas m).pressure < 2 ^ 32
      → (p.ds18b20_meas m).integer < 256
      → (p.ds18b20_meas m).fraction < 256
      → (p.dht11_meas m).humidity < 256
      → Shows b ms
      → (b' : Board) × (update lcd p m b ≡ some b')
        × Shows b' (
            dht11_msgs
              (p.dht11_meas m)
              (ds18b20_msgs (p.ds18b20_meas m) (bmp280_msgs (p.bmp280_meas m) ms)))
  unfolding update
  update-Shows p m b ht hp hi hf hh s =
      let (b₁, e₁, s₁) = draw_bmp280-Shows (p.bmp280_meas m) b ht hp s in
      let (b₂, e₂, s₂) = draw_ds18b20-Shows (p.ds18b20_meas m) b₁ hi hf s₁ in
      let (b₃, e₃, s₃) = draw_dht11-Shows (p.dht11_meas m) b₂ hh s₂ in (b₃, rw (e₁, e₂, e₃), s₃)

-- A negative indoor temperature, of a degree or more and not whole, is shown with two signs: the
-- whole degrees and the hundredths each have their own.
pub hundredths_text_negative :
    (n : ℕ)
    → 100 < n
    → 0 < n % 100
    → hundredths_text (div_ℤ (negsuc (n - 1)) 100) (mod_ℤ (negsuc (n - 1)) 100) (codes "C ")
      ≡ (b'-' ∷ decimal (n / 100))
        ++ (b'.'
            ∷ b'-'
            ∷ (replicate (2 - length (decimal (n % 100))) b'0'
                ++ (decimal (n % 100) ++ codes "C ")))
unfolding div_ℤ mod_ℤ int_text
hundredths_text_negative n h p =
    let e₁ : div_ℤ (negsuc (n - 1)) 100 ≡ negsuc (n / 100 - 1) = ground arith in
    let e₂ : mod_ℤ (negsuc (n - 1)) 100 ≡ negsuc (n % 100 - 1) = ground arith in
    let e₃ : suc (n / 100 - 1) ≡ n / 100 = omega arith in
    let e₄ : suc (n % 100 - 1) ≡ n % 100 = omega arith in
    let e₅ : 0 - length (decimal (n / 100)) ≡ 0 = omega arith in
    rw (e₁, e₂, e₃, e₄, e₅) (simp append_assoc)
