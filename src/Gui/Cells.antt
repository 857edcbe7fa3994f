-- ===== src/Gui/Cells.antt =====
-- What stands on the display behind `GUI_update`: the texts of the four readings, each in its place.
use quark_meteo_station.Base.{
  ℕ, zero, suc, ◌+◌, ◌-◌, ◌*◌, ◌/◌, ◌%◌, ◌^◌, ◌≤◌, ◌<◌, ◌≡◌, refl, sym, ap, ◌∙◌, arith, false, List,
  ◌∷◌, ◌++◌, codes, length, length-append, replicate, inl, inr,
}
use quark_meteo_station.Base.Int.{ℤ, pos, negsuc, pos_part, neg_part, div_ℤ, mod_ℤ}
use quark_meteo_station.Bmp280
use quark_meteo_station.Ds18b20
use quark_meteo_station.Dht11
use quark_meteo_station.Hd44780.Bus.{Msg, said}
use quark_meteo_station.Hd44780.Integer.{int_text, said-append}
use quark_meteo_station.Hd44780.Memory.{
  Memory, memory, IsForward, said-IsForward, typed, read, at, memory-said, read-typed_apart,
  read-typed,
}
use quark_meteo_station.Utoa.Decimal.{decimal, length-decimal}
use quark_meteo_station.Gui.Layout.{
  at_top, at_bottom, hundredths_text, sign_text, bmp280_msgs, ds18b20_msgs, dht11_msgs,
}

-- What an update sends, and the four texts in it.
abbrev pub screen_msgs : Bmp280.Meas → Ds18b20.Meas → Dht11.Meas → List Msg → List Msg
screen_msgs x y z ms = dht11_msgs z (ds18b20_msgs y (bmp280_msgs x ms))

abbrev pub temperature_text : Bmp280.Meas → List ℕ
temperature_text x =
    hundredths_text (div_ℤ x.temperature 100) (mod_ℤ x.temperature 100) (codes "C ")

abbrev pub pressure_text : Bmp280.Meas → List ℕ
pressure_text x = hundredths_text (pos (x.pressure / 100)) (pos (x.pressure % 100)) (codes "hPa ")

abbrev pub outdoor_text : Ds18b20.Meas → List ℕ
outdoor_text y = sign_text y.sign ∷ hundredths_text (pos y.integer) (pos y.fraction) (codes "C ")

abbrev pub humidity_text : Dht11.Meas → List ℕ
humidity_text z = int_text (pos z.humidity) 0 ++ codes "%"

-- The texts stand where the layout has them: the indoor temperature from column 4 of the first row on,
-- the pressure below it, the outdoor temperature from column 14 on, the humidity from column 18 below.
abbrev pub Displays : Bmp280.Meas → Ds18b20.Meas → Dht11.Meas → (ℕ → ℕ) → Type 0
Displays x y z cell =
    (read 3 (length (temperature_text x)) cell ≡ temperature_text x)
    × (read 67 (length (pressure_text x)) cell ≡ pressure_text x)
    × (read 13 (length (outdoor_text y)) cell ≡ outdoor_text y)
    × (read 81 (length (humidity_text z)) cell ≡ humidity_text z)

module _ (m : Memory) (ms : List Msg) (t p o h : List ℕ) (short : length t ≤ 10)
    (fits : length p ≤ 14) (fits_outdoor : length o ≤ 26) (fits_humid : length h ≤ 22)
    (forward : IsForward (memory m ms)) where
  abbrev cells : ℕ → ℕ
  cells = typed h 81 (typed o 13 (typed p 67 (typed t 3 (memory m ms).cell)))

  texts-cells :
      memory m
        (said h (at_bottom 18 ∷ said o (at_top 14 ∷ said p (at_bottom 4 ∷ said t (at_top 4 ∷ ms)))))
      ≡ at (memory m ms) (81 + length h) cells
  texts-cells =
      let f₁ = typed t 3 (memory m ms).cell in
      let f₂ = typed p 67 f₁ in
      let f₃ = typed o 13 f₂ in
      let l₁ = at_top 4 ∷ ms in
      let l₂ = at_bottom 4 ∷ said t l₁ in
      let l₃ = at_top 14 ∷ said p l₂ in
      let l₄ = at_bottom 18 ∷ said o l₃ in
      let k = memory m ms in
      let e₁ = memory-said m k t 3 (memory m ms).cell l₁ forward (inl (omega arith)) refl in
      let e₂ =
        memory-said m k p 67 f₁ l₂ forward (inr (omega arith, omega arith))
          (ap (λ (x : Memory). record x { cursor = 67; in_glyphs = false }) e₁) in
      let e₃ =
        memory-said m k o 13 f₂ l₃ forward (inl (omega arith))
          (ap (λ (x : Memory). record x { cursor = 13; in_glyphs = false }) e₂) in
      memory-said m k h 81 f₃ l₄ forward (inr (omega arith, omega arith))
        (ap (λ (x : Memory). record x { cursor = 81; in_glyphs = false }) e₃)

  texts-read :
      (read 3 (length t) cells ≡ t)
      × (read 67 (length p) cells ≡ p)
      × (read 13 (length o) cells ≡ o)
      × (read 81 (length h) cells ≡ h)
  texts-read =
      let f₀ = (memory m ms).cell in
      let f₁ = typed t 3 f₀ in
      let f₂ = typed p 67 f₁ in
      let f₃ = typed o 13 f₂ in
      (
        read-typed_apart 3 (length t) 81 h f₃ (inl (omega arith))
            ∙ read-typed_apart 3 (length t) 13 o f₂ (inl (omega arith))
            ∙ read-typed_apart 3 (length t) 67 p f₁ (inl (omega arith))
            ∙ read-typed 3 t f₀,
        read-typed_apart 67 (length p) 81 h f₃ (inl (omega arith))
            ∙ read-typed_apart 67 (length p) 13 o f₂ (inr (omega arith))
            ∙ read-typed 67 p f₁,
        read-typed_apart 13 (length o) 81 h f₃ (inl (omega arith)) ∙ read-typed 13 o f₂,
        read-typed 81 h f₃,
      )

length-replicate : (n c : ℕ) → length (replicate n c) ≡ n
length-replicate zero c = refl
length-replicate (suc n) c = ap suc (length-replicate n c)

-- A number of so many digits, that are enough for the zeros asked for too.
length-int_text :
    (j n required : ℕ)
    → n < 10 ^ suc j
    → required ≤ suc j
    → length (int_text (pos n) required) ≤ suc j
unfolding int_text
length-int_text j n required small few =
    let zeros : List ℕ = replicate (required - length (decimal n)) b'0' in
    omega (
      arith,
      length-append zeros (decimal n),
      length-replicate (required - length (decimal n)) 48,
      length-decimal j n small,
    )

pub length-hundredths_text :
    (j k whole part : ℕ) (unit : List ℕ)
    → whole < 10 ^ suc j
    → part < 10 ^ suc k
    → 1 ≤ k
    → length (hundredths_text (pos whole) (pos part) unit) ≤ j + k + 3 + length unit
length-hundredths_text j k whole part unit small fits two = omega (
  arith,
  length-append (int_text (pos whole) 0) (b'.' ∷ (int_text (pos part) 2 ++ unit)),
  length-append (int_text (pos part) 2) unit,
  length-int_text j whole 0 small (omega arith),
  length-int_text k part 2 fits (omega arith),
)

-- An indoor measurement that a place on the display has room for.
abbrev pub HasRoom : Bmp280.Meas → Type 0
HasRoom x =
    (neg_part x.temperature ≡ 0) × (pos_part x.temperature < 1000000) × (x.pressure < 100000000)

pub length-temperature_text :
    (j : ℕ) (a : ℤ)
    → neg_part a ≡ 0
    → pos_part a < 100 * 10 ^ suc j
    → length (hundredths_text (div_ℤ a 100) (mod_ℤ a 100) (codes "C ")) ≤ j + 6
unfolding div_ℤ mod_ℤ
length-temperature_text j (pos n) e h =
    let e₁ : div_ℤ (pos n) 100 ≡ pos (n / 100) = ground arith in
    let e₂ : mod_ℤ (pos n) 100 ≡ pos (n % 100) = ground arith in
    let bound =
      length-hundredths_text j 1 (n / 100) (n % 100) (codes "C ") (omega arith) (omega arith)
        (omega arith) in
    rw (e₁, e₂) (omega arith)
length-temperature_text j (negsuc n) e h = absurd (omega arith)

-- Readings that their places have room for.
abbrev pub Fit : Bmp280.Meas → Ds18b20.Meas → Dht11.Meas → Type 0
Fit x y z = HasRoom x × (y.integer < 256) × (y.fraction < 256) × (z.humidity < 256)

abbrev pub AreShort : Bmp280.Meas → Ds18b20.Meas → Dht11.Meas → Type 0
AreShort x y z =
    (length (temperature_text x) ≤ 10)
    × (length (pressure_text x) ≤ 14)
    × (length (outdoor_text y) ≤ 26)
    × (length (humidity_text z) ≤ 22)

pub Fit-AreShort :
    (x : Bmp280.Meas) (y : Ds18b20.Meas) (z : Dht11.Meas) → Fit x y z → AreShort x y z
Fit-AreShort x y z ((e, t, p), i, f, h) = (
  omega (arith, length-temperature_text 3 x.temperature e (omega arith)),
  omega (
    arith,
    length-hundredths_text 5 1 (x.pressure / 100) (x.pressure % 100) (codes "hPa ") (omega arith)
        (omega arith) (omega arith),
  ),
  omega (
    arith,
    length-hundredths_text 2 2 y.integer y.fraction (codes "C ") (omega arith) (omega arith)
        (omega arith),
  ),
  omega (
    arith,
    length-append (int_text (pos z.humidity) 0) (codes "%"),
    length-int_text 2 z.humidity 0 (omega arith) (omega arith),
  ),
)

-- The cells behind an update.
abbrev pub shown_cells : Bmp280.Meas → Ds18b20.Meas → Dht11.Meas → (ℕ → ℕ) → ℕ → ℕ
shown_cells x y z cell =
    typed (humidity_text z) 81
      (typed (outdoor_text y) 13 (typed (pressure_text x) 67 (typed (temperature_text x) 3 cell)))

pub screen_msgs-cells :
    (m : Memory) (ms : List Msg) (x : Bmp280.Meas) (y : Ds18b20.Meas) (z : Dht11.Meas)
    → Fit x y z
    → IsForward (memory m ms)
    → (memory m (screen_msgs x y z ms)).cell ≡ shown_cells x y z (memory m ms).cell
screen_msgs-cells m ms x y z fits forward =
    let (s₁, s₂, s₃, s₄) = Fit-AreShort x y z fits in
    let o = outdoor_text y in
    let p = pressure_text x in
    let t = temperature_text x in
    let before =
      at_bottom 18 ∷ said o (at_top 14 ∷ said p (at_bottom 4 ∷ said t (at_top 4 ∷ ms))) in
    ap (λ l. (memory m l).cell) (sym (said-append (int_text (pos z.humidity) 0) (codes "%") before))
    ∙ ap (λ (k : Memory). k.cell) (texts-cells m ms t p o (humidity_text z) s₁ s₂ s₃ s₄ forward)

-- Behind every update with an indoor temperature from 0 to 9999.99 degrees, a pressure below a million
-- hPa and bytes, the four texts stand in their places, whatever stood on a display whose cursor moves
-- to the right and whose picture stands still.
pub screen_msgs-Displays :
    (m : Memory) (ms : List Msg) (x : Bmp280.Meas) (y : Ds18b20.Meas) (z : Dht11.Meas)
    → Fit x y z
    → IsForward (memory m ms)
    → Displays x y z (memory m (screen_msgs x y z ms)).cell
screen_msgs-Displays m ms x y z fits forward =
    let (s₁, s₂, s₃, s₄) = Fit-AreShort x y z fits in
    rw (screen_msgs-cells m ms x y z fits forward) (
      texts-read m ms (temperature_text x) (pressure_text x) (outdoor_text y) (humidity_text z) s₁
        s₂ s₃ s₄ forward)

-- The entry mode and the picture stay.
pub screen_msgs-IsForward :
    (m : Memory) (ms : List Msg) (x : Bmp280.Meas) (y : Ds18b20.Meas) (z : Dht11.Meas)
    → IsForward (memory m ms)
    → IsForward (memory m (screen_msgs x y z ms))
screen_msgs-IsForward m ms x y z h =
    let l₁ = at_top 4 ∷ ms in
    let l₂ = at_bottom 4 ∷ said (temperature_text x) l₁ in
    let l₃ = at_top 14 ∷ said (pressure_text x) l₂ in
    let l₄ = at_bottom 18 ∷ said (outdoor_text y) l₃ in
    let h₁ = said-IsForward m (temperature_text x) l₁ h in
    let h₂ = said-IsForward m (pressure_text x) l₂ h₁ in
    let h₃ = said-IsForward m (outdoor_text y) l₃ h₂ in
    let h₄ = said-IsForward m (int_text (pos z.humidity) 0) l₄ h₃ in
    said-IsForward m (codes "%") (said (int_text (pos z.humidity) 0) l₄) h₄
