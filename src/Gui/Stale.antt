-- ===== src/Gui/Stale.antt =====
-- Where `GUI_update` leaves old characters on the display: behind the humidity.
use quark_meteo_station.Base.{
  ℕ, ◌+◌, ◌/◌, ◌%◌, ◌≤◌, ◌<◌, ◌≡◌, refl, ap, ◌∙◌, arith, List, [], ◌∷◌, ◌++◌, codes, length,
}
use quark_meteo_station.Base.Int.{pos}
use quark_meteo_station.Bmp280
use quark_meteo_station.Ds18b20
use quark_meteo_station.Dht11
use quark_meteo_station.Hd44780.Bus.{Msg}
use quark_meteo_station.Hd44780.Integer.{int_text}
use quark_meteo_station.Hd44780.Memory.{Memory, memory, IsForward, Forward, read, typed-behind}
use quark_meteo_station.Utoa.Decimal.{decimal, decimal_of, decimal_of_small, decimal_of_large}
use quark_meteo_station.Board.{Board}
use quark_meteo_station.Base.{some}
use quark_meteo_station.Hd44780.{display_20x2}
use quark_meteo_station.Hd44780.Interface.{Display}
use quark_meteo_station.Gui.{Pointers, update}
use quark_meteo_station.Gui.Interface.{AreInRange}
use quark_meteo_station.Gui.Layout.{update-Shows}
use quark_meteo_station.Gui.Cells.{
  HasRoom, screen_msgs, temperature_text, pressure_text, outdoor_text, humidity_text, Fit, AreShort,
  Fit-AreShort, shown_cells, screen_msgs-cells, screen_msgs-IsForward,
}

-- The last column of the second row stays under a humidity of one digit.
last_column :
    (x : Bmp280.Meas) (y : Ds18b20.Meas) (z : Dht11.Meas) (cell : ℕ → ℕ)
    → AreShort x y z
    → length (humidity_text z) ≤ 2
    → shown_cells x y z cell 83 ≡ cell 83
last_column x y z cell (s₁, s₂, s₃, s₄) few =
    typed-behind (humidity_text z) 81 83 _ (omega arith)
    ∙ typed-behind (outdoor_text y) 13 83 _ (omega arith)
    ∙ typed-behind (pressure_text x) 67 83 _ (omega arith)
    ∙ typed-behind (temperature_text x) 3 83 cell (omega arith)

one_digit : (n : ℕ) → n < 10 → int_text (pos n) 0 ≡ (n + 48) ∷ []
unfolding int_text decimal
one_digit n h = rw (decimal_of_small 9 n (ground arith)) (ap (λ c. c ∷ []) (omega arith))

two_digits : (n : ℕ) → 10 ≤ n → n < 100 → int_text (pos n) 0 ≡ (n / 10 + 48) ∷ (n % 10 + 48) ∷ []
unfolding int_text decimal
two_digits n lo hi =
    let e : decimal_of 10 n ≡ (n / 10 + 48) ∷ (n % 10 + 48) ∷ [] =
      rw (decimal_of_large 9 n (ground arith), decimal_of_small 8 (n / 10) (ground arith))
        (ap (λ c. c ∷ (n % 10 + 48) ∷ []) (omega arith)) in
    rw e refl

-- What stands there behind two updates.
screen_msgs-stale :
    (m : Memory) (ms : List Msg) (x x' : Bmp280.Meas) (y y' : Ds18b20.Meas) (z z' : Dht11.Meas)
    → Fit x y z
    → Fit x' y' z'
    → 10 ≤ z.humidity
    → z.humidity < 100
    → z'.humidity < 10
    → IsForward (memory m ms)
    → read 81 3 (memory m (screen_msgs x' y' z' (screen_msgs x y z ms))).cell
      ≡ (z'.humidity + 48) ∷ b'%' ∷ b'%' ∷ []
screen_msgs-stale m ms x x' y y' z z' fits fits' lo hi few forward =
    let f₁ = shown_cells x y z (memory m ms).cell in
    let f₂ = shown_cells x' y' z' f₁ in
    let h = ap (λ l. l ++ codes "%") (two_digits z.humidity lo hi) in
    let h' = ap (λ l. l ++ codes "%") (one_digit z'.humidity few) in
    let is =
      screen_msgs-cells m (screen_msgs x y z ms) x' y' z' fits'
        (screen_msgs-IsForward m ms x y z forward)
      ∙ ap (shown_cells x' y' z') (screen_msgs-cells m ms x y z fits forward) in
    let first : f₂ 81 ≡ z'.humidity + 48 = rw h' refl in
    let second : f₂ 82 ≡ b'%' = rw h' refl in
    let kept : f₂ 83 ≡ f₁ 83 =
      last_column x' y' z' f₁ (Fit-AreShort x' y' z' fits') (omega (arith, ap length h')) in
    let old : f₁ 83 ≡ b'%' = rw h refl in rw is (cc (first, second, kept, old))

module _ (lcd : Display) (wide : lcd.config.type ≡ display_20x2) {M : Type 0} (p : Pointers M) where
  open lcd use {Shows}

  -- Nothing clears the place behind the humidity. On a 20x2 display that has taken every byte sent to
  -- it before, and whose cursor behind these moves to the right under a picture that stands unmoved,
  -- where a memory and then another are drawn whose readings are in their ranges and have room, the
  -- humidity of the first of two digits and that of the second of one: both updates return, and in
  -- the last three columns of the second row the display then shows the new digit, its sign of per
  -- cent and the old one, whatever its memory held at first.
  pub update-stale :
      (m m' : M) (b : Board) {ms : List Msg}
      → AreInRange (p.bmp280_meas m) (p.ds18b20_meas m) (p.dht11_meas m)
      → AreInRange (p.bmp280_meas m') (p.ds18b20_meas m') (p.dht11_meas m')
      → HasRoom (p.bmp280_meas m)
      → HasRoom (p.bmp280_meas m')
      → 10 ≤ (p.dht11_meas m).humidity
      → (p.dht11_meas m).humidity < 100
      → (p.dht11_meas m').humidity < 10
      → Shows b ms
      → Forward ms
      → (b₁ b₂ : Board) × (update lcd p m b ≡ some b₁)
        × (update lcd p m' b₁ ≡ some b₂)
        × (ms' : List Msg) × Shows b₂ ms'
        × ((start : Memory)
            → read 81 3 (memory start ms').cell
              ≡ ((p.dht11_meas m').humidity + 48) ∷ b'%' ∷ b'%' ∷ [])
  update-stale m m' b {ms} r r' room room' lo hi few s forward =
      let (b₁, e₁, s₁) =
        update-Shows lcd wide p m b r.temperature r.pressure r.integer r.fraction r.humidity s in
      let (b₂, e₂, s₂) =
        update-Shows lcd wide p m' b₁ r'.temperature r'.pressure r'.integer r'.fraction r'.humidity
          s₁ in
      (
        b₁,
        b₂,
        e₁,
        e₂,
        _,
        s₂,
        λ start.
            screen_msgs-stale start ms (p.bmp280_meas m) (p.bmp280_meas m') (p.ds18b20_meas m)
              (p.ds18b20_meas m') (p.dht11_meas m) (p.dht11_meas m')
              (room, r.integer, r.fraction, r.humidity)
              (room', r'.integer, r'.fraction, r'.humidity) lo hi few (forward start),
      )
