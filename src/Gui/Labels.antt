-- ===== src/Gui/Labels.antt =====
-- The labels of the layout, which `GUI_init` draws once and no update draws again.
use quark_meteo_station.Base.{
  ℕ, ◌/◌, ◌%◌, ◌≤◌, ◌<◌, ◌≡◌, refl, ◌∙◌, arith, inl, inr, Option, some, false, List, [], ◌∷◌, codes,
  length, All,
}
use quark_meteo_station.Base.Int.{pos_part, neg_part}
use quark_meteo_station.Board.{Board}
use quark_meteo_station.Bmp280
use quark_meteo_station.Ds18b20
use quark_meteo_station.Dht11
use quark_meteo_station.Hd44780.{display_20x2}
use quark_meteo_station.Hd44780.Interface.{Display}
use quark_meteo_station.Hd44780.Bus.{Msg, said}
use quark_meteo_station.Hd44780.Memory.{
  Memory, memory, IsForward, Forward, said-IsForward, read, IsApart, read-typed_apart, typed,
}
use quark_meteo_station.Gui
use quark_meteo_station.Gui.{Pointers, draw_layout, update, ◌>>=◌}
use quark_meteo_station.Gui.Layout.{at_top, at_bottom, top-Shows, bottom-Shows, update-Shows}
use quark_meteo_station.Gui.Cells.{
  screen_msgs-IsForward, screen_msgs, temperature_text, pressure_text, outdoor_text, humidity_text,
  Displays, Fit, Fit-AreShort, length-temperature_text, length-hundredths_text, shown_cells,
  screen_msgs-cells, screen_msgs-Displays,
}

-- The labels in their places: "I:" and "P:" at the start of the rows, "O:" from column 12 of the first
-- on, "H:" from column 15 of the second.
abbrev pub IsLabelled : (ℕ → ℕ) → Type 0
IsLabelled cell =
    (read 0 3 cell ≡ codes "I: ")
    × (read 64 3 cell ≡ codes "P: ")
    × (read 11 2 cell ≡ codes "O:")
    × (read 78 3 cell ≡ codes "H: ")

-- Readings that leave the labels room: an indoor temperature from 0 to below 1000 degrees, a pressure
-- below 10000 hPa, and bytes.
abbrev pub LeaveRoom : Bmp280.Meas → Ds18b20.Meas → Dht11.Meas → Type 0
LeaveRoom x y z =
    (neg_part x.temperature ≡ 0)
    × (pos_part x.temperature < 100000)
    × (x.pressure < 1000000)
    × (y.integer < 256)
    × (y.fraction < 256)
    × (z.humidity < 256)

LeaveRoom-Fit : (x : Bmp280.Meas) (y : Ds18b20.Meas) (z : Dht11.Meas) → LeaveRoom x y z → Fit x y z
LeaveRoom-Fit x y z (e, t, p, i, f, h) = ((e, omega arith, omega arith), i, f, h)

-- A place apart from those of the four readings is kept.
shown_cells-apart :
    (x : Bmp280.Meas) (y : Ds18b20.Meas) (z : Dht11.Meas) (cell : ℕ → ℕ) (a n : ℕ)
    → IsApart a n 81 (length (humidity_text z))
    → IsApart a n 13 (length (outdoor_text y))
    → IsApart a n 67 (length (pressure_text x))
    → IsApart a n 3 (length (temperature_text x))
    → read a n (shown_cells x y z cell) ≡ read a n cell
shown_cells-apart x y z cell a n h₁ h₂ h₃ h₄ =
    let f₁ = typed (temperature_text x) 3 cell in
    let f₂ = typed (pressure_text x) 67 f₁ in
    let f₃ = typed (outdoor_text y) 13 f₂ in
    read-typed_apart a n 81 (humidity_text z) f₃ h₁
    ∙ read-typed_apart a n 13 (outdoor_text y) f₂ h₂
    ∙ read-typed_apart a n 67 (pressure_text x) f₁ h₃
    ∙ read-typed_apart a n 3 (temperature_text x) cell h₄

shown_cells-IsLabelled :
    (x : Bmp280.Meas) (y : Ds18b20.Meas) (z : Dht11.Meas) (cell : ℕ → ℕ)
    → LeaveRoom x y z
    → IsLabelled cell
    → IsLabelled (shown_cells x y z cell)
shown_cells-IsLabelled x y z cell room (l₁, l₂, l₃, l₄) =
    let (e, t, p, i, f, h) = room in
    let (_, _, s₃, s₄) = Fit-AreShort x y z (LeaveRoom-Fit x y z room) in
    let s₁ : length (temperature_text x) ≤ 8 =
      length-temperature_text 2 x.temperature e (omega arith) in
    let s₂ : length (pressure_text x) ≤ 11 =
      length-hundredths_text 3 1 (x.pressure / 100) (x.pressure % 100) (codes "hPa ") (omega arith)
        (omega arith) (omega arith) in
    (
      shown_cells-apart x y z cell 0 3 (inl (omega arith)) (inl (omega arith)) (inl (omega arith))
            (inl (omega arith))
          ∙ l₁,
      shown_cells-apart x y z cell 64 3 (inl (omega arith)) (inr (omega arith)) (inl (omega arith))
            (inr (omega arith))
          ∙ l₂,
      shown_cells-apart x y z cell 11 2 (inl (omega arith)) (inl (omega arith)) (inl (omega arith))
            (inr (omega arith))
          ∙ l₃,
      shown_cells-apart x y z cell 78 3 (inl (omega arith)) (inr (omega arith)) (inr (omega arith))
            (inr (omega arith))
          ∙ l₄,
    )

-- What `GUI_init` sends, and what then stands on the display, whatever stood there.
abbrev pub layout_msgs : List Msg → List Msg
layout_msgs ms = said (codes "H: ") (
    at_bottom 15
    ∷ said (codes "O: ") (
        at_top 12
        ∷ said (codes "P: ") (at_bottom 1 ∷ said (codes "I: ") ((false, 128) ∷ (false, 1) ∷ ms))))

layout_msgs-IsLabelled :
    (start : Memory) (ms : List Msg)
    → IsForward (memory start ms)
    → IsLabelled (memory start (layout_msgs ms)).cell
layout_msgs-IsLabelled start ms h = rw h.0 (refl, refl, refl, refl)

pub layout_msgs-Forward : (ms : List Msg) → Forward ms → Forward (layout_msgs ms)
layout_msgs-Forward ms h start =
    let l₁ : List Msg = (false, 128) ∷ (false, 1) ∷ ms in
    let l₂ = at_bottom 1 ∷ said (codes "I: ") l₁ in
    let l₃ = at_top 12 ∷ said (codes "P: ") l₂ in
    let l₄ = at_bottom 15 ∷ said (codes "O: ") l₃ in
    let h₁ = said-IsForward start (codes "I: ") l₁ ((h start).0, (h start).1, refl) in
    let h₂ = said-IsForward start (codes "P: ") l₂ h₁ in
    let h₃ = said-IsForward start (codes "O: ") l₃ h₂ in said-IsForward start (codes "H: ") l₄ h₃

-- Messages behind which every display is labelled, its cursor moves to the right and its picture stands
-- still.
abbrev Labels : List Msg → Type 0
Labels ms = (start : Memory) → IsForward (memory start ms) × IsLabelled (memory start ms).cell

screen_msgs-Labels :
    (x : Bmp280.Meas) (y : Ds18b20.Meas) (z : Dht11.Meas) (ms : List Msg)
    → LeaveRoom x y z
    → Labels ms
    → Labels (screen_msgs x y z ms)
screen_msgs-Labels x y z ms room l start =
    let (forward, labels) = l start in
    (
      screen_msgs-IsForward start ms x y z forward,
      rw (screen_msgs-cells start ms x y z (LeaveRoom-Fit x y z room) forward)
          (shown_cells-IsLabelled x y z (memory start ms).cell room labels),
    )

module _ (lcd : Display) (wide : lcd.config.type ≡ display_20x2) where
  open lcd use {Shows}

  pub draw_layout-Shows :
      (b : Board) {ms : List Msg}
      → Shows b ms
      → Shows (Gui.draw_layout lcd (lcd.clear b)) (layout_msgs ms)
  unfolding draw_layout
  draw_layout-Shows b s =
      let space : b' ' < 256 = omega arith in
      let s₁ =
        lcd.write_string-Shows (codes "I: ") _ (omega arith, (omega arith, (space, tt)))
          (lcd.clear-Shows b s) in
      let s₂ =
        lcd.write_string-Shows (codes "P: ") _ (omega arith, (omega arith, (space, tt)))
          (bottom-Shows lcd wide 1 _ (omega arith) (omega arith) s₁) in
      let s₃ =
        lcd.write_string-Shows (codes "O: ") _ (omega arith, (omega arith, (space, tt)))
          (top-Shows lcd wide 12 _ (omega arith) (omega arith) s₂) in
      lcd.write_string-Shows (codes "H: ") _ (omega arith, (omega arith, (space, tt)))
        (bottom-Shows lcd wide 15 _ (omega arith) (omega arith) s₃)

  module _ {M : Type 0} (p : Pointers M) where
    -- One update for each memory.
    abbrev pub redraw : List M → Board → Option Board
    redraw [] b = some b
    redraw (m ∷ l) b = update lcd p m b >>= redraw l

    abbrev HasLabelRoom : M → Type 0
    HasLabelRoom m = LeaveRoom (p.bmp280_meas m) (p.ds18b20_meas m) (p.dht11_meas m)

    update-Labels :
        (m : M) (b : Board) {ms : List Msg}
        → HasLabelRoom m
        → Shows b ms
        → Labels ms
        → (b' : Board) × (update lcd p m b ≡ some b')
          × (ms' : List Msg) × Shows b' ms'
          × Labels ms'
          × ((start : Memory)
              → Displays
                  (p.bmp280_meas m)
                  (p.ds18b20_meas m)
                  (p.dht11_meas m)
                  (memory start ms').cell)
    update-Labels m b {ms} room s l =
        let (e, t, pr, i, f, h) = room in
        let x = p.bmp280_meas m in
        let y = p.ds18b20_meas m in
        let z = p.dht11_meas m in
        let (b', is, s') =
          update-Shows lcd wide p m b (omega arith, omega arith) (omega arith) i f h s in
        (
          b',
          is,
          screen_msgs x y z ms,
          s',
          screen_msgs-Labels x y z ms room l,
          λ start. screen_msgs-Displays start ms x y z (LeaveRoom-Fit x y z room) (l start).0,
        )

    redraw-Labels :
        (l : List M) (b : Board) {ms : List Msg}
        → All HasLabelRoom l
        → Shows b ms
        → Labels ms
        → (b' : Board) × (redraw l b ≡ some b') × (ms' : List Msg) × Shows b' ms' × Labels ms'
    redraw-Labels [] b {ms} rooms s h = (b, refl, ms, s, h)
    redraw-Labels (m ∷ l) b rooms s h =
        let (b₁, e₁, ms₁, s₁, h₁, _) = update-Labels m b rooms.0 s h in
        let (b₂, e₂, ms₂, s₂, h₂) = redraw-Labels l b₁ rooms.1 s₁ h₁ in (b₂, rw e₁ e₂, ms₂, s₂, h₂)

  -- On a 20x2 display that has taken every byte sent to it before, and whose cursor behind these
  -- moves to the right under a picture that stands unmoved: behind the start of the screen and an
  -- update for each of any number of memories whose readings leave the labels room (an indoor
  -- temperature from 0 to below 1000 degrees, a pressure below 10000 hPa, bytes for the others), all
  -- of which return, a further update with such readings returns, and then, whatever the memory of
  -- the display held at first, the entry mode and the picture are as before, and the four labels of
  -- the layout and the texts of the last readings all stand in their places.
  pub init-redraw :
      {M : Type 0} (indoor : M → Bmp280.Meas) (outdoor : M → Ds18b20.Meas) (humid : M → Dht11.Meas)
      (l : List M) (m : M) (b : Board) {ms : List Msg}
      → All (λ k. LeaveRoom (indoor k) (outdoor k) (humid k)) l
      → LeaveRoom (indoor m) (outdoor m) (humid m)
      → Shows b ms
      → Forward ms
      → (b₁ b₂ : Board) × (redraw
            (Gui.init lcd indoor outdoor humid b).0
            l
            (Gui.init lcd indoor outdoor humid b).1
          ≡ some b₁)
        × (update lcd (Gui.init lcd indoor outdoor humid b).0 m b₁ ≡ some b₂)
        × (ms' : List Msg) × Shows b₂ ms'
        × ((start : Memory)
            → IsForward (memory start ms')
              × IsLabelled (memory start ms').cell
              × Displays (indoor m) (outdoor m) (humid m) (memory start ms').cell)
  unfolding Gui.init
  init-redraw indoor outdoor humid l m b {ms} rooms room s forward =
      let p : Pointers _ = (Gui.init lcd indoor outdoor humid b).0 in
      let (b₁, e₁, ms₁, s₁, h₁) = redraw-Labels p l _ rooms (draw_layout-Shows b s) (λ start.
        (layout_msgs-Forward ms forward start, layout_msgs-IsLabelled start ms (forward start))) in
      let (b₂, e₂, ms₂, s₂, h₂, shown) = update-Labels p m b₁ room s₁ h₁ in
      (b₁, b₂, e₁, e₂, ms₂, s₂, λ start. ((h₂ start).0, (h₂ start).1, shown start))
