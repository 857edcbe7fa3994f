-- ===== src/Gui/Interface.antt =====
-- GUI.h: what the module offers to main.c, and that GUI.c is one.
use quark_meteo_station.Base.{◌^◌, ◌<◌, ◌≡◌, Option, some, List}
use quark_meteo_station.Board.{Board}
use quark_meteo_station.Board.Untouched.{Untouched, Quiet}
use quark_meteo_station.Bmp280
use quark_meteo_station.Ds18b20
use quark_meteo_station.Dht11
use quark_meteo_station.Hd44780.{display_20x2}
use quark_meteo_station.Hd44780.Interface.{Display}
use quark_meteo_station.Hd44780.Bus.{Msg}
use quark_meteo_station.Gui
use quark_meteo_station.Gui.{Pointers, draw_layout}
use quark_meteo_station.Hd44780.Memory.{Forward}
use quark_meteo_station.Gui.Labels.{layout_msgs, layout_msgs-Forward, draw_layout-Shows}
use quark_meteo_station.Gui.Cells.{screen_msgs, screen_msgs-IsForward}
use quark_meteo_station.Gui.Quiet.{update-Quiet}
use quark_meteo_station.Gui.Layout.{IsInt32, update-Shows}

-- Numbers that the C types of the measurements can hold.
pub record AreInRange (indoor : Bmp280.Meas) (outdoor : Ds18b20.Meas) (humid : Dht11.Meas)
    : Type 0 where
  pub temperature : IsInt32 indoor.temperature
  pub pressure : indoor.pressure < 2 ^ 32
  pub integer : outdoor.integer < 256
  pub fraction : outdoor.fraction < 256
  pub humidity : humid.humidity < 256

-- `IsReady` is a board on which an update may start: the display waits for a byte, its cursor moves to
-- the right and its picture stands still. A start and an
-- update keep it, and so does what sets no level; an update with numbers in range returns, and then
-- these measurements are drawn. No update sends anything to the modem.
pub record Screen : Type 1 where
  pub IsReady : Board → Type 0
  pub Drawn : Bmp280.Meas → Ds18b20.Meas → Dht11.Meas → Board → Type 0
  pub gui_init :
      {M : Type 0}
      → (M → Bmp280.Meas)
      → (M → Ds18b20.Meas)
      → (M → Dht11.Meas)
      → Board
      → Pointers M × Board
  pub gui_update : {M : Type 0} → Pointers M → M → Board → Option Board
  pub Untouched-IsReady : {b b' : Board} → Untouched b b' → IsReady b → IsReady b'
  pub init-IsReady :
      {M : Type 0} (indoor : M → Bmp280.Meas) (outdoor : M → Ds18b20.Meas) (humid : M → Dht11.Meas)
      (b : Board)
      → IsReady b
      → IsReady (gui_init indoor outdoor humid b).1
  pub update-IsReady :
      {M : Type 0} (p : Pointers M) (m : M) (b : Board)
      → AreInRange (p.bmp280_meas m) (p.ds18b20_meas m) (p.dht11_meas m)
      → IsReady b
      → (b' : Board) × (gui_update p m b ≡ some b')
        × IsReady b'
        × Drawn (p.bmp280_meas m) (p.ds18b20_meas m) (p.dht11_meas m) b'
  pub update-Quiet :
      {M : Type 0} (p : Pointers M) (m : M) (b b' : Board) → gui_update p m b ≡ some b' → Quiet b b'

module _ (lcd : Display) where
  open lcd use {Shows}

  abbrev pub Waits : Board → Type 0
  Waits b = (ms : List Msg) × Shows b ms × Forward ms

  -- The last messages are those of an update with these measurements.
  abbrev pub HasDrawn : Bmp280.Meas → Ds18b20.Meas → Dht11.Meas → Board → Type 0
  HasDrawn x y z b = (ms : List Msg) × Shows b (screen_msgs x y z ms) × Forward ms

  module _ (wide : lcd.config.type ≡ display_20x2) where
    pub init-Waits :
        {M : Type 0} (indoor : M → Bmp280.Meas) (outdoor : M → Ds18b20.Meas)
        (humid : M → Dht11.Meas) (b : Board)
        → Waits b
        → Waits (Gui.init lcd indoor outdoor humid b).1
    unfolding Gui.init
    init-Waits indoor outdoor humid b (ms, w, forward) =
        (layout_msgs ms, draw_layout-Shows lcd wide b w, layout_msgs-Forward ms forward)

    pub update-Waits :
        {M : Type 0} (p : Pointers M) (m : M) (b : Board)
        → AreInRange (p.bmp280_meas m) (p.ds18b20_meas m) (p.dht11_meas m)
        → Waits b
        → (b' : Board) × (Gui.update lcd p m b ≡ some b')
          × Waits b'
          × HasDrawn (p.bmp280_meas m) (p.ds18b20_meas m) (p.dht11_meas m) b'
    update-Waits p m b r (ms, w, forward) =
        let (b', e, w') =
          update-Shows lcd wide p m b r.temperature r.pressure r.integer r.fraction r.humidity w in
        (
          b',
          e,
          (
            _,
            w',
            λ start.
                screen_msgs-IsForward start ms (p.bmp280_meas m) (p.ds18b20_meas m) (p.dht11_meas m)
                  (forward start),
          ),
          (ms, w', forward),
        )

    -- GUI.c, on a 20x2 display.
    abbrev pub screen : Screen
    screen = record {
      IsReady = Waits;
      Drawn = HasDrawn;
      gui_init = Gui.init lcd;
      gui_update = Gui.update lcd;
      Untouched-IsReady = λ u (ms, w, forward). (ms, lcd.Untouched-Shows u w, forward);
      init-IsReady = init-Waits;
      update-IsReady = update-Waits;
      update-Quiet = update-Quiet lcd;
    }
