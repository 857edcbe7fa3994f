-- ===== src/Station/Progress.antt =====
-- The measurements of a round of main.c's loop: what the interfaces of its parts promise, put
-- together.
use quark_meteo_station.Base.{ℕ, ◌+◌, ◌^◌, ◌<◌, ◌≡◌, refl, ap, ◌∙◌, arith, Returns}
use quark_meteo_station.Board.Untouched.{Silent-Untouched}
use quark_meteo_station.Average.{Pointers, Statics}
use quark_meteo_station.Average.Counts.{Counts, Stores}
use quark_meteo_station.Average.Mild.{AreBytes}
use quark_meteo_station.Gui
use quark_meteo_station.Gui.Interface.{AreInRange}
use quark_meteo_station.Gui.Layout.{IsInt32}
use quark_meteo_station.Station.{
  ReadoutState, request_conversion, get_measurement, Measurements, Devices, Parts, readout,
  measure_bmp280, measure_dht11,
}
use quark_meteo_station.Station.Boot.{average_pointers}

-- The pointers that `GUI_init` gets.
abbrev pub gui_pointers : Gui.Pointers Measurements
gui_pointers = record {
  bmp280_meas = λ m. m.indoor;
  ds18b20_meas = λ m. m.outdoor;
  dht11_meas = λ m. m.humid;
}

-- The measurements without the averages.
abbrev pub Same : Measurements → Measurements → Type 0
Same m m' = (m'.indoor ≡ m.indoor) × (m'.outdoor ≡ m.outdoor) × (m'.humid ≡ m.humid)

-- The averages are stored where no measurement is.
module _ (m : Measurements) (p : Pointers Measurements) (r : Measurements × Statics Measurements)
    (is : p ≡ average_pointers) where
  ds18b20-Same : Stores p.write_ds18b20_avg m p r → Same m r.0
  ds18b20-Same (avg, e, _) =
      let at = e ∙ ap (λ q. q.write_ds18b20_avg avg m) is in
      (ap (λ x. x.indoor) at, ap (λ x. x.outdoor) at, ap (λ x. x.humid) at)

  bmp280-Same : Stores p.write_bmp280_avg m p r → Same m r.0
  bmp280-Same (avg, e, _) =
      let at = e ∙ ap (λ q. q.write_bmp280_avg avg m) is in
      (ap (λ x. x.indoor) at, ap (λ x. x.outdoor) at, ap (λ x. x.humid) at)

  dht11-Same : Stores p.write_dht11_avg m p r → Same m r.0
  dht11-Same (avg, e, _) =
      let at = e ∙ ap (λ q. q.write_dht11_avg avg m) is in
      (ap (λ x. x.indoor) at, ap (λ x. x.outdoor) at, ap (λ x. x.humid) at)

module _ (parts : Parts) where
  open parts use {averaging, screen, outdoor, humid, indoor, registers, modem}

  -- The display waits, the pointers are those of `main`, and the outdoor temperature, which may be an
  -- older one, is of bytes.
  pub record IsReady (d : Devices) : Type 0 where
    pub screen_ready : screen.IsReady d.board
    pub gui : d.gui ≡ gui_pointers
    pub pointers : d.averages.pointers ≡ average_pointers
    pub bytes : AreBytes d.meas.outdoor

  pub readout-Returns :
      (s : ReadoutState) (d : Devices) (n : ℕ)
      → IsReady d
      → Counts n n n d.averages.sums
      → n < 65535
      → Returns (readout parts s d) (λ r. IsReady r.1 × Counts n (n + 1) n (r.1).averages.sums)
  unfolding readout
  readout-Returns request_conversion d n r c h =
      let d' = record d { board = outdoor.request_conversion d.board } in
      let ready =
        screen.Untouched-IsReady
          (Silent-Untouched d.board (outdoor.request_conversion d.board)
            (outdoor.request_conversion-Silent d.board))
          r.screen_ready in
      (
        (get_measurement, d'),
        refl,
        (
          record { screen_ready = ready; gui = r.gui; pointers = r.pointers; bytes = r.bytes },
          ground arith,
        ),
      )
  readout-Returns get_measurement d n r c h =
      let (meas, board) = outdoor.get_temperature d.board in
      let memory : Measurements = record (d.meas) { outdoor = meas } in
      let (x, e, (c', stored)) = averaging.update_ds18b20-Counts memory d.averages c h in
      let (i, o, h) = ds18b20-Same memory d.averages.pointers x r.pointers stored in
      let d' : Devices = record d { board = board; meas = x.0; averages = x.1 } in
      let ready =
        screen.Untouched-IsReady
          (Silent-Untouched d.board board (outdoor.get_temperature-Silent d.board))
          r.screen_ready in
      let bytes : AreBytes (x.0).outdoor = rw o (outdoor.get_temperature-lt d.board) in
      (
        (request_conversion, d'),
        rw e refl,
        (
          record {
            screen_ready = ready;
            gui = r.gui;
            pointers = stored.2 ∙ r.pointers;
            bytes = bytes;
          },
          c',
        ),
      )

  -- Ready, with every measurement in range.
  abbrev pub Measured : Devices → Type 0
  Measured d = IsReady d × AreInRange d.meas.indoor d.meas.outdoor d.meas.humid

  -- Ready, with the indoor measurement in range.
  abbrev IndoorReady : Devices → Type 0
  IndoorReady d =
      IsReady d × (IsInt32 d.meas.indoor.temperature × (d.meas.indoor.pressure < 2 ^ 32))

  pub measure_bmp280-Returns :
      (d : Devices) (n : ℕ)
      → IsReady d
      → Counts n (n + 1) n d.averages.sums
      → n < 65535
      → Returns
          (measure_bmp280 parts d)
          (λ r. IndoorReady r × Counts (n + 1) (n + 1) n r.averages.sums)
  unfolding measure_bmp280
  measure_bmp280-Returns d n r c small =
      let (meas, i2c, board) = indoor.get_measurement registers d.cal d.i2c d.board in
      let memory : Measurements = record (d.meas) { indoor = meas } in
      let (x, e, (c', stored)) = averaging.update_bmp280-Counts memory d.averages c small in
      let (i, o, h) = bmp280-Same memory d.averages.pointers x r.pointers stored in
      let d' : Devices = record d { board = board; i2c = i2c; meas = x.0; averages = x.1 } in
      let untouched =
        Silent-Untouched d.board board
          (indoor.get_measurement-Silent registers d.cal d.i2c d.board) in
      let ready = screen.Untouched-IsReady untouched r.screen_ready in
      let (p, t₁, t₂) = indoor.get_measurement-lt registers d.cal d.i2c d.board in
      let range : IsInt32 (x.0).indoor.temperature × ((x.0).indoor.pressure < 2 ^ 32) =
        rw i ((t₁, t₂), p) in
      (
        d',
        rw e refl,
        (
          (
            record {
              screen_ready = ready;
              gui = r.gui;
              pointers = stored.2 ∙ r.pointers;
              bytes = rw o r.bytes;
            },
            range,
          ),
          c',
        ),
      )

  pub measure_dht11-Returns :
      (d : Devices) (n : ℕ)
      → IndoorReady d
      → Counts (n + 1) (n + 1) n d.averages.sums
      → n < 65535
      → Returns
          (measure_dht11 parts d)
          (λ r. Measured r × Counts (n + 1) (n + 1) (n + 1) r.averages.sums)
  unfolding measure_dht11
  measure_dht11-Returns d n (r, (t, p)) c small =
      let (meas, frame, board) = humid.get_measurement d.data_frame d.board in
      let memory : Measurements = record (d.meas) { humid = meas } in
      let (x, e, (c', stored)) = averaging.update_dht11-Counts memory d.averages c small in
      let (i, o, h) = dht11-Same memory d.averages.pointers x r.pointers stored in
      let d' : Devices = record d {
        board = board;
        data_frame = frame;
        meas = x.0;
        averages = x.1;
      } in
      let ready =
        screen.Untouched-IsReady
          (Silent-Untouched d.board board (humid.get_measurement-Silent d.data_frame d.board))
          r.screen_ready in
      let bytes : AreBytes (x.0).outdoor = rw o r.bytes in
      let humidity : (x.0).humid.humidity < 256 =
        rw h (humid.get_measurement-lt d.data_frame d.board).0 in
      (
        d',
        rw e refl,
        (
          (
            record {
              screen_ready = ready;
              gui = r.gui;
              pointers = stored.2 ∙ r.pointers;
              bytes = bytes;
            },
            record {
              temperature = rw i t;
              pressure = rw i p;
              integer = bytes.0;
              fraction = bytes.1;
              humidity = humidity;
            },
          ),
          c',
        ),
      )
