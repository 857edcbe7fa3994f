-- ===== src/Station/Mild.antt =====
-- The rounds of main.c's loop in a mild climate, in which no indoor measurement is below 0 or out of
-- the scale: what every round keeps, so that the averages fit a transmission.
use quark_meteo_station.Base.{◌<◌, ◌≡◌, refl, ap, ◌∙◌, arith, some, inl, inr, outcome, returned}
use quark_meteo_station.Esp.{connection_time}
use quark_meteo_station.Board.{Board}
use quark_meteo_station.I2c.{I2c}
use quark_meteo_station.Bmp280.{Cal}
use quark_meteo_station.Average.Mild.{IsMild, AreMild, AreBytes}
use quark_meteo_station.Esp
use quark_meteo_station.Esp.{Report, report}
use quark_meteo_station.Esp.{report}
use quark_meteo_station.Station.{
  ReadoutState, request_conversion, get_measurement, Measurements, Devices, Parts, readout,
  measure_bmp280, measure_dht11,
}
use quark_meteo_station.Station.Boot.{average_pointers}

-- The pointers that `ESP_init` gets.
abbrev pub esp_pointers : Esp.Pointers Measurements
esp_pointers = record {
  bmp280_meas = λ m. m.indoor_avg;
  ds18b20_meas = λ m. m.outdoor_avg;
  dht11_meas = λ m. m.humid_avg;
}

-- The averages in the memory, which is what a transmission reports.
abbrev pub averages : Measurements → Report
averages = report esp_pointers

module _ (parts : Parts) (cal : Cal) where
  open parts use {averaging, screen, outdoor, humid, indoor, registers, modem}

  -- With these calibration words no transfer gives an indoor measurement that is not mild.
  abbrev pub IsMildClimate : Type 0
  IsMildClimate = (i2c : I2c) (b : Board) → IsMild (indoor.get_measurement registers cal i2c b).0

  -- What a round keeps.
  pub record Keeps (d : Devices) : Type 0 where
    pub words : d.cal ≡ cal
    pub sums : AreMild d.averages.sums.bmp280
    pub pointers : d.averages.pointers ≡ average_pointers
    pub esp : d.esp ≡ esp_pointers
    pub outdoor_avg : AreBytes d.meas.outdoor_avg
    pub humid_avg : d.meas.humid_avg.humidity < 256

  pub Keeps-board : (d : Devices) → Keeps d → (b : Board) → Keeps (record d { board = b })
  Keeps-board d k b = record {
    words = k.words;
    sums = k.sums;
    pointers = k.pointers;
    esp = k.esp;
    outdoor_avg = k.outdoor_avg;
    humid_avg = k.humid_avg;
  }

  pub readout-Keeps :
      (s s' : ReadoutState) (d d' : Devices)
      → Keeps d
      → d'.averages.pointers ≡ average_pointers
      → readout parts s d ≡ some (s', d')
      → Keeps d'
  unfolding readout
  readout-Keeps request_conversion s' d d' k p e =
      returned {A = ReadoutState × Devices} (λ r. Keeps r.1)
        (
          (get_measurement, record d { board = outdoor.request_conversion d.board }),
          refl,
          Keeps-board d k _,
        )
        e
  readout-Keeps get_measurement s' d d' k p e =
      let (meas, board) = outdoor.get_temperature d.board in
      let memory : Measurements = record (d.meas) { outdoor = meas } in
      elim (outcome (averaging.average_update_ds18b20 memory d.averages)) [
        | inl fails ↦ ground arith
        | inr (r, done) ↦
            let (avg, at, bytes, same) =
              averaging.update_ds18b20-AreMild memory d.averages r done in
            let is = at ∙ ap (λ q. q.write_ds18b20_avg avg memory) k.pointers in
            let mild : AreMild (r.1).sums.bmp280 = rw same k.sums in
            let out : AreBytes (r.0).outdoor_avg = rw is bytes in
            let hum : (r.0).humid_avg.humidity < 256 = rw is k.humid_avg in
            returned {A = ReadoutState × Devices}
              (λ x. (x.1).averages.pointers ≡ average_pointers → Keeps x.1)
              (
                (request_conversion, record d { board = board; meas = r.0; averages = r.1 }),
                rw done refl,
                λ q. record {
                  words = k.words;
                  sums = mild;
                  pointers = q;
                  esp = k.esp;
                  outdoor_avg = out;
                  humid_avg = hum;
                },
              )
              e p
      ]

  -- After its measurement it and the indoor average fit.
  abbrev pub KeepsIndoor : Devices → Type 0
  KeepsIndoor d = Keeps d × IsMild d.meas.indoor_avg × IsMild d.meas.indoor

  pub measure_bmp280-Keeps :
      (d d' : Devices)
      → IsMildClimate
      → Keeps d
      → d.averages.sums.bmp280.meas_num < 4095
      → d'.averages.pointers ≡ average_pointers
      → measure_bmp280 parts d ≡ some d'
      → KeepsIndoor d'
  unfolding measure_bmp280
  measure_bmp280-Keeps d d' climate k small p e =
      let (meas, i2c, board) = indoor.get_measurement registers d.cal d.i2c d.board in
      let memory : Measurements = record (d.meas) { indoor = meas } in
      elim (outcome (averaging.average_update_bmp280 memory d.averages)) [
        | inl fails ↦ ground arith
        | inr (r, done) ↦
            let fits : IsMild meas = rw k.words (climate d.i2c d.board) in
            let fits' : IsMild (d.averages.pointers.bmp280_meas memory) = rw k.pointers fits in
            let (avg, at, average, sums) =
              averaging.update_bmp280-AreMild memory d.averages r fits' k.sums small done in
            let is = at ∙ ap (λ q. q.write_bmp280_avg avg memory) k.pointers in
            let ind : IsMild (r.0).indoor_avg = rw is average in
            let now : IsMild (r.0).indoor = rw is fits in
            let out : AreBytes (r.0).outdoor_avg = rw is k.outdoor_avg in
            let hum : (r.0).humid_avg.humidity < 256 = rw is k.humid_avg in
            returned {A = Devices} (λ x. x.averages.pointers ≡ average_pointers → KeepsIndoor x)
              (
                record d { board = board; i2c = i2c; meas = r.0; averages = r.1 },
                rw done refl,
                λ q. (
                  record {
                    words = k.words;
                    sums = sums;
                    pointers = q;
                    esp = k.esp;
                    outdoor_avg = out;
                    humid_avg = hum;
                  },
                  ind,
                  now,
                ),
              )
              e p
      ]

  pub measure_dht11-Keeps :
      (d d' : Devices)
      → KeepsIndoor d
      → d'.averages.pointers ≡ average_pointers
      → measure_dht11 parts d ≡ some d'
      → KeepsIndoor d'
  unfolding measure_dht11
  measure_dht11-Keeps d d' (k, fits, newest) p e =
      let (meas, frame, board) = humid.get_measurement d.data_frame d.board in
      let memory : Measurements = record (d.meas) { humid = meas } in
      elim (outcome (averaging.average_update_dht11 memory d.averages)) [
        | inl fails ↦ ground arith
        | inr (r, done) ↦
            let old : (d.averages.pointers.dht11_meas_avg memory).humidity < 256 =
              rw k.pointers k.humid_avg in
            let (avg, at, byte, same) =
              averaging.update_dht11-AreMild memory d.averages r old done in
            let is = at ∙ ap (λ q. q.write_dht11_avg avg memory) k.pointers in
            let mild : AreMild (r.1).sums.bmp280 = rw same k.sums in
            let ind : IsMild (r.0).indoor_avg = rw is fits in
            let now : IsMild (r.0).indoor = rw is newest in
            let out : AreBytes (r.0).outdoor_avg = rw is k.outdoor_avg in
            let hum : (r.0).humid_avg.humidity < 256 = rw is byte in
            returned {A = Devices} (λ x. x.averages.pointers ≡ average_pointers → KeepsIndoor x)
              (
                record d { board = board; data_frame = frame; meas = r.0; averages = r.1 },
                rw done refl,
                λ q. (
                  record {
                    words = k.words;
                    sums = mild;
                    pointers = q;
                    esp = k.esp;
                    outdoor_avg = out;
                    humid_avg = hum;
                  },
                  ind,
                  now,
                ),
              )
              e p
      ]
