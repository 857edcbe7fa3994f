-- ===== src/Station/Averaged.antt =====
-- That main.c does what its logbook says: the sums are those of the measurements since the last
-- transmission, and the averages in the memory are their means.
use mathlib.Core.Path.{subst}
use quark_meteo_station.Base.{
  ◌<◌, ◌≡◌, refl, sym, ap, ◌∙◌, arith, Bool, true, false, some, ◌∷◌, length, All, returned,
  if◌then◌else◌,
}
use quark_meteo_station.Board.{Board}
use quark_meteo_station.I2c.{I2c}
use quark_meteo_station.Bmp280.{Cal}
use quark_meteo_station.Bmp280
use quark_meteo_station.Ds18b20
use quark_meteo_station.Dht11
use quark_meteo_station.Esp.{Report}
use quark_meteo_station.Average.{split}
use quark_meteo_station.Average.Running
use quark_meteo_station.Average.Running.{IsUsual, AreUsual}
use quark_meteo_station.Average.Outdoor
use quark_meteo_station.Average.Outdoor.{IsOutdoor}
use quark_meteo_station.Average.Humidity
use quark_meteo_station.Average.Humidity.{IsByte, valid}
use quark_meteo_station.Average.Sums.{statics}
use quark_meteo_station.Station.{
  ReadoutState, request_conversion, get_measurement, TransmissionState, idle, connect_to_server,
  await_for_connection, send_data, Measurements, Devices, Parts, readout, measure_bmp280,
  measure_dht11,
}
use quark_meteo_station.Station.Boot.{average_pointers}
use quark_meteo_station.Station.Logbook.{Readings, Logbook, shown, measure, IsAtMost}
use quark_meteo_station.Station.Mild.{averages}

-- What the memory holds of the sensors.
abbrev pub readings : Measurements → Readings
readings m = record { indoor = m.indoor; outdoor = m.outdoor; humid = m.humid }

-- Whether a round takes the outdoor measurement, and whether it transmits.
abbrev pub takes : ReadoutState → Bool
takes request_conversion = false
takes get_measurement = true

abbrev pub is_sending : TransmissionState → Bool
is_sending send_data = true
is_sending idle = false
is_sending connect_to_server = false
is_sending await_for_connection = false

-- The measurements of each sensor, more than before.
abbrev with_outdoor : Ds18b20.Meas → Logbook → Logbook
with_outdoor y a = record a { hour = record (a.hour) { outdoor = y ∷ a.hour.outdoor } }

abbrev with_indoor : Bmp280.Meas → Logbook → Logbook
with_indoor x a = record a { hour = record (a.hour) { indoor = x ∷ a.hour.indoor } }

abbrev with_humid : Dht11.Meas → Logbook → Logbook
with_humid z a = record a { hour = record (a.hour) { humid = z ∷ a.hour.humid } }

module _ (parts : Parts) where
  open parts use {outdoor, humid, indoor, registers}

  abbrev outdoor_part : ReadoutState → Devices → Ds18b20.Meas × Board
  outdoor_part request_conversion d = (d.meas.outdoor, outdoor.request_conversion d.board)
  outdoor_part get_measurement d = outdoor.get_temperature d.board

  -- What the drivers return in a round that starts with these devices: the outdoor sensor first, which
  -- in every second round is only asked for a conversion, then the indoor one, then the one of humidity.
  abbrev pub sensed_by : ReadoutState → Devices → Readings
  sensed_by s d =
      let (y, b₁) = outdoor_part s d in
      let (x, _, b₂) = indoor.get_measurement registers d.cal d.i2c b₁ in
      record { indoor = x; outdoor = y; humid = (humid.get_measurement d.data_frame b₂).0 }

module _ (parts : Parts) (cal : Cal) where
  open parts use {averaging, screen, outdoor, humid, indoor, registers, modem}

  -- With these calibration words no transfer gives a measurement that is out of the usual.
  abbrev pub IsUsualClimate : Type 0
  IsUsualClimate = (i2c : I2c) (b : Board) → IsUsual (indoor.get_measurement registers cal i2c b).0

  -- The memory is as the logbook says, and its measurements are in their ranges.
  abbrev pub Agrees : Logbook → Devices → Type 0
  Agrees a d =
      (d.cal ≡ cal)
      × (d.averages ≡ statics average_pointers a.hour)
      × (averages d.meas ≡ shown a)
      × AreUsual a.hour.indoor
      × All IsOutdoor a.hour.outdoor
      × All IsByte a.hour.humid

  readout-Agrees :
      (a : Logbook) (s s' : ReadoutState) (d d' : Devices)
      → Agrees a d
      → length a.hour.outdoor < 65535
      → readout parts s d ≡ some (s', d')
      → Agrees (if takes s then with_outdoor d'.meas.outdoor a else a) d'
        × ((d'.meas.outdoor, d'.board) ≡ outdoor_part parts s d)
        × (d'.cal ≡ d.cal)
        × (d'.i2c ≡ d.i2c)
        × (d'.data_frame ≡ d.data_frame)
  unfolding readout
  readout-Agrees a request_conversion s' d d' k few e =
      returned {A = ReadoutState × Devices}
        (λ r.
          Agrees a r.1
          × (((r.1).meas.outdoor, (r.1).board) ≡ outdoor_part parts request_conversion d)
          × ((r.1).cal ≡ d.cal)
          × ((r.1).i2c ≡ d.i2c)
          × ((r.1).data_frame ≡ d.data_frame))
        (
          (get_measurement, record d { board = outdoor.request_conversion d.board }),
          refl,
          (k, refl, refl, refl, refl),
        )
        e
  readout-Agrees a get_measurement s' d d' (c, p, m, u, o, h) few e =
      let (y, board) = outdoor.get_temperature d.board in
      let memory : Measurements = record (d.meas) { outdoor = y } in
      let small : All IsOutdoor (y ∷ a.hour.outdoor) = (outdoor.get_temperature-small d.board, o) in
      let avg = split (Outdoor.mean (y ∷ a.hour.outdoor)) in
      let after = with_outdoor y a in
      let step = averaging.update_ds18b20-statics memory average_pointers a.hour small few in
      let d₁ : Devices = record d {
        board = board;
        meas = record memory { outdoor_avg = avg };
        averages = statics average_pointers after.hour;
      } in
      let done : readout parts get_measurement d ≡ some (request_conversion, d₁) =
        rw (readout, p, step) refl in
      returned {A = ReadoutState × Devices}
        (λ r.
          Agrees (with_outdoor (r.1).meas.outdoor a) r.1
          × (((r.1).meas.outdoor, (r.1).board) ≡ outdoor_part parts get_measurement d)
          × ((r.1).cal ≡ d.cal)
          × ((r.1).i2c ≡ d.i2c)
          × ((r.1).data_frame ≡ d.data_frame))
        (
          (request_conversion, d₁),
          done,
          (
            (c, refl, ap (λ (r : Report). record r { outdoor = avg }) m, u, small, h),
            refl,
            refl,
            refl,
            refl,
          ),
        )
        e

  measure_bmp280-Agrees :
      (a : Logbook) (d d' : Devices)
      → IsUsualClimate
      → Agrees a d
      → length a.hour.indoor < 4095
      → measure_bmp280 parts d ≡ some d'
      → Agrees (with_indoor d'.meas.indoor a) d'
        × (d'.meas.outdoor ≡ d.meas.outdoor)
        × (d'.meas.indoor ≡ (indoor.get_measurement registers d.cal d.i2c d.board).0)
        × (d'.board ≡ (indoor.get_measurement registers d.cal d.i2c d.board).2)
        × (d'.data_frame ≡ d.data_frame)
  unfolding measure_bmp280
  measure_bmp280-Agrees a d d' climate (c, p, m, u, o, h) few e =
      let (x, i2c, board) = indoor.get_measurement registers d.cal d.i2c d.board in
      let memory : Measurements = record (d.meas) { indoor = x } in
      let usual : AreUsual (x ∷ a.hour.indoor) = (rw c (climate d.i2c d.board), u) in
      let avg = Running.mean (x ∷ a.hour.indoor) in
      let step = averaging.update_bmp280-statics memory average_pointers a.hour usual few in
      let d₁ : Devices = record d {
        board = board;
        i2c = i2c;
        meas = record memory { indoor_avg = avg };
        averages = statics average_pointers (with_indoor x a).hour;
      } in
      let done : measure_bmp280 parts d ≡ some d₁ = rw (measure_bmp280, p, step) refl in
      returned {A = Devices}
        (λ r.
          Agrees (with_indoor r.meas.indoor a) r
          × (r.meas.outdoor ≡ d.meas.outdoor)
          × (r.meas.indoor ≡ x)
          × (r.board ≡ board)
          × (r.data_frame ≡ d.data_frame))
        (
          d₁,
          done,
          (
            (c, refl, ap (λ (r : Report). record r { indoor = avg }) m, usual, o, h),
            refl,
            refl,
            refl,
            refl,
          ),
        )
        e

  measure_dht11-Agrees :
      (a : Logbook) (d d' : Devices)
      → Agrees a d
      → length a.hour.humid < 65535
      → measure_dht11 parts d ≡ some d'
      → Agrees (with_humid d'.meas.humid a) d'
        × (d'.meas.outdoor ≡ d.meas.outdoor)
        × (d'.meas.indoor ≡ d.meas.indoor)
        × (d'.meas.humid ≡ (humid.get_measurement d.data_frame d.board).0)
  unfolding measure_dht11
  measure_dht11-Agrees a d d' (c, p, m, u, o, h) few e =
      let (z, frame, board) = humid.get_measurement d.data_frame d.board in
      let memory : Measurements = record (d.meas) { humid = z } in
      let (hum, temp) = humid.get_measurement-lt d.data_frame d.board in
      let bytes : All IsByte (z ∷ a.hour.humid) = ((temp, hum), h) in
      let avg = Humidity.mean a.last.humid (valid (z ∷ a.hour.humid)) in
      let step =
        averaging.update_dht11-statics memory average_pointers a.hour a.last.humid
          (ap (λ r. r.humid) m) bytes few in
      let d₁ : Devices = record d {
        board = board;
        data_frame = frame;
        meas = record memory { humid_avg = avg };
        averages = statics average_pointers (with_humid z a).hour;
      } in
      let done : measure_dht11 parts d ≡ some d₁ = rw (measure_dht11, p, step) refl in
      returned {A = Devices}
        (λ r.
          Agrees (with_humid r.meas.humid a) r
          × (r.meas.outdoor ≡ d.meas.outdoor)
          × (r.meas.indoor ≡ d.meas.indoor)
          × (r.meas.humid ≡ z))
        (
          d₁,
          done,
          (
            (c, refl, ap (λ (r : Report). record r { humid = avg }) m, u, o, bytes),
            refl,
            refl,
            refl,
          ),
        )
        e

  -- The three measurements of a round.
  pub measurements-Agree :
      (a : Logbook) (s s' : ReadoutState) (d d₁ d₂ d₃ : Devices)
      → IsUsualClimate
      → Agrees a d
      → IsAtMost 3601 a.hour
      → readout parts s d ≡ some (s', d₁)
      → measure_bmp280 parts d₁ ≡ some d₂
      → measure_dht11 parts d₂ ≡ some d₃
      → Agrees (record a { hour = measure (takes s) (readings d₃.meas) a.hour }) d₃
        × (readings d₃.meas ≡ sensed_by parts s d)
  measurements-Agree a request_conversion s' d d₁ d₂ d₃ climate k few e₁ e₂ e₃ =
      let (k₁, said, words, bus, frame) =
        readout-Agrees a request_conversion s' d d₁ k (omega arith) e₁ in
      let (k₂, y₂, x₂, b₂, f₂) = measure_bmp280-Agrees a d₁ d₂ climate k₁ (omega arith) e₂ in
      let a₂ = with_indoor d₂.meas.indoor a in
      let (k₃, y₃, x₃, z₃) = measure_dht11-Agrees a₂ d₂ d₃ k₂ (omega arith) e₃ in
      (
        subst (λ i. Agrees (with_humid d₃.meas.humid (with_indoor i a)) d₃) (sym x₃) k₃,
        cc (said, words, bus, frame, y₂, x₂, b₂, f₂, y₃, x₃, z₃),
      )
  measurements-Agree a get_measurement s' d d₁ d₂ d₃ climate k few e₁ e₂ e₃ =
      let (k₁, said, words, bus, frame) =
        readout-Agrees a get_measurement s' d d₁ k (omega arith) e₁ in
      let a₁ = with_outdoor d₁.meas.outdoor a in
      let (k₂, y₂, x₂, b₂, f₂) = measure_bmp280-Agrees a₁ d₁ d₂ climate k₁ (omega arith) e₂ in
      let a₂ = with_indoor d₂.meas.indoor a₁ in
      let (k₃, y₃, x₃, z₃) = measure_dht11-Agrees a₂ d₂ d₃ k₂ (omega arith) e₃ in
      let k₄ = subst (λ i. Agrees (with_humid d₃.meas.humid (with_indoor i a₁)) d₃) (sym x₃) k₃ in
      (
        subst
            (λ y.
              Agrees (with_humid d₃.meas.humid (with_indoor d₃.meas.indoor (with_outdoor y a))) d₃)
            (sym (y₃ ∙ y₂)) k₄,
        cc (said, words, bus, frame, y₂, x₂, b₂, f₂, y₃, x₃, z₃),
      )
