-- ===== src/Station/Transmissions.antt =====
-- What main.c sends to the modem: the transmissions of the averages, and nothing else.
use quark_meteo_station.Base.{
  ℕ, ◌+◌, ◌-◌, ◌≡◌, refl, arith, Bool, true, false, some, List, [], ◌∷◌, length, inl, inr, outcome,
  returned, Bool-cases, leb,
}
use quark_meteo_station.Base.Word.{u8}
use quark_meteo_station.Board.Untouched.{Quiet, sent, Silent-Quiet}
use quark_meteo_station.Esp.{Report, report, connection_time}
use quark_meteo_station.Esp.Text.{Fits, json_text, post_text}
use quark_meteo_station.Esp.Fits.{command_text}
use quark_meteo_station.Esp.Interface.{connect_text}
use quark_meteo_station.Station.{
  ReadoutState, request_conversion, get_measurement, TransmissionState, idle, connect_to_server,
  await_for_connection, send_data, Measurements, Devices, Parts, readout, measure_bmp280,
  measure_dht11, transmit, update_gui,
}

-- The texts sent to the modem, the newest first, are those at a start and the transmissions of these
-- reports: each the command for the connection, the command that announces the request's length, and the
-- request of the report, which fits. The last may have asked for the connection only.
pub data Transmissions (start : List (List ℕ)) : List Report → Bool → List (List ℕ) → Type 0 where
  nothing : Transmissions start [] false start
  connected :
      {rs : List Report} {texts : List (List ℕ)}
      → Transmissions start rs false texts
      → Transmissions start rs true (connect_text ∷ texts)
  reported :
      {rs : List Report} {texts : List (List ℕ)} (m : Report) (ti : ℕ)
      → Fits m ti
      → Transmissions start rs true texts
      → Transmissions start
          (m ∷ rs)
          false
          (post_text (json_text m ti) ∷ command_text (length (post_text (json_text m ti))) ∷ texts)

-- Whether the connection has been asked for, and what is reported after a round that starts in a state
-- and has this to report.
abbrev pub is_connected : TransmissionState → Bool
is_connected idle = false
is_connected connect_to_server = false
is_connected await_for_connection = true
is_connected send_data = true

abbrev pub sends : TransmissionState → Report → List Report → List Report
sends send_data m rs = m ∷ rs
sends idle m rs = rs
sends connect_to_server m rs = rs
sends await_for_connection m rs = rs

module _ (parts : Parts) where
  open parts use {averaging, screen, outdoor, humid, indoor, registers, modem}

  pub readout-Quiet :
      (s s' : ReadoutState) (d d' : Devices)
      → readout parts s d ≡ some (s', d')
      → Quiet d.board d'.board
  unfolding readout
  readout-Quiet request_conversion s' d d' e =
      let b = outdoor.request_conversion d.board in
      returned {A = ReadoutState × Devices} (λ r. Quiet d.board (r.1).board)
        (
          (get_measurement, record d { board = b }),
          refl,
          Silent-Quiet d.board b (outdoor.request_conversion-Silent d.board),
        )
        e
  readout-Quiet get_measurement s' d d' e =
      let (meas, b) = outdoor.get_temperature d.board in
      let memory : Measurements = record (d.meas) { outdoor = meas } in
      elim (outcome (averaging.average_update_ds18b20 memory d.averages)) [
        | inl fails ↦ ground arith
        | inr (r, done) ↦
            returned {A = ReadoutState × Devices} (λ x. Quiet d.board (x.1).board)
              (
                (request_conversion, record d { board = b; meas = r.0; averages = r.1 }),
                rw done refl,
                Silent-Quiet d.board b (outdoor.get_temperature-Silent d.board),
              )
              e
      ]

  pub measure_bmp280-Quiet :
      (d d' : Devices) → measure_bmp280 parts d ≡ some d' → Quiet d.board d'.board
  unfolding measure_bmp280
  measure_bmp280-Quiet d d' e =
      let (meas, i2c, b) = indoor.get_measurement registers d.cal d.i2c d.board in
      let memory : Measurements = record (d.meas) { indoor = meas } in
      elim (outcome (averaging.average_update_bmp280 memory d.averages)) [
        | inl fails ↦ ground arith
        | inr (r, done) ↦
            returned {A = Devices} (λ x. Quiet d.board x.board)
              (
                record d { board = b; i2c = i2c; meas = r.0; averages = r.1 },
                rw done refl,
                Silent-Quiet d.board b
                    (indoor.get_measurement-Silent registers d.cal d.i2c d.board),
              )
              e
      ]

  pub measure_dht11-Quiet :
      (d d' : Devices) → measure_dht11 parts d ≡ some d' → Quiet d.board d'.board
  unfolding measure_dht11
  measure_dht11-Quiet d d' e =
      let (meas, frame, b) = humid.get_measurement d.data_frame d.board in
      let memory : Measurements = record (d.meas) { humid = meas } in
      elim (outcome (averaging.average_update_dht11 memory d.averages)) [
        | inl fails ↦ ground arith
        | inr (r, done) ↦
            returned {A = Devices} (λ x. Quiet d.board x.board)
              (
                record d { board = b; data_frame = frame; meas = r.0; averages = r.1 },
                rw done refl,
                Silent-Quiet d.board b (humid.get_measurement-Silent d.data_frame d.board),
              )
              e
      ]

  pub update_gui-Quiet : (d d' : Devices) → update_gui parts d ≡ some d' → Quiet d.board d'.board
  unfolding update_gui
  update_gui-Quiet d d' e = elim (outcome (screen.gui_update d.gui d.meas d.board)) [
    | inl fails ↦ ground arith
    | inr (b, done) ↦
        returned {A = Devices} (λ x. Quiet d.board x.board)
          (record d { board = b }, rw done refl, screen.update-Quiet d.gui d.meas d.board b done) e
  ]

  module _ {start : List (List ℕ)} where
    -- What a case of the transmission sends.
    pub transmit-Transmissions :
        (s s' : TransmissionState) (n n' : ℕ) (rs : List Report) (ti : ℕ) (d d' : Devices)
        → Fits (report d.esp d.meas) ti
        → transmit parts s n d ≡ some (s', n', d')
        → Transmissions start rs (is_connected s) (sent d.board.log)
        → Transmissions start
            (sends s (report d.esp d.meas) rs)
            (is_connected s')
            (sent d'.board.log)
    unfolding transmit
    transmit-Transmissions idle s' n n' rs ti d d' fits e t =
        returned {A = TransmissionState × ℕ × Devices}
          (λ r. Transmissions start rs (is_connected r.0) (sent (r.2).board.log))
          ((idle, n, d), refl, t) e
    transmit-Transmissions connect_to_server s' n n' rs ti d d' fits e t =
        elim (outcome (modem.esp_connect_to_server d.board)) [
          | inl fails ↦ ground arith
          | inr (b, done) ↦
              returned {A = TransmissionState × ℕ × Devices}
                (λ r. Transmissions start rs (is_connected r.0) (sent (r.2).board.log))
                (
                  (await_for_connection, n, record d { board = b }),
                  rw done refl,
                  rw (modem.connect_to_server-sends d.board b done) (connected t),
                )
                e
        ]
    transmit-Transmissions await_for_connection s' n n' rs ti d d' fits e t =
        elim (Bool-cases (leb (connection_time - 1) (u8 (n + 1)))) [
          | inl late ↦
              returned {A = TransmissionState × ℕ × Devices}
                (λ r. Transmissions start rs (is_connected r.0) (sent (r.2).board.log))
                ((send_data, 0, d), rw late refl, t) e
          | inr early ↦
              returned {A = TransmissionState × ℕ × Devices}
                (λ r. Transmissions start rs (is_connected r.0) (sent (r.2).board.log))
                ((await_for_connection, u8 (n + 1), d), rw early refl, t) e
        ]
    transmit-Transmissions send_data s' n n' rs ti d d' fits e t =
        elim (outcome (modem.esp_send_measurements d.esp d.meas d.board)) [
          | inl fails ↦ ground arith
          | inr (b, done) ↦
              let statics = averaging.average_reset d.averages in
              returned {A = TransmissionState × ℕ × Devices}
                (λ r.
                  Transmissions start (report d.esp d.meas ∷ rs) (is_connected r.0)
                    (sent (r.2).board.log))
                (
                  (idle, n, record d { board = b; averages = statics }),
                  rw done refl,
                  rw (modem.send_measurements-sends d.esp d.meas ti d.board b fits done)
                      (reported (report d.esp d.meas) ti fits t),
                )
                e
        ]

  -- The measurements stay when a report is sent and when they are drawn.
  pub transmit-meas :
      (s s' : TransmissionState) (n n' : ℕ) (d d' : Devices)
      → transmit parts s n d ≡ some (s', n', d')
      → d'.meas ≡ d.meas
  unfolding transmit
  transmit-meas idle s' n n' d d' e = ground arith
  transmit-meas connect_to_server s' n n' d d' e = ground arith
  transmit-meas await_for_connection s' n n' d d' e = ground arith
  transmit-meas send_data s' n n' d d' e = ground arith

  pub update_gui-meas : (d d' : Devices) → update_gui parts d ≡ some d' → d'.meas ≡ d.meas
  unfolding update_gui
  update_gui-meas d d' e = ground arith
