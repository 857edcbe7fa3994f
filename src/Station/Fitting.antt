-- ===== src/Station/Fitting.antt =====
-- The end of a round in a mild climate: the averages fit a transmission, and it and the display keep
-- what every round keeps.
use mathlib.Core.Path.{subst}
use quark_meteo_station.Base.{
  ℕ, ◌+◌, ◌-◌, ◌≡◌, refl, ◌∙◌, arith, some, inl, inr, outcome, returned, Bool-cases, leb,
}
use quark_meteo_station.Base.Int.{pos, pos_part, eq_of_parts}
use quark_meteo_station.Base.Word.{u8}
use quark_meteo_station.Esp.{connection_time}
use quark_meteo_station.Bmp280.{Cal}
use quark_meteo_station.Esp.{report}
use quark_meteo_station.Esp.Text.{Fits}
use quark_meteo_station.Station.{
  TransmissionState, idle, connect_to_server, await_for_connection, send_data, Devices, Parts,
  transmit, update_gui,
}
use quark_meteo_station.Station.Mild.{Keeps, KeepsIndoor, Keeps-board}

module _ (parts : Parts) (cal : Cal) where
  open parts use {averaging, screen, outdoor, humid, indoor, registers, modem}

  -- So the averages fit a transmission.
  pub KeepsIndoor-Fits :
      (d : Devices)
      → KeepsIndoor parts cal d
      → Fits (report d.esp d.meas) (pos_part d.meas.indoor_avg.temperature)
  KeepsIndoor-Fits d (k, (n, t, p), now) = rw k.esp (record {
    not_negative = eq_of_parts d.meas.indoor_avg.temperature (pos _) (omega arith);
    indoor = omega arith;
    pressure = omega arith;
    integer = k.outdoor_avg.0;
    fraction = k.outdoor_avg.1;
    humidity = k.humid_avg;
  })

  pub transmit-Keeps :
      (s s' : TransmissionState) (n n' : ℕ) (d d' : Devices)
      → Keeps parts cal d
      → transmit parts s n d ≡ some (s', n', d')
      → Keeps parts cal d'
  unfolding transmit
  transmit-Keeps idle s' n n' d d' k e =
      returned {A = TransmissionState × ℕ × Devices} (λ r. Keeps parts cal r.2)
        ((idle, n, d), refl, k) e
  transmit-Keeps connect_to_server s' n n' d d' k e =
      elim (outcome (modem.esp_connect_to_server d.board)) [
        | inl fails ↦ ground arith
        | inr (b, done) ↦
            returned {A = TransmissionState × ℕ × Devices} (λ r. Keeps parts cal r.2)
              (
                (await_for_connection, n, record d { board = b }),
                rw done refl,
                Keeps-board parts cal d k b,
              )
              e
      ]
  transmit-Keeps await_for_connection s' n n' d d' k e =
      elim (Bool-cases (leb (connection_time - 1) (u8 (n + 1)))) [
        | inl late ↦ let same : d ≡ d' = ground arith in subst (Keeps parts cal) same k
        | inr early ↦ let same : d ≡ d' = ground arith in subst (Keeps parts cal) same k
      ]
  transmit-Keeps send_data s' n n' d d' k e =
      elim (outcome (modem.esp_send_measurements d.esp d.meas d.board)) [
        | inl fails ↦ ground arith
        | inr (b, done) ↦
            let statics = averaging.average_reset d.averages in
            returned {A = TransmissionState × ℕ × Devices} (λ r. Keeps parts cal r.2)
              (
                (idle, n, record d { board = b; averages = statics }),
                rw done refl,
                record {
                  words = k.words;
                  sums = averaging.reset-AreMild d.averages;
                  pointers = averaging.reset-pointers d.averages ∙ k.pointers;
                  esp = k.esp;
                  outdoor_avg = k.outdoor_avg;
                  humid_avg = k.humid_avg;
                },
              )
              e
      ]

  pub update_gui-Keeps :
      (d d' : Devices) → Keeps parts cal d → update_gui parts d ≡ some d' → Keeps parts cal d'
  unfolding update_gui
  update_gui-Keeps d d' k e = elim (outcome (screen.gui_update d.gui d.meas d.board)) [
    | inl fails ↦ ground arith
    | inr (b, done) ↦
        returned {A = Devices} (Keeps parts cal)
          (record d { board = b }, rw done refl, Keeps-board parts cal d k b) e
  ]
