-- ===== src/Station/Interrupts/Lost.antt =====
-- What an interrupt within a round loses: its request for a round.
use quark_meteo_station.Base.{ℕ, ◌+◌, ◌-◌, ◌<◌, ◌≡◌, ◌≢◌, refl, ◌∙◌, arith, some, inl, inr, outcome}
use quark_meteo_station.Esp.{connection_time}
use quark_meteo_station.Station.{
  TransmissionState, idle, up_to_date, Control, Machine, Parts, server_update_period,
  timer_callback, update_gui, loop_body,
}
use quark_meteo_station.Station.Interrupts.{
  Stage, polling, requested, averaging_ds18b20, measuring_bmp280, averaging_bmp280, measuring_dht11,
  averaging_dht11, switching, switched, clearing, leaving, drawing, finishing, written, step, steps,
  store_ds18b20, average_ds18b20, store_bmp280, average_bmp280, store_dht11, average_dht11,
  call_modem, clear_sent,
}

-- The steps that are left of a round.
abbrev pub remaining : Stage → ℕ
remaining polling = 0
remaining requested = 12
remaining averaging_ds18b20 = 11
remaining measuring_bmp280 = 10
remaining averaging_bmp280 = 9
remaining measuring_dht11 = 8
remaining averaging_dht11 = 7
remaining switching = 6
remaining (switched s) = 5
remaining (clearing s esp n) = 4
remaining (leaving s esp n) = 3
remaining drawing = 2
remaining finishing = 1

written-counter :
    (s esp : TransmissionState) (n : ℕ) (c : Control)
    → (written s esp n c).server_update_counter ≡ c.server_update_counter
written-counter s esp n c = ground arith

module _ (parts : Parts) where
  -- Whatever was asked for in the meantime, the end of a round clears it.
  abbrev IsCleared : ℕ → Stage → Machine → Type 0
  IsCleared n s m =
      (s ≡ polling) × (m.control.update_state ≡ up_to_date) × (m.control.server_update_counter ≡ n)

  -- The steps from a stage on.
  abbrev Ends : Stage → Type 0
  Ends s =
      (s' : Stage) (m m' : Machine)
      → steps parts (remaining s) s m ≡ some (s', m')
      → IsCleared m.control.server_update_counter s' m'

  finishing-Ends : Ends finishing
  unfolding steps step
  finishing-Ends s' m m' e = ground arith

  drawing-Ends : Ends drawing
  unfolding steps step
  drawing-Ends s' m m' e = elim (outcome (update_gui parts m.devices)) [
    | inl fails ↦ ground arith
    | inr (d, done) ↦ finishing-Ends s' (record m { devices = d }) m' (rw done at e)
  ]

  leaving-Ends : (s esp : TransmissionState) (n : ℕ) → Ends (leaving s esp n)
  unfolding steps step
  leaving-Ends s esp n s' m m' e =
      let m₁ : Machine = record m { control = written s esp n m.control } in
      rw (written-counter s esp n m.control) at (drawing-Ends s' m₁ m' e)

  clearing-Ends : (s esp : TransmissionState) (n : ℕ) → Ends (clearing s esp n)
  unfolding steps step
  clearing-Ends s esp n s' m m' e =
      leaving-Ends s esp n s' (record m { devices = clear_sent parts s m.devices }) m' e

  switched-Ends : (s : TransmissionState) → Ends (switched s)
  unfolding steps step
  switched-Ends s s' m m' e =
      elim (outcome (call_modem parts s m.control.await_counter m.devices)) [
        | inl fails ↦ ground arith
        | inr ((esp, n, d), done) ↦
            clearing-Ends s esp n s' (record m { devices = d }) m' (rw done at e)
      ]

  switching-Ends : Ends switching
  unfolding steps step
  switching-Ends s' m m' e = switched-Ends m.control.esp_state s' m m' e

  averaging_dht11-Ends : Ends averaging_dht11
  unfolding steps step
  averaging_dht11-Ends s' m m' e = elim (outcome (average_dht11 parts m.devices)) [
    | inl fails ↦ ground arith
    | inr (d, done) ↦ switching-Ends s' (record m { devices = d }) m' (rw done at e)
  ]

  dht11-Ends : Ends measuring_dht11
  unfolding steps step
  dht11-Ends s' m m' e =
      averaging_dht11-Ends s' (record m { devices = store_dht11 parts m.devices }) m' e

  averaging_bmp280-Ends : Ends averaging_bmp280
  unfolding steps step
  averaging_bmp280-Ends s' m m' e = elim (outcome (average_bmp280 parts m.devices)) [
    | inl fails ↦ ground arith
    | inr (d, done) ↦ dht11-Ends s' (record m { devices = d }) m' (rw done at e)
  ]

  bmp280-Ends : Ends measuring_bmp280
  unfolding steps step
  bmp280-Ends s' m m' e =
      averaging_bmp280-Ends s' (record m { devices = store_bmp280 parts m.devices }) m' e

  averaging_ds18b20-Ends : Ends averaging_ds18b20
  unfolding steps step
  averaging_ds18b20-Ends s' m m' e =
      elim (outcome (average_ds18b20 parts m.control.ds18b20_state m.devices)) [
        | inl fails ↦ ground arith
        | inr ((next, d), done) ↦
            let m₁ : Machine = record {
              control = record (m.control) { ds18b20_state = next };
              devices = d;
            } in
            bmp280-Ends s' m₁ m' (rw done at e)
      ]

  requested-Ends : Ends requested
  unfolding steps step
  requested-Ends s' m m' e =
      averaging_ds18b20-Ends s'
        (record m { devices = store_ds18b20 parts m.control.ds18b20_state m.devices }) m' e

  stage-Ends : (s : Stage) → s ≢ polling → Ends s
  stage-Ends polling ne = absurd (ne refl)
  stage-Ends requested ne = requested-Ends
  stage-Ends averaging_ds18b20 ne = averaging_ds18b20-Ends
  stage-Ends measuring_bmp280 ne = bmp280-Ends
  stage-Ends averaging_bmp280 ne = averaging_bmp280-Ends
  stage-Ends measuring_dht11 ne = dht11-Ends
  stage-Ends averaging_dht11 ne = averaging_dht11-Ends
  stage-Ends switching ne = switching-Ends
  stage-Ends (switched s) ne = switched-Ends s
  stage-Ends (clearing s esp n) ne = clearing-Ends s esp n
  stage-Ends (leaving s esp n) ne = leaving-Ends s esp n
  stage-Ends drawing ne = drawing-Ends
  stage-Ends finishing ne = finishing-Ends

  -- Where an interrupt comes within a round, behind the test of the request, while the station is idle
  -- and the count is more than one below its limit, and the steps that are left of the round, without
  -- another interrupt, end: the request is cleared and the loop does nothing more by itself, though the
  -- second has been counted.
  pub steps-lost :
      (s s' : Stage) (m m' : Machine)
      → s ≢ polling
      → m.control.esp_state ≡ idle
      → m.control.server_update_counter + 1 < server_update_period - connection_time
      → steps parts (remaining s) s (record m { control = timer_callback m.control })
        ≡ some (s', m')
      → (s' ≡ polling)
        × (loop_body parts m' ≡ some m')
        × (m'.control.server_update_counter ≡ m.control.server_update_counter + 1)
  unfolding timer_callback loop_body
  steps-lost s s' m m' ne quiet few e =
      let m₁ : Machine = record m { control = timer_callback m.control } in
      let (back, cleared, count) = stage-Ends s ne s' m₁ m' e in
      let counted : (timer_callback m.control).server_update_counter
          ≡ m.control.server_update_counter + 1 =
        ground arith in
      (back, rw cleared refl, count ∙ counted)
