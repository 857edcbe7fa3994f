-- ===== src/Station/Sends.antt =====
-- The round of main.c's loop that sends the averages.
use quark_meteo_station.Base.{ℕ, ◌<◌, ◌≡◌, refl, ◌∙◌, some, Returns, returned}
use quark_meteo_station.Average.Counts.{Counts}
use quark_meteo_station.Esp.{report}
use quark_meteo_station.Esp.Text.{Fits}
use quark_meteo_station.Station.{
  ReadoutState, idle, send_data, up_to_date, Devices, Machine, Parts, readout, measure_bmp280,
  measure_dht11, transmit, update_cycle,
}
use quark_meteo_station.Station.Counts.{IsWithin, update_gui-averages}
use quark_meteo_station.Station.Progress.{
  IsReady, Measured, readout-Returns, measure_bmp280-Returns, measure_dht11-Returns,
}
use quark_meteo_station.Station.Runs.{update_gui-Returns}

module _ (parts : Parts) where
  open parts use {averaging, screen, modem}

  -- Ready, in range, and without a measurement in the averages.
  abbrev pub Sent : Devices → Type 0
  Sent d = Measured parts d × Counts 0 0 0 d.averages.sums

  pub transmit-Sent :
      (n ti : ℕ) (d : Devices)
      → Measured parts d
      → Fits (report d.esp d.meas) ti
      → (d' : Devices) × (transmit parts send_data n d ≡ some (idle, n, d')) × Sent d'
  unfolding transmit
  transmit-Sent n ti d (r, range) fits =
      let (b, e, u) = modem.send_measurements-Untouched d.esp d.meas ti d.board fits in
      let statics = averaging.average_reset d.averages in
      let d' : Devices = record d { board = b; averages = statics } in
      (
        d',
        rw e refl,
        (
          (
            record {
              screen_ready = screen.Untouched-IsReady u r.screen_ready;
              gui = r.gui;
              pointers = averaging.reset-pointers d.averages ∙ r.pointers;
              bytes = r.bytes;
            },
            range,
          ),
          averaging.reset-Counts d.averages,
        ),
      )

  measured :
      (s next : ReadoutState) (d d₁ d₂ d₃ : Devices) (n : ℕ)
      → IsReady parts d
      → IsWithin n d.averages.sums
      → n < 65535
      → readout parts s d ≡ some (next, d₁)
      → measure_bmp280 parts d₁ ≡ some d₂
      → measure_dht11 parts d₂ ≡ some d₃
      → Measured parts d₃
  measured s next d d₁ d₂ d₃ n r c small e₁ e₂ e₃ =
      let (r₁, c₁) = returned _ (readout-Returns parts s d n r c small) e₁ in
      let (r₂, c₂) = returned _ (measure_bmp280-Returns parts d₁ n r₁ c₁ small) e₂ in
      (returned _ (measure_dht11-Returns parts d₂ n r₂ c₂ small) e₃).0

  -- A round that finds the machine ready and about to send, with fewer than 65535 measurements in each
  -- average, and whose three measurements leave averages that fit a transmission, returns: behind it
  -- the machine is ready, the transmission is idle, and the averages start again.
  pub update_cycle-Sent :
      (m : Machine) (next : ReadoutState) (d₁ d₂ d₃ : Devices) (n ti : ℕ)
      → IsReady parts m.devices
      → IsWithin n m.devices.averages.sums
      → n < 65535
      → m.control.esp_state ≡ send_data
      → readout parts m.control.ds18b20_state m.devices ≡ some (next, d₁)
      → measure_bmp280 parts d₁ ≡ some d₂
      → measure_dht11 parts d₂ ≡ some d₃
      → Fits (report d₃.esp d₃.meas) ti
      → Returns (update_cycle parts m) (λ m'.
        IsReady parts m'.devices
        × Counts 0 0 0 m'.devices.averages.sums
        × (m'.control.esp_state ≡ idle))
  unfolding update_cycle
  update_cycle-Sent m next d₁ d₂ d₃ n ti r c small at e₁ e₂ e₃ fits =
      let ranges = measured m.control.ds18b20_state next m.devices d₁ d₂ d₃ n r c small e₁ e₂ e₃ in
      let (d₄, e₄, (r₄, c₄)) = transmit-Sent m.control.await_counter ti d₃ ranges fits in
      let (d₅, e₅, r₅) = update_gui-Returns parts d₄ r₄ in
      let same = update_gui-averages parts d₄ d₅ e₅ in
      let empty : Counts 0 0 0 d₅.averages.sums = rw same c₄ in
      (
        record {
          control = record (m.control) {
            update_state = up_to_date;
            esp_state = idle;
            await_counter = m.control.await_counter;
            ds18b20_state = next;
          };
          devices = d₅;
        },
        rw (e₁, e₂, e₃, at, e₄, e₅) refl,
        (r₅, empty, refl),
      )
