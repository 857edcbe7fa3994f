-- ===== src/Station/Rounds.antt =====
-- A round of main.c's loop in a mild climate, whatever the state of the transmission is.
use quark_meteo_station.Base.{ℕ, ◌+◌, ◌<◌, ◌≡◌, refl, sym, ap, ◌∙◌, arith, some, List, Returns}
use quark_meteo_station.Bmp280.{Cal}
use quark_meteo_station.Esp.{Report, report}
use quark_meteo_station.Esp.Text.{Fits}
use quark_meteo_station.Station.{
  ReadoutState, TransmissionState, idle, connect_to_server, await_for_connection, send_data,
  up_to_date, Devices, Machine, Parts, readout, measure_bmp280, measure_dht11, transmit, update_gui,
  update_cycle,
}
use quark_meteo_station.Station.Counts.{IsWithin, left, update_cycle-count}
use quark_meteo_station.Station.Mild.{
  averages, IsMildClimate, Keeps, KeepsIndoor, readout-Keeps, measure_bmp280-Keeps,
  measure_dht11-Keeps,
}
use quark_meteo_station.Station.Fitting.{KeepsIndoor-Fits, transmit-Keeps, update_gui-Keeps}
use quark_meteo_station.Station.Progress.{
  IsReady, Measured, readout-Returns, measure_bmp280-Returns, measure_dht11-Returns,
}
use quark_meteo_station.Station.Transmissions.{
  Transmissions, is_connected, sends, readout-Quiet, measure_bmp280-Quiet, measure_dht11-Quiet,
  update_gui-Quiet, transmit-Transmissions, transmit-meas, update_gui-meas,
}
use quark_meteo_station.Board.Untouched.{Quiet, sent}
use quark_meteo_station.Base.Int.{pos_part}
use quark_meteo_station.Station.Runs.{
  transmit-Returns, update_gui-Returns, update_gui-Drawn, IsDrawn,
}
use quark_meteo_station.Station.Sends.{transmit-Sent}

-- `start` are the texts that were sent to the modem before.
module _ (parts : Parts) (cal : Cal) (start : List (List ℕ)) where
  -- In every state of the transmission.
  transmit-Goes :
      (s : TransmissionState) (n ti : ℕ) (d : Devices)
      → Measured parts d
      → Fits (report d.esp d.meas) ti
      → Returns (transmit parts s n d) (λ r. Measured parts r.2)
  transmit-Goes send_data n ti d r fits =
      let (d', e, (r', c)) = transmit-Sent parts n ti d r fits in ((idle, n, d'), e, r')
  transmit-Goes idle n ti d r fits = transmit-Returns parts idle n d (λ e. cc) r
  transmit-Goes connect_to_server n ti d r fits =
      transmit-Returns parts connect_to_server n d (λ e. cc) r
  transmit-Goes await_for_connection n ti d r fits =
      transmit-Returns parts await_for_connection n d (λ e. cc) r

  -- What holds between two rounds.
  abbrev pub IsRunning : ℕ → Devices → Type 0
  IsRunning n d = IsReady parts d × Keeps parts cal d × IsWithin n d.averages.sums

  -- The three measurements of a round.
  measurements-Go :
      (m : Machine) (n : ℕ)
      → IsMildClimate parts cal
      → IsRunning n m.devices
      → n < 4095
      → (s : ReadoutState) × (d₁ d₂ d₃ : Devices) × (readout parts m.control.ds18b20_state m.devices
          ≡ some (s, d₁))
        × (measure_bmp280 parts d₁ ≡ some d₂)
        × (measure_dht11 parts d₂ ≡ some d₃)
        × Measured parts d₃
        × KeepsIndoor parts cal d₃
        × Quiet m.devices.board d₃.board
  measurements-Go m n climate (r, k, c) small =
      let ((s, d₁), e₁, (r₁, c₁)) =
        readout-Returns parts m.control.ds18b20_state m.devices n r c (omega arith) in
      let k₁ = readout-Keeps parts cal _ s m.devices d₁ k r₁.pointers e₁ in
      let (d₂, e₂, (r₂, c₂)) = measure_bmp280-Returns parts d₁ n r₁ c₁ (omega arith) in
      let k₂ = measure_bmp280-Keeps parts cal d₁ d₂ climate k₁ (omega arith) (r₂.0).pointers e₂ in
      let (d₃, e₃, (r₃, c₃)) = measure_dht11-Returns parts d₂ n r₂ c₂ (omega arith) in
      let quiet =
        measure_dht11-Quiet parts d₂ d₃ e₃
        ∙ measure_bmp280-Quiet parts d₁ d₂ e₂
        ∙ readout-Quiet parts m.control.ds18b20_state s m.devices d₁ e₁ in
      let k₃ = measure_dht11-Keeps parts cal d₂ d₃ k₂ (r₃.0).pointers e₃ in
      (s, d₁, d₂, d₃, e₁, e₂, e₃, r₃, k₃, quiet)

  -- The rest of it.
  end-Goes :
      (s : TransmissionState) (n : ℕ) (rs : List Report) (d : Devices)
      → Measured parts d
      → KeepsIndoor parts cal d
      → Transmissions start rs (is_connected s) (sent d.board.log)
      → (s' : TransmissionState) × (n' : ℕ) × (d₁ d₂ : Devices) × (transmit parts s n d
          ≡ some (s', n', d₁))
        × (update_gui parts d₁ ≡ some d₂)
        × IsReady parts d₂
        × Keeps parts cal d₂
        × Transmissions start (sends s (averages d₂.meas) rs) (is_connected s') (sent d₂.board.log)
        × IsDrawn parts d₂
  end-Goes s n rs d r k talk =
      let fits = KeepsIndoor-Fits parts cal d k in
      let ti = pos_part d.meas.indoor_avg.temperature in
      let ((s', n', d₁), e₁, r₁) = transmit-Goes s n ti d r fits in
      let k₁ = transmit-Keeps parts cal s s' n n' d d₁ k.0 e₁ in
      let (d₂, e₂, r₂) = update_gui-Returns parts d₁ r₁ in
      let talk₁ = transmit-Transmissions parts s s' n n' rs ti d d₁ fits e₁ talk in
      let same : d₂.meas ≡ d.meas =
        update_gui-meas parts d₁ d₂ e₂ ∙ transmit-meas parts s s' n n' d d₁ e₁ in
      let kept = update_gui-meas parts d₁ d₂ e₂ in
      let drawn : IsDrawn parts d₂ =
        (update_gui-Drawn parts d₁ d₂ r₁ e₂, rw same (k.2), rw kept (r₁.1)) in
      let said : averages d₂.meas ≡ report d.esp d.meas =
        ap averages same ∙ ap (λ p. report p d.meas) (sym (k.0).esp) in
      let talk₂ : Transmissions start (sends s (averages d₂.meas) rs) (is_connected s')
          (sent d₂.board.log) =
        rw (update_gui-Quiet parts d₁ d₂ e₂, said) talk₁ in
      (s', n', d₁, d₂, e₁, e₂, r₂, update_gui-Keeps parts cal d₁ d₂ k₁ e₂, talk₂, drawn)

  -- What it has sent to the modem.
  abbrev pub HasSent : List Report → Machine → Type 0
  HasSent rs m =
      Transmissions start rs (is_connected m.control.esp_state) (sent m.devices.board.log)

  pub update_cycle-Goes :
      (m : Machine) (n : ℕ) (rs : List Report)
      → IsMildClimate parts cal
      → IsRunning n m.devices
      → HasSent rs m
      → n < 4095
      → Returns (update_cycle parts m) (λ m'.
        IsRunning (left parts m.control.esp_state (n + 1)) m'.devices
        × HasSent (sends m.control.esp_state (averages m'.devices.meas) rs) m'
        × IsDrawn parts m'.devices)
  unfolding update_cycle
  update_cycle-Goes m n rs climate run talk small =
      let (s, d₁, d₂, d₃, e₁, e₂, e₃, r, k, quiet) = measurements-Go m n climate run small in
      let (esp, i, d₄, d₅, e₄, e₅, r', k', talk', drawn) =
        end-Goes m.control.esp_state m.control.await_counter rs d₃ r k (rw quiet talk) in
      let m' : Machine = record {
        control = record (m.control) {
          update_state = up_to_date;
          esp_state = esp;
          await_counter = i;
          ds18b20_state = s;
        };
        devices = d₅;
      } in
      let e : update_cycle parts m ≡ some m' = rw (e₁, e₂, e₃, e₄, e₅) refl in
      (m', e, ((r', k', update_cycle-count parts m m' n run.2 (omega arith) e), talk', drawn))
