-- ===== src/Station/Runs.antt =====
-- That main.c's loop goes on: a round that has nothing to send ends, and so do all rounds of the first
-- hour.
use quark_meteo_station.Base.{
  some, returned, ℕ, zero, suc, ◌+◌, ◌-◌, ◌<◌, ◌≡◌, ◌≢◌, refl, ◌∙◌, arith, Returns, Bool-cases, inl,
  inr, leb, if◌then◌else◌,
}
use quark_meteo_station.Base.Word.{u8}
use quark_meteo_station.Esp.{connection_time}
use quark_meteo_station.Gui.Interface.{AreInRange}
use quark_meteo_station.Average.Mild.{IsMild}
use quark_meteo_station.Station.{
  ReadoutState, TransmissionState, idle, connect_to_server, await_for_connection, send_data,
  up_to_date, update_request, Control, Devices, Machine, Parts, timer_callback, transmit,
  update_gui, update_cycle, loop_body,
}
use quark_meteo_station.Station.Counts.{IsWithin, left, update_cycle-count}
use quark_meteo_station.Station.Period.{state_at, Ran, now, later, Ran-state_at}
use quark_meteo_station.Station.Progress.{
  IsReady, Measured, readout-Returns, measure_bmp280-Returns, measure_dht11-Returns,
}

pub timer_callback-asks : (c : Control) → (timer_callback c).update_state ≡ update_request
unfolding timer_callback
timer_callback-asks c = ground arith

-- No interrupt of the first hour finds the station about to send.
pub timer_callback-quiet :
    (s : ReadoutState) (t : ℕ) → t < 3599 → (timer_callback (state_at s t)).esp_state ≢ send_data
unfolding timer_callback
timer_callback-quiet s t h e = ground arith

module _ (parts : Parts) where
  open parts use {screen, modem}

  pub transmit-Returns :
      (s : TransmissionState) (n : ℕ) (d : Devices)
      → s ≢ send_data
      → Measured parts d
      → Returns (transmit parts s n d) (λ r. Measured parts r.2)
  unfolding transmit
  transmit-Returns idle n d ne (r, range) = ((idle, n, d), refl, (r, range))
  transmit-Returns connect_to_server n d ne (r, range) =
      let (b, e, u) = modem.connect_to_server-Untouched d.board in
      let ready = screen.Untouched-IsReady u r.screen_ready in
      let d' : Devices = record d { board = b } in
      (
        (await_for_connection, n, d'),
        rw e refl,
        (
          record { screen_ready = ready; gui = r.gui; pointers = r.pointers; bytes = r.bytes },
          range,
        ),
      )
  transmit-Returns await_for_connection n d ne (r, range) =
      let after =
        if leb (connection_time - 1) (u8 (n + 1))
        then (send_data, 0, d)
        else (await_for_connection, u8 (n + 1), d) in
      (
        after,
        refl,
        elim (Bool-cases (leb (connection_time - 1) (u8 (n + 1)))) [
          | inl e ↦ rw e (r, range)
          | inr e ↦ rw e (r, range)
        ],
      )
  transmit-Returns send_data n d ne h = absurd (ne refl)

  pub update_gui-Returns :
      (d : Devices) → Measured parts d → Returns (update_gui parts d) (IsReady parts)
  unfolding update_gui
  update_gui-Returns d (r, range) =
      let range' : AreInRange (d.gui.bmp280_meas d.meas) (d.gui.ds18b20_meas d.meas)
          (d.gui.dht11_meas d.meas) =
        rw r.gui range in
      let (b, e, ready, drawn) = screen.update-IsReady d.gui d.meas d.board range' r.screen_ready in
      (
        record d { board = b },
        rw e refl,
        record { screen_ready = ready; gui = r.gui; pointers = r.pointers; bytes = r.bytes },
      )

  -- What the display has behind a round: its measurements, which are in their ranges.
  abbrev pub IsDrawn : Devices → Type 0
  IsDrawn d =
      let m = d.meas in
      screen.Drawn m.indoor m.outdoor m.humid d.board
      × IsMild m.indoor
      × AreInRange m.indoor m.outdoor m.humid

  -- The measurements are drawn.
  pub update_gui-Drawn :
      (d d' : Devices)
      → Measured parts d
      → update_gui parts d ≡ some d'
      → screen.Drawn d'.meas.indoor d'.meas.outdoor d'.meas.humid d'.board
  unfolding update_gui
  update_gui-Drawn d d' (r, range) e =
      let range' : AreInRange (d.gui.bmp280_meas d.meas) (d.gui.ds18b20_meas d.meas)
          (d.gui.dht11_meas d.meas) =
        rw r.gui range in
      let (b, done, ready, drawn) =
        screen.update-IsReady d.gui d.meas d.board range' r.screen_ready in
      let drawn' : screen.Drawn d.meas.indoor d.meas.outdoor d.meas.humid b = rw r.gui at drawn in
      returned {A = Devices} (λ x. screen.Drawn x.meas.indoor x.meas.outdoor x.meas.humid x.board)
        (record d { board = b }, rw done refl, drawn') e

  -- A round returns that finds the machine ready, with fewer than 65535 measurements in each average,
  -- and that has nothing to send.
  pub update_cycle-Returns :
      (m : Machine) (n : ℕ)
      → IsReady parts m.devices
      → IsWithin n m.devices.averages.sums
      → n < 65535
      → m.control.esp_state ≢ send_data
      → Returns (update_cycle parts m) (λ m'. IsReady parts m'.devices)
  unfolding update_cycle
  update_cycle-Returns m n r c small ne =
      let ((s, d₁), e₁, (r₁, c₁)) =
        readout-Returns parts m.control.ds18b20_state m.devices n r c small in
      let (d₂, e₂, (r₂, c₂)) = measure_bmp280-Returns parts d₁ n r₁ c₁ small in
      let (d₃, e₃, (r₃, c₃)) = measure_dht11-Returns parts d₂ n r₂ c₂ small in
      let ((esp, k, d₄), e₄, r₄) =
        transmit-Returns m.control.esp_state m.control.await_counter d₃ ne r₃ in
      let (d₅, e₅, r₅) = update_gui-Returns d₄ r₄ in
      (
        record {
          control = record (m.control) {
            update_state = up_to_date;
            esp_state = esp;
            await_counter = k;
            ds18b20_state = s;
          };
          devices = d₅;
        },
        rw (e₁, e₂, e₃, e₄, e₅) refl,
        r₅,
      )

  pub loop_body-asked :
      (m : Machine)
      → m.control.update_state ≡ update_request
      → loop_body parts m ≡ update_cycle parts m
  unfolding loop_body
  loop_body-asked m e = rw e refl

  pub left-kept : (s : TransmissionState) (n : ℕ) → s ≢ send_data → left parts s n ≡ n
  left-kept idle n ne = refl
  left-kept connect_to_server n ne = refl
  left-kept await_for_connection n ne = refl
  left-kept send_data n ne = absurd (ne refl)

  -- A second of the first hour.
  second-Returns :
      (s : ReadoutState) (t : ℕ) (m : Machine)
      → t < 3599
      → m.control ≡ state_at s t
      → IsReady parts m.devices
      → IsWithin (t + 1) m.devices.averages.sums
      → let m₁ : Machine = record m { control = timer_callback m.control } in
        Returns
          (loop_body parts m₁)
          (λ m₂. IsReady parts m₂.devices × IsWithin (suc t + 1) m₂.devices.averages.sums)
  second-Returns s t m h at r c =
      let m₁ : Machine = record m { control = timer_callback m.control } in
      let ne : m₁.control.esp_state ≢ send_data = rw at (timer_callback-quiet s t h) in
      let (m₂, e, r₂) = update_cycle-Returns m₁ (t + 1) r c (omega arith) ne in
      let c₂ = update_cycle-count parts m₁ m₂ (t + 1) c (omega arith) e in
      let count : left parts m₁.control.esp_state (t + 1 + 1) ≡ suc t + 1 =
        left-kept m₁.control.esp_state (t + 1 + 1) ne ∙ omega arith in
      (m₂, loop_body-asked m₁ (timer_callback-asks m.control) ∙ e, (r₂, rw count at c₂))

  -- A ready machine that is idle with its counters at 0 and at most one measurement in each average
  -- runs through every number of seconds below 3600, each of them an interrupt and a round: every round
  -- returns. The machine that it comes to is ready again.
  pub seconds-Returns :
      (s : ReadoutState) (t : ℕ) (m : Machine)
      → t < 3600
      → m.control ≡ state_at s 0
      → IsReady parts m.devices
      → IsWithin 1 m.devices.averages.sums
      → (m' : Machine) × Ran parts t m m'
        × IsReady parts m'.devices
        × IsWithin (t + 1) m'.devices.averages.sums
  seconds-Returns s zero m h e r c = (m, now, r, c)
  seconds-Returns s (suc t) m h e r c =
      let (m₁, ran, r₁, c₁) = seconds-Returns s t m (omega arith) e r c in
      let at = Ran-state_at parts s t (omega arith) e ran in
      let (m₂, e₂, (r₂, c₂)) = second-Returns s t m₁ (omega arith) at r₁ c₁ in
      (m₂, later ran e₂, r₂, c₂)
