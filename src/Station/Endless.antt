-- ===== src/Station/Endless.antt =====
-- That main.c's loop goes on for ever in a mild climate: a round that sends ends too, and leaves the
-- next hour what the hour before it had.
use quark_meteo_station.Base.{
  ℕ, zero, suc, ◌+◌, ◌/◌, ◌%◌, leb, ◌<◌, ◌≤◌, ◌≡◌, refl, ap, ◌∙◌, arith, some, List, Returns, inl,
  inr,
}
use quark_meteo_station.Bmp280.{Cal}
use quark_meteo_station.Board.{Env}
use quark_meteo_station.Hd44780.Bus.{Msg, Shows}
use quark_meteo_station.Average
use quark_meteo_station.Average.{Averages}
use quark_meteo_station.Average.Mild.{AreBytes}
use quark_meteo_station.Average.Interface.{averaging}
use quark_meteo_station.Esp
use quark_meteo_station.Esp.{report}
use quark_meteo_station.Station.{
  ReadoutState, get_measurement, initial_control, Measurements, Devices, Machine, Parts,
  timer_callback, loop_body,
}
use quark_meteo_station.Station.Boot.{average_pointers, boot}
use quark_meteo_station.Station.Counts.{IsWithin, left}
use quark_meteo_station.Station.Cycle.{loop_body-round, round}
use quark_meteo_station.Station.Firmware.{Buffers, lcd_config, firmware}
use quark_meteo_station.Station.Mild.{averages, IsMildClimate, Keeps}
use quark_meteo_station.Station.Period.{state_at, second, Ran, now, later}
use quark_meteo_station.Station.Transmissions.{Transmissions, nothing, is_connected, sends}
use quark_meteo_station.Board.Untouched.{sent}
use quark_meteo_station.Station.Ready.{boot-IsReady, boot-IsWithin}
use quark_meteo_station.Station.Runs.{
  IsDrawn, loop_body-asked, left-kept, timer_callback-asks, timer_callback-quiet,
}
use quark_meteo_station.Station.Rounds.{IsRunning, HasSent, update_cycle-Goes}
use quark_meteo_station.Station.Table.{
  last_cases, second-next, next-lem, sends-last, timer_callback-is_connected, connected-at,
  next-sends,
}
use quark_meteo_station.Base.{List, [], ◌∷◌, length, ◌==◌, if◌then◌else◌}
use quark_meteo_station.Esp.{Report}

Counts-le : {i n : ℕ} → i ≤ n → (a : Averages) → IsWithin i a → IsWithin n a
Counts-le h a (c₁, c₂, c₃) = (omega arith, omega arith, omega arith)

-- What has been reported: the averages in the memory after each second that is a multiple of 3600.
module _ (parts : Parts) where
  abbrev pub reports : {t : ℕ} {m m' : Machine} → Ran parts t m m' → List Report
  reports now = []
  reports (later {t} {m₂} r e) =
      let rs = reports r in if suc t % 3600 == 0 then averages m₂.devices.meas ∷ rs else rs

  length-reports : {t : ℕ} {m m' : Machine} (r : Ran parts t m m') → length (reports r) ≡ t / 3600
  length-reports now = refl
  length-reports (later r e) = ground (arith, length-reports r)

-- `start` are the texts that were sent to the modem before.
module _ (parts : Parts) (cal : Cal) (start : List (List ℕ)) where
  -- How many measurements a second leaves in the averages.
  next-left :
      (s : ReadoutState) (u : ℕ)
      → u < 3600
      → left parts (timer_callback (state_at s u)).esp_state (u + 1 + 1) ≤ suc u % 3600 + 1
  next-left s u h = elim (last_cases u h) [
    | inl before ↦
        rw (left-kept parts _ (u + 1 + 1) (timer_callback-quiet s u before)) (omega arith)
    | inr last ↦ rw last (rw (sends-last s) (omega arith))
  ]

  -- A second of any hour.
  second-Goes :
      (s : ReadoutState) (t : ℕ) (m : Machine) (rs : List Report)
      → IsMildClimate parts cal
      → m.control ≡ state_at s (t % 3600)
      → IsRunning parts cal start (t % 3600 + 1) m.devices
      → HasSent parts cal start rs m
      → let m₁ : Machine = record m { control = timer_callback m.control } in
        Returns (loop_body parts m₁) (λ m₂.
          (m₂.control ≡ state_at s (suc t % 3600))
          × IsRunning parts cal start (suc t % 3600 + 1) m₂.devices
          × HasSent parts cal start
              (if suc t % 3600 == 0 then averages m₂.devices.meas ∷ rs else rs)
              m₂
          × IsDrawn parts m₂.devices)
  second-Goes s t m rs climate at run talk =
      let m₁ : Machine = record m { control = timer_callback m.control } in
      let same : is_connected (timer_callback m.control).esp_state
          ≡ is_connected m.control.esp_state =
        rw at (timer_callback-is_connected s (t % 3600) (omega arith)) in
      let talk₁ : HasSent parts cal start rs m₁ = rw same talk in
      let (m₂, e, ((r, k, c), talk₂, drawn)) =
        update_cycle-Goes parts cal start m₁ (t % 3600 + 1) rs climate run talk₁ (omega arith) in
      let step = loop_body-asked parts m₁ (timer_callback-asks m.control) ∙ e in
      let moved = loop_body-round parts m₁ step ∙ ap second at in
      let next = moved ∙ second-next s (t % 3600) (omega arith) in
      let bound : left parts m₁.control.esp_state (t % 3600 + 1 + 1) ≤ suc (t % 3600) % 3600 + 1 =
        rw at (next-left s (t % 3600) (omega arith)) in
      let few = Counts-le bound m₂.devices.averages.sums c in
      let m₂' = averages m₂.devices.meas in
      let reported =
        ap (λ c. sends (timer_callback c).esp_state m₂' rs) at ∙ next-sends s t m₂' rs in
      (
        m₂,
        step,
        (rw (next-lem t) at next, (r, k, rw (next-lem t) at few), rw reported at talk₂, drawn),
      )

  -- A machine that is idle with its counters at 0, in a mild climate and with at most one measurement in
  -- each average, runs for every number of seconds, is in the state of the table again and again, and has
  -- sent a transmission each hour.
  seconds-Go :
      (s : ReadoutState) (t : ℕ) (m : Machine)
      → IsMildClimate parts cal
      → m.control ≡ state_at s 0
      → IsRunning parts cal start 1 m.devices
      → HasSent parts cal start [] m
      → IsDrawn parts m.devices
      → (m' : Machine) × (ran : Ran parts t m m') × (m'.control ≡ state_at s (t % 3600))
        × IsRunning parts cal start (t % 3600 + 1) m'.devices
        × HasSent parts cal start (reports parts ran) m'
        × IsDrawn parts m'.devices
  seconds-Go s zero m climate at run talk drawn = (m, now, at, run, talk, drawn)
  seconds-Go s (suc t) m climate at run talk drawn =
      let (m₁, ran, at₁, run₁, talk₁, _) = seconds-Go s t m climate at run talk drawn in
      let (m₂, e, (at₂, run₂, talk₂, drawn₂)) =
        second-Goes s t m₁ (reports parts ran) climate at₁ run₁ talk₁ in
      (m₂, later ran e, at₂, run₂, talk₂, drawn₂)

module _ (env : Env) (buffers : Buffers) (d : Devices) {ms : List Msg}
    (waits : Shows lcd_config d.board ms) (bytes : AreBytes d.meas.outdoor)
    (bytes_avg : AreBytes d.meas.outdoor_avg) (byte_avg : d.meas.humid_avg.humidity < 256) where
  boot-Keeps :
      Keeps (firmware env buffers) (boot env buffers d).0.devices.cal (boot env buffers d).0.devices
  unfolding boot Average.average_init Esp.init
  boot-Keeps = record {
    words = refl;
    sums = (averaging {M = Measurements}).init-AreMild average_pointers d.averages;
    pointers = refl;
    esp = refl;
    outdoor_avg = bytes_avg;
    humid_avg = byte_avg;
  }

  -- Everything of this that the rounds keep: the table, what was sent, and what was drawn.
  pub boot-Runs :
      (t : ℕ)
      → IsMildClimate (firmware env buffers) (boot env buffers d).0.devices.cal
      → (m m' : Machine) × (loop_body (firmware env buffers) (boot env buffers d).0 ≡ some m)
        × (ran : Ran (firmware env buffers) t m m') × (m'.control
            ≡ state_at get_measurement (t % 3600))
        × Transmissions
            (sent (boot env buffers d).0.devices.board.log)
            (reports (firmware env buffers) ran)
            (leb 3590 (t % 3600))
            (sent m'.devices.board.log)
        × (length (reports (firmware env buffers) ran) ≡ t / 3600)
        × IsDrawn (firmware env buffers) m'.devices
  boot-Runs t climate =
      let parts = firmware env buffers in
      let m₀ = (boot env buffers d).0 in
      let cal = m₀.devices.cal in
      let texts = sent m₀.devices.board.log in
      let start : m₀.control ≡ initial_control = unfold boot in refl in
      let run : IsRunning parts cal texts 0 m₀.devices = (
        boot-IsReady env buffers d waits bytes,
        boot-Keeps,
        boot-IsWithin env buffers d waits bytes,
      ) in
      let talk : HasSent parts cal texts [] m₀ = rw start nothing in
      let (m, e, (run₁, talk₁, drawn)) =
        update_cycle-Goes parts cal texts m₀ 0 [] climate run talk (omega arith) in
      let step : loop_body parts m₀ ≡ some m =
        loop_body-asked parts m₀ (ap (λ c. c.update_state) start) ∙ e in
      let at = loop_body-round parts m₀ step ∙ ap round start in
      let (m', ran, at', _, talk', drawn') =
        seconds-Go parts cal texts get_measurement t m climate at (rw start at run₁)
          (rw start at talk₁) drawn in
      let phase : is_connected m'.control.esp_state ≡ leb 3590 (t % 3600) =
        rw at' (connected-at get_measurement (t % 3600)) in
      (m, m', step, ran, at', rw phase at talk', length-reports parts {m' = m'} ran, drawn')

  -- The station never stalls in a mild climate, and reports each hour. Where the display has taken every
  -- byte sent to it before, the memory of the outdoor measurement and of the averages holds bytes, and no
  -- transfer gives an indoor measurement, by the calibration words read at the start, that is below 0,
  -- over 2^19 hundredths of a degree or over 2^20 Pa: the first round of the loop behind the start
  -- returns, and so does, for every number of seconds, the round after the interrupt of each second,
  -- those that send included; the control state is then that of the table, which repeats each 3600
  -- seconds, and what the modem has been sent since the start is exactly one transmission for each whole
  -- 3600 seconds, of the averages that the memory holds after that second, which fit: the command for the
  -- connection, the command that announces the length of the request, and the request; and, where 3590
  -- seconds or more are left over, the next command for the connection.
  pub boot-Goes :
      (t : ℕ)
      → IsMildClimate (firmware env buffers) (boot env buffers d).0.devices.cal
      → (m m' : Machine) × (loop_body (firmware env buffers) (boot env buffers d).0 ≡ some m)
        × (ran : Ran (firmware env buffers) t m m') × (m'.control
            ≡ state_at get_measurement (t % 3600))
        × Transmissions
            (sent (boot env buffers d).0.devices.board.log)
            (reports (firmware env buffers) ran)
            (leb 3590 (t % 3600))
            (sent m'.devices.board.log)
        × (length (reports (firmware env buffers) ran) ≡ t / 3600)
  boot-Goes t climate =
      let (m, m', step, ran, at, talk, n, _) = boot-Runs t climate in
      (m, m', step, ran, at, talk, n)
