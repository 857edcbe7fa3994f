-- ===== src/Station/Interrupts/Safe.antt =====
-- What no interrupt within a round can break.
use quark_meteo_station.Base.{ℕ, ◌≡◌, ◌≢◌, ◌⊎◌, inl, inr, arith, some, none, outcome}
use quark_meteo_station.Station.{
  TransmissionState, idle, connect_to_server, await_for_connection, send_data, Measurements,
  Machine, Parts, transmit, update_gui,
}
use quark_meteo_station.Station.Cycle.{IsSound, timer_callback-IsSound, transmit-after}
use quark_meteo_station.Station.Counts.{IsWithin, transmit-kept, update_gui-averages}
use quark_meteo_station.Station.Interrupts.Limits.{
  interrupt-IsSafeAt, IsSafeAt-bound, Taken-kept, Left-kept, Called-kept,
}
use quark_meteo_station.Station.Interrupts.{
  Stage, polling, requested, averaging_ds18b20, measuring_bmp280, averaging_bmp280, measuring_dht11,
  averaging_dht11, switching, switched, clearing, leaving, drawing, finishing, step, Interleaved,
  start, interrupt, advance,
}
use quark_meteo_station.Station.Interrupts.Measuring.{
  IsSafeIn, polling-IsSafeIn, requested-IsSafeIn, averaging_ds18b20-IsSafeIn,
  measuring_bmp280-IsSafeIn, averaging_bmp280-IsSafeIn, measuring_dht11-IsSafeIn,
  averaging_dht11-IsSafeIn,
}

module _ (parts : Parts) where
  switching-IsSafeIn :
      (m m' : Machine) (s' : Stage)
      → IsSafeIn parts switching m
      → step parts switching m ≡ some (s', m')
      → IsSafeIn parts s' m'
  unfolding step
  switching-IsSafeIn m m' s' safe e = ground arith

  switched-IsSafeIn :
      (s : TransmissionState) (m m' : Machine) (s' : Stage)
      → IsSafeIn parts (switched s) m
      → step parts (switched s) m ≡ some (s', m')
      → IsSafeIn parts s' m'
  unfolding step
  switched-IsSafeIn idle m m' s' safe e =
      elim (outcome (transmit parts idle m.control.await_counter m.devices)) [
        | inl e₁ ↦ ground arith
        | inr ((esp, n, d), e₁) ↦
            let moved = transmit-after parts idle m.control.await_counter m.devices e₁ in
            let averages = transmit-kept parts idle esp m.control.await_counter n m.devices d e₁ in
            ground arith
      ]
  switched-IsSafeIn connect_to_server m m' s' safe e =
      elim (outcome (transmit parts connect_to_server m.control.await_counter m.devices)) [
        | inl e₁ ↦ ground arith
        | inr ((esp, n, d), e₁) ↦
            let moved =
              transmit-after parts connect_to_server m.control.await_counter m.devices e₁ in
            let averages =
              transmit-kept parts connect_to_server esp m.control.await_counter n m.devices d e₁ in
            ground arith
      ]
  switched-IsSafeIn await_for_connection m m' s' safe e =
      elim (outcome (transmit parts await_for_connection m.control.await_counter m.devices)) [
        | inl e₁ ↦ ground arith
        | inr ((esp, n, d), e₁) ↦
            let moved =
              transmit-after parts await_for_connection m.control.await_counter m.devices e₁ in
            let averages =
              transmit-kept parts await_for_connection esp m.control.await_counter n m.devices d
                e₁ in
            ground arith
      ]
  switched-IsSafeIn send_data m m' s' safe e =
      let d = m.devices in
      elim (outcome (parts.modem.esp_send_measurements d.esp d.meas d.board)) [
        | inl e₁ ↦ ground arith
        | inr (b, e₁) ↦ ground arith
      ]

  clearing-IsSafeIn :
      (s esp : TransmissionState) (n : ℕ) (m m' : Machine) (s' : Stage)
      → IsSafeIn parts (clearing s esp n) m
      → step parts (clearing s esp n) m ≡ some (s', m')
      → IsSafeIn parts s' m'
  unfolding step
  clearing-IsSafeIn idle esp n m m' s' safe e = ground arith
  clearing-IsSafeIn connect_to_server esp n m m' s' safe e = ground arith
  clearing-IsSafeIn await_for_connection esp n m m' s' safe e = ground arith
  clearing-IsSafeIn send_data esp n m m' s' safe e =
      let cleared = parts.averaging.reset-Counts m.devices.averages in ground arith

  leaving-IsSafeIn :
      (s esp : TransmissionState) (n : ℕ) (m m' : Machine) (s' : Stage)
      → IsSafeIn parts (leaving s esp n) m
      → step parts (leaving s esp n) m ≡ some (s', m')
      → IsSafeIn parts s' m'
  unfolding step
  leaving-IsSafeIn idle esp n m m' s' safe e = ground arith
  leaving-IsSafeIn connect_to_server esp n m m' s' safe e = ground arith
  leaving-IsSafeIn await_for_connection esp n m m' s' safe e = ground arith
  leaving-IsSafeIn send_data esp n m m' s' safe e = ground arith

  drawing-IsSafeIn :
      (m m' : Machine) (s' : Stage)
      → IsSafeIn parts drawing m
      → step parts drawing m ≡ some (s', m')
      → IsSafeIn parts s' m'
  unfolding step
  drawing-IsSafeIn m m' s' safe e = elim (outcome (update_gui parts m.devices)) [
    | inl e₁ ↦ ground arith
    | inr (d, e₁) ↦ let c = update_gui-averages parts m.devices d e₁ in ground arith
  ]

  finishing-IsSafeIn :
      (m m' : Machine) (s' : Stage)
      → IsSafeIn parts finishing m
      → step parts finishing m ≡ some (s', m')
      → IsSafeIn parts s' m'
  unfolding step
  finishing-IsSafeIn m m' s' safe e = ground arith

  step-IsSafeIn :
      (s : Stage) (m m' : Machine) (s' : Stage)
      → IsSafeIn parts s m
      → step parts s m ≡ some (s', m')
      → IsSafeIn parts s' m'
  step-IsSafeIn polling m m' s' safe e = polling-IsSafeIn parts m m' s' safe e
  step-IsSafeIn requested m m' s' safe e = requested-IsSafeIn parts m m' s' safe e
  step-IsSafeIn averaging_ds18b20 m m' s' safe e = averaging_ds18b20-IsSafeIn parts m m' s' safe e
  step-IsSafeIn measuring_bmp280 m m' s' safe e = measuring_bmp280-IsSafeIn parts m m' s' safe e
  step-IsSafeIn averaging_bmp280 m m' s' safe e = averaging_bmp280-IsSafeIn parts m m' s' safe e
  step-IsSafeIn measuring_dht11 m m' s' safe e = measuring_dht11-IsSafeIn parts m m' s' safe e
  step-IsSafeIn averaging_dht11 m m' s' safe e = averaging_dht11-IsSafeIn parts m m' s' safe e
  step-IsSafeIn switching m m' s' safe e = switching-IsSafeIn m m' s' safe e
  step-IsSafeIn (switched s) m m' s' safe e = switched-IsSafeIn s m m' s' safe e
  step-IsSafeIn (clearing s esp n) m m' s' safe e = clearing-IsSafeIn s esp n m m' s' safe e
  step-IsSafeIn (leaving s esp n) m m' s' safe e = leaving-IsSafeIn s esp n m m' s' safe e
  step-IsSafeIn drawing m m' s' safe e = drawing-IsSafeIn m m' s' safe e
  step-IsSafeIn finishing m m' s' safe e = finishing-IsSafeIn m m' s' safe e

  Interleaved-IsSafeIn : (s : Stage) (m : Machine) → Interleaved parts s m → IsSafeIn parts s m
  Interleaved-IsSafeIn s m (start d c) = ((omega arith, omega arith), c)
  Interleaved-IsSafeIn s m (interrupt s₁ m₁ r) =
      let (sound, safe) = Interleaved-IsSafeIn s₁ m₁ r in
      (
        timer_callback-IsSound m₁.control sound,
        interrupt-IsSafeAt s₁ m₁.control m₁.devices.averages.sums sound safe,
      )
  Interleaved-IsSafeIn s m (advance s₁ s₂ m₁ m₂ r e) =
      step-IsSafeIn s₁ m₁ m s (Interleaved-IsSafeIn s₁ m₁ r) e

  -- With the interrupt of the timer before any step of a round (the test of the request, each
  -- sensor's measurement, the update of each average, the switch, the calls of its case, the clearing
  -- of the averages, what the case writes, the display, the end of the round), any number of times:
  -- the counters stay in their bounds, no average is of more than 3601 measurements, so each of its
  -- updates returns, and in a case of the transmission other than the idle one the state is that of
  -- the case until the case itself has written it.
  pub Interleaved-safe :
      (s : Stage) (m : Machine) (memory : Measurements)
      → Interleaved parts s m
      → let statics = m.devices.averages in
        IsSound m.control
        × IsWithin 3601 statics.sums
        × (parts.averaging.average_update_bmp280 memory statics ≢ none)
        × (parts.averaging.average_update_ds18b20 memory statics ≢ none)
        × (parts.averaging.average_update_dht11 memory statics ≢ none)
        × ((t esp : TransmissionState) (n : ℕ)
            → t ≢ idle
            → (s ≡ switched t) ⊎ (s ≡ clearing t esp n) ⊎ (s ≡ leaving t esp n)
            → m.control.esp_state ≡ t)
  Interleaved-safe s m memory r =
      let statics = m.devices.averages in
      let (sound, safe) = Interleaved-IsSafeIn s m r in
      let w = IsSafeAt-bound s m.control statics.sums sound safe in
      let (r₁, e₁, _) = parts.averaging.update_bmp280-Counts memory statics w (omega arith) in
      let (r₂, e₂, _) = parts.averaging.update_ds18b20-Counts memory statics w (omega arith) in
      let (r₃, e₃, _) = parts.averaging.update_dht11-Counts memory statics w (omega arith) in
      (
        sound,
        w,
        (λ e. ground arith),
        (λ e. ground arith),
        (λ e. ground arith),
        (λ t esp n ne is. elim is [
          | inl e ↦ Taken-kept t m.control statics.sums ne (rw e at safe)
          | inr (inl e) ↦ Called-kept t esp n m.control statics.sums ne (rw e at safe)
          | inr (inr e) ↦ Left-kept t esp n m.control statics.sums ne (rw e at safe)
        ]),
      )
