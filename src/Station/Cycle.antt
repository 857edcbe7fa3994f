-- ===== src/Station/Cycle.antt =====
-- The control state of main.c by itself: what a round of the main loop does to it, and the
-- invariant that every interleaving of rounds and timer interrupts keeps.
use quark_meteo_station.Base.{
  ℕ, ◌+◌, ◌<◌, ◌≡◌, ◌≢◌, inl, inr, arith, some, leb, if◌then◌else◌, outcome,
}
use quark_meteo_station.Base.Word.{u8}
use quark_meteo_station.Station.{
  ReadoutState, request_conversion, get_measurement, TransmissionState, idle, connect_to_server,
  await_for_connection, send_data, GuiState, up_to_date, update_request, Control, Devices, Machine,
  Parts, timer_callback, readout, measure_bmp280, measure_dht11, transmit, update_cycle, loop_body,
}

-- The diagram of the transmission: a round of the loop in each state.
abbrev pub after : TransmissionState → ℕ → TransmissionState × ℕ
after idle n = (idle, n)
after connect_to_server n = (await_for_connection, n)
after await_for_connection n =
    if leb 9 (u8 (n + 1)) then (send_data, 0) else (await_for_connection, u8 (n + 1))
after send_data n = (idle, n)

abbrev pub toggled : ReadoutState → ReadoutState
toggled request_conversion = get_measurement
toggled get_measurement = request_conversion

abbrev pub round_if : GuiState → Control → Control
round_if up_to_date c = c
round_if update_request c =
    let (esp, n) = after c.esp_state c.await_counter in
    record c {
      update_state = up_to_date;
      esp_state = esp;
      await_counter = n;
      ds18b20_state = toggled c.ds18b20_state;
    }

-- A round of the loop.
abbrev pub round : Control → Control
round c = round_if c.update_state c

module _ (parts : Parts) where
  pub readout-toggled :
      (s : ReadoutState) (d : Devices) {s' : ReadoutState} {d' : Devices}
      → readout parts s d ≡ some (s', d')
      → s' ≡ toggled s
  unfolding readout
  readout-toggled request_conversion d h = cc
  readout-toggled get_measurement d h = ground arith

  pub transmit-after :
      (s : TransmissionState) (n : ℕ) (d : Devices) {s' : TransmissionState} {n' : ℕ} {d' : Devices}
      → transmit parts s n d ≡ some (s', n', d')
      → (s', n') ≡ after s n
  unfolding transmit
  transmit-after idle n d h = cc
  transmit-after connect_to_server n d h = ground arith
  transmit-after await_for_connection n d h = ground arith
  transmit-after send_data n d h = ground arith

  update_cycle-control :
      (m : Machine) {m' : Machine}
      → update_cycle parts m ≡ some m'
      → m'.control ≡ round_if update_request m.control
  unfolding update_cycle
  update_cycle-control m h = elim (outcome (readout parts m.control.ds18b20_state m.devices)) [
    | inl e ↦ ground arith
    | inr ((next, d₁), e) ↦ elim (outcome (measure_bmp280 parts d₁)) [
      | inl e₁ ↦ ground arith
      | inr (d₂, e₁) ↦ elim (outcome (measure_dht11 parts d₂)) [
        | inl e₂ ↦ ground arith
        | inr (d₃, e₂) ↦
            elim (outcome (transmit parts m.control.esp_state m.control.await_counter d₃)) [
              | inl e₃ ↦ ground arith
              | inr ((esp, n, d₄), e₃) ↦
                  ground (arith, readout-toggled _ _ e, transmit-after _ _ _ e₃)
            ]
      ]
    ]
  ]

  -- Whatever the sensors, the display and the modem do: a round of the loop that ends has moved the
  -- control state as `round` says.
  pub loop_body-round :
      (m : Machine) {m' : Machine} → loop_body parts m ≡ some m' → m'.control ≡ round m.control
  unfolding loop_body
  loop_body-round m {m'} h = ground (arith, update_cycle-control m {m' = m'})

-- The control state is one that the counters can have: the counter of the idle state below the
-- time of the next transmission, the counter of the waiting state below its end.
abbrev pub IsSound : Control → Type 0
IsSound c = (c.server_update_counter < 3590) × (c.await_counter < 9)

-- The timer interrupt and a round of the loop keep the counters in their bounds.
pub timer_callback-IsSound : (c : Control) → IsSound c → IsSound (timer_callback c)
unfolding timer_callback
timer_callback-IsSound c h = ground arith

pub round-IsSound : (c : Control) → IsSound c → IsSound (round c)
round-IsSound c h = ground arith

-- The timer interrupt never disturbs a transmission: from the moment that the connection is asked
-- for until the data are sent, it leaves the state of the transmission, the counters and the
-- sensor's state as they are, and only asks for the next round.
pub timer_callback-busy :
    (c : Control)
    → IsSound c
    → c.esp_state ≢ idle
    → timer_callback c ≡ record c { update_state = update_request }
unfolding timer_callback
timer_callback-busy c h busy = ground arith
