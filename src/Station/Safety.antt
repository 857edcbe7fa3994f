-- ===== src/Station/Safety.antt =====
-- What no order of timer interrupts and rounds of main.c's loop can break. An interrupt comes
-- between two rounds here, not within one.
use quark_meteo_station.Base.{ℕ, ◌+◌, ◌≤◌, ◌<◌, ◌≡◌, ◌≢◌, inl, inr, arith, some, none, outcome}
use quark_meteo_station.Average.Counts.{Counts}
use quark_meteo_station.Station.{
  TransmissionState, idle, connect_to_server, await_for_connection, send_data, GuiState, up_to_date,
  update_request, Control, Measurements, Devices, Machine, Parts, initial_control, timer_callback,
  update_cycle, loop_body,
}
use quark_meteo_station.Station.Cycle.{loop_body-round, IsSound}
use quark_meteo_station.Station.Counts.{IsWithin, update_cycle-count}

-- The measurements that the averages can have: in the idle state one for each second counted and
-- the first, less the round that is asked for.
abbrev pub limit_in : TransmissionState → GuiState → ℕ → ℕ → ℕ
limit_in idle up_to_date n k = n + 1
limit_in idle update_request n k = n
limit_in connect_to_server s n k = 3590
limit_in await_for_connection s n k = 3591 + k
limit_in send_data s n k = 3600

abbrev pub limit : Control → ℕ
limit c = limit_in c.esp_state c.update_state c.server_update_counter c.await_counter

-- The counters in their bounds, and the averages within the limit.
abbrev pub IsSafe : Machine → Type 0
IsSafe m = IsSound m.control × IsWithin (limit m.control) m.devices.averages.sums

tick-IsSafe : (m : Machine) → IsSafe m → IsSafe (record m { control = timer_callback m.control })
unfolding timer_callback
tick-IsSafe m h = ground arith

limit-bound : (c : Control) → IsSound c → limit c ≤ 3600
limit-bound c h = ground arith

module _ (parts : Parts) where
  loop_body-IsSafe : (m m' : Machine) → IsSafe m → loop_body parts m ≡ some m' → IsSafe m'
  unfolding loop_body
  loop_body-IsSafe m m' (sound, within) h =
      let e = loop_body-round parts m h in
      elim (outcome (update_cycle parts m)) [
        | inl e₁ ↦ ground arith
        | inr (m₁, e₁) ↦
            let w = update_cycle-count parts m m₁ (limit m.control) within (ground arith) e₁ in
            ground arith
      ]

  -- A machine that interrupts and rounds, in any order, make of the one that `main` starts with.
  pub data Reach : Machine → Type 0 where
    start :
        (d : Devices)
        → Counts 0 0 0 d.averages.sums
        → Reach (record { control = initial_control; devices = d })
    tick : (m : Machine) → Reach m → Reach (record m { control = timer_callback m.control })
    loop : (m m' : Machine) → Reach m → loop_body parts m ≡ some m' → Reach m'

  Reach-IsSafe : (m : Machine) → Reach m → IsSafe m
  Reach-IsSafe m (start d h) = ground arith
  Reach-IsSafe m (tick m₁ r) = tick-IsSafe m₁ (Reach-IsSafe m₁ r)
  Reach-IsSafe m (loop m₁ m₂ r h) = loop_body-IsSafe m₁ m (Reach-IsSafe m₁ r) h

  -- In whatever order the timer interrupts and the rounds of the loop come: no average is ever of
  -- more than 3600 measurements, so each of the three updates of the averages returns, whatever the
  -- measurements are: it does not divide by 0.
  pub Reach-averages_defined :
      (m : Machine) (memory : Measurements)
      → Reach m
      → let statics = m.devices.averages in
        IsWithin 3600 statics.sums
        × (parts.averaging.average_update_bmp280 memory statics ≢ none)
        × (parts.averaging.average_update_ds18b20 memory statics ≢ none)
        × (parts.averaging.average_update_dht11 memory statics ≢ none)
  Reach-averages_defined m memory r =
      let statics = m.devices.averages in
      let w = (Reach-IsSafe m r).1 in
      let bound : limit m.control ≤ 3600 = limit-bound m.control (Reach-IsSafe m r).0 in
      let small : limit m.control < 65535 = omega (arith, bound) in
      let (r₁, e₁, _) = parts.averaging.update_bmp280-Counts memory statics w small in
      let (r₂, e₂, _) = parts.averaging.update_ds18b20-Counts memory statics w small in
      let (r₃, e₃, _) = parts.averaging.update_dht11-Counts memory statics w small in
      (
        (omega (arith, w), omega (arith, w), omega (arith, w)),
        (λ e. ground arith),
        (λ e. ground arith),
        (λ e. ground arith),
      )
