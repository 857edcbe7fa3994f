-- ===== src/Station/Interrupts/Measuring.antt =====
-- The steps of a round up to the switch keep the machine safe.
use quark_meteo_station.Base.{ℕ, ◌+◌, ◌<◌, ◌≡◌, refl, inl, inr, arith, some, outcome}
use quark_meteo_station.Average.Counts.{Counts}
use quark_meteo_station.Station.{
  ReadoutState, request_conversion, get_measurement, Devices, Machine, Parts,
}
use quark_meteo_station.Station.Cycle.{IsSound}
use quark_meteo_station.Station.Counts.{IsWithin}
use quark_meteo_station.Station.Interrupts.Limits.{asked, IsSafeAt, asked-bound}
use quark_meteo_station.Station.Interrupts.{
  Stage, polling, requested, averaging_ds18b20, measuring_bmp280, averaging_bmp280, measuring_dht11,
  averaging_dht11, step, store_ds18b20, average_ds18b20, average_bmp280, average_dht11,
}

module _ (parts : Parts) where
  -- The machine with its stage is safe.
  abbrev pub IsSafeIn : Stage → Machine → Type 0
  IsSafeIn s m = IsSound m.control × IsSafeAt s m.control m.devices.averages.sums

  store_ds18b20-averages :
      (s : ReadoutState) (d : Devices) → (store_ds18b20 parts s d).averages ≡ d.averages
  store_ds18b20-averages request_conversion d = refl
  store_ds18b20-averages get_measurement d = refl

  -- How many measurements the averages have behind an update.
  average_ds18b20-count :
      (s s' : ReadoutState) (d d' : Devices) (n : ℕ)
      → IsWithin n d.averages.sums
      → n < 65535
      → average_ds18b20 parts s d ≡ some (s', d')
      → Counts n (n + 1) n d'.averages.sums
  average_ds18b20-count request_conversion s' d d' n w h e = ground arith
  average_ds18b20-count get_measurement s' d d' n w h e =
      let (r, e₁, (c, _)) = parts.averaging.update_ds18b20-Counts d.meas d.averages w h in
      ground arith

  average_bmp280-count :
      (d d' : Devices) (n : ℕ)
      → Counts n (n + 1) n d.averages.sums
      → n < 65535
      → average_bmp280 parts d ≡ some d'
      → Counts (n + 1) (n + 1) n d'.averages.sums
  average_bmp280-count d d' n w h e =
      let (r, e₁, (c, _)) = parts.averaging.update_bmp280-Counts d.meas d.averages w h in
      ground arith

  average_dht11-count :
      (d d' : Devices) (n : ℕ)
      → Counts (n + 1) (n + 1) n d.averages.sums
      → n < 65535
      → average_dht11 parts d ≡ some d'
      → IsWithin (n + 1) d'.averages.sums
  average_dht11-count d d' n w h e =
      let (r, e₁, (c, _)) = parts.averaging.update_dht11-Counts d.meas d.averages w h in
      ground arith

  pub polling-IsSafeIn :
      (m m' : Machine) (s' : Stage)
      → IsSafeIn polling m
      → step parts polling m ≡ some (s', m')
      → IsSafeIn s' m'
  unfolding step
  polling-IsSafeIn m m' s' safe e = ground arith

  pub requested-IsSafeIn :
      (m m' : Machine) (s' : Stage)
      → IsSafeIn requested m
      → step parts requested m ≡ some (s', m')
      → IsSafeIn s' m'
  unfolding step
  requested-IsSafeIn m m' s' (sound, safe) e =
      let same = store_ds18b20-averages m.control.ds18b20_state m.devices in ground arith

  pub averaging_ds18b20-IsSafeIn :
      (m m' : Machine) (s' : Stage)
      → IsSafeIn averaging_ds18b20 m
      → step parts averaging_ds18b20 m ≡ some (s', m')
      → IsSafeIn s' m'
  unfolding step
  averaging_ds18b20-IsSafeIn m m' s' (sound, safe) e =
      let small : asked m.control < 65535 = omega (arith, asked-bound m.control sound) in
      elim (outcome (average_ds18b20 parts m.control.ds18b20_state m.devices)) [
        | inl e₁ ↦ ground arith
        | inr ((next, d), e₁) ↦
            let c =
              average_ds18b20-count m.control.ds18b20_state next m.devices d (asked m.control) safe
                small e₁ in
            ground arith
      ]

  pub measuring_bmp280-IsSafeIn :
      (m m' : Machine) (s' : Stage)
      → IsSafeIn measuring_bmp280 m
      → step parts measuring_bmp280 m ≡ some (s', m')
      → IsSafeIn s' m'
  unfolding step
  measuring_bmp280-IsSafeIn m m' s' safe e = ground arith

  pub averaging_bmp280-IsSafeIn :
      (m m' : Machine) (s' : Stage)
      → IsSafeIn averaging_bmp280 m
      → step parts averaging_bmp280 m ≡ some (s', m')
      → IsSafeIn s' m'
  unfolding step
  averaging_bmp280-IsSafeIn m m' s' (sound, safe) e =
      let small : asked m.control < 65535 = omega (arith, asked-bound m.control sound) in
      elim (outcome (average_bmp280 parts m.devices)) [
        | inl e₁ ↦ ground arith
        | inr (d, e₁) ↦
            let c = average_bmp280-count m.devices d (asked m.control) safe small e₁ in ground arith
      ]

  pub measuring_dht11-IsSafeIn :
      (m m' : Machine) (s' : Stage)
      → IsSafeIn measuring_dht11 m
      → step parts measuring_dht11 m ≡ some (s', m')
      → IsSafeIn s' m'
  unfolding step
  measuring_dht11-IsSafeIn m m' s' safe e = ground arith

  pub averaging_dht11-IsSafeIn :
      (m m' : Machine) (s' : Stage)
      → IsSafeIn averaging_dht11 m
      → step parts averaging_dht11 m ≡ some (s', m')
      → IsSafeIn s' m'
  unfolding step
  averaging_dht11-IsSafeIn m m' s' (sound, safe) e =
      let small : asked m.control < 65535 = omega (arith, asked-bound m.control sound) in
      elim (outcome (average_dht11 parts m.devices)) [
        | inl e₁ ↦ ground arith
        | inr (d, e₁) ↦
            let c = average_dht11-count m.devices d (asked m.control) safe small e₁ in ground arith
      ]
