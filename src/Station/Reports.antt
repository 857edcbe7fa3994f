-- ===== src/Station/Reports.antt =====
-- The averages and the reports of main.c over the whole run of the station: those of its logbook.
use quark_meteo_station.Base.{ℕ, ◌≡◌, List, [], ◌∷◌}
use quark_meteo_station.Average
use quark_meteo_station.Station.{Devices, Machine, Parts}
use quark_meteo_station.Station.Averaged.{readings, sensed_by}
use quark_meteo_station.Station.Logbook.{Readings}
use quark_meteo_station.Station.Period.{Ran, now, later}
use quark_meteo_station.Station.Transmissions.{Transmissions}

module _ (parts : Parts) where
  -- What the drivers return in a round of this machine.
  abbrev sensed : Machine → Readings
  sensed m = sensed_by parts m.control.ds18b20_state m.devices

  -- The same for the first round, of the machine `m₀`, and for that of each second after it, the newest
  -- first.
  abbrev pub taken : Machine → {t : ℕ} {m m' : Machine} → Ran parts t m m' → List Readings
  taken m₀ now = sensed m₀ ∷ []
  taken m₀ (later {m₁} r e) = sensed m₁ ∷ taken m₀ r

  -- The newest of the readings is in the memory.
  abbrev pub Holds : List Readings → Devices → Type 0
  Holds [] d = Unit
  Holds (x ∷ xs) d = readings d.meas ≡ x
