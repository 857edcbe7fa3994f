-- ===== src/Station/Logbook.antt =====
-- What the station has to report, from the readings of its sensors alone: the specification of the
-- averages and of the transmissions of main.c.
use quark_meteo_station.Base.{
  ℕ, suc, ◌-◌, ◌%◌, ◌/◌, ◌≤◌, ◌≡◌, refl, arith, Bool, true, false, List, [], ◌∷◌, length, ltb, ◌==◌,
  ◌&&◌, if◌then◌else◌, Bool-cases, inl, inr,
}
use quark_meteo_station.Bmp280
use quark_meteo_station.Ds18b20
use quark_meteo_station.Dht11
use quark_meteo_station.Average.{split}
use quark_meteo_station.Average.Running
use quark_meteo_station.Average.Outdoor
use quark_meteo_station.Average.Humidity
use quark_meteo_station.Average.Humidity.{valid}
use quark_meteo_station.Average.Sums.{Hour, no_measurements}
use quark_meteo_station.Esp.{Report}

-- What the sensors say in a round.
pub record Readings : Type 0 where
  pub indoor : Bmp280.Meas
  pub outdoor : Ds18b20.Meas
  pub humid : Dht11.Meas

-- The means of the measurements of an hour; those of the hour before where there are none.
abbrev pub indoor_mean : Bmp280.Meas → List Bmp280.Meas → Bmp280.Meas
indoor_mean old [] = old
indoor_mean old (x ∷ xs) = Running.mean (x ∷ xs)

abbrev pub outdoor_mean : Ds18b20.Meas → List Ds18b20.Meas → Ds18b20.Meas
outdoor_mean old [] = old
outdoor_mean old (y ∷ ys) = split (Outdoor.mean (y ∷ ys))

abbrev pub means : Report → Hour → Report
means old h = record {
  indoor = indoor_mean old.indoor h.indoor;
  outdoor = outdoor_mean old.outdoor h.outdoor;
  humid = Humidity.mean old.humid (valid h.humid);
}

-- The averages at the last transmission, the measurements since, and what has been reported, the
-- newest first.
pub record Logbook : Type 0 where
  pub last : Report
  pub hour : Hour
  pub reports : List Report

abbrev pub shown : Logbook → Report
shown a = means a.last a.hour

-- A round takes the readings, those of the outdoor sensor in every second round only.
abbrev pub measure : Bool → Readings → Hour → Hour
measure takes x h = record {
  indoor = x.indoor ∷ h.indoor;
  outdoor = if takes then x.outdoor ∷ h.outdoor else h.outdoor;
  humid = x.humid ∷ h.humid;
}

-- A round that is due reports the means and starts anew.
abbrev pub close : Bool → Logbook → Logbook
close true a = record { last = shown a; hour = no_measurements; reports = shown a ∷ a.reports }
close false a = a

abbrev pub note : Bool → Bool → Readings → Logbook → Logbook
note takes due x a = close due (record a { hour = measure takes x a.hour })

abbrev pub is_due : ℕ → Bool
is_due t = ltb 0 t && t % 3600 == 0

-- After the rounds with these readings, the newest first: the first round, and then one each second;
-- before them the memory held these averages.
abbrev pub logbook : Report → List Readings → Logbook
logbook old [] = record { last = old; hour = no_measurements; reports = [] }
logbook old (x ∷ xs) = note (length xs % 2 == 1) (is_due (length xs)) x (logbook old xs)

-- How many measurements an hour has after so many rounds.
abbrev count : ℕ → ℕ
count n = if ltb n 3601 then n else (n - 1) % 3600

abbrev pub IsAtMost : ℕ → Hour → Type 0
IsAtMost n h = (length h.indoor ≤ n) × (length h.outdoor ≤ n) × (length h.humid ≤ n)

measure-IsAtMost :
    (takes : Bool) (x : Readings) (h : Hour) (n : ℕ)
    → IsAtMost n h
    → IsAtMost (suc n) (measure takes x h)
measure-IsAtMost true x h n (a, b, c) = omega arith
measure-IsAtMost false x h n (a, b, c) = omega arith

logbook-IsAtMost :
    (old : Report) (xs : List Readings) → IsAtMost (count (length xs)) (logbook old xs).hour
logbook-IsAtMost old [] = omega arith
logbook-IsAtMost old (x ∷ xs) =
    let n = length xs in
    let before = logbook-IsAtMost old xs in
    let (a, b, c) = measure-IsAtMost (n % 2 == 1) x (logbook old xs).hour (count n) before in
    elim (Bool-cases (is_due n)) [
      | inl due ↦ rw due (omega arith)
      | inr more ↦
          let next : suc (count n) ≡ count (suc n) = ground arith in rw more (rw (← next) (a, b, c))
    ]

-- So no count of measurements overflows.
pub logbook-hour_bounded : (old : Report) (xs : List Readings) → IsAtMost 3601 (logbook old xs).hour
logbook-hour_bounded old xs =
    let (a, b, c) = logbook-IsAtMost old xs in
    let bound : count (length xs) ≤ 3601 = ground arith in (omega arith, omega arith, omega arith)

-- A report for each 3600 seconds.
pub length-reports :
    (old : Report) (xs : List Readings) → length (logbook old xs).reports ≡ (length xs - 1) / 3600
length-reports old [] = refl
length-reports old (x ∷ xs) = elim (Bool-cases (is_due (length xs))) [
  | inl due ↦ rw due (ground (arith, length-reports old xs))
  | inr more ↦ rw more (ground (arith, length-reports old xs))
]
