-- ===== src/Tests/Averages.antt =====
-- average.c at concrete inputs.
use mathlib.Core.List.Permᴰ.{swap}
use quark_meteo_station.Base.{◌≡◌, ◌↔◌, refl, arith, some, [], ◌∷◌}
use quark_meteo_station.Base.Int.{pos, negsuc, neg_part}
use quark_meteo_station.Bmp280
use quark_meteo_station.Ds18b20
use quark_meteo_station.Ds18b20.{positive}
use quark_meteo_station.Dht11
use quark_meteo_station.Dht11.{checksum_error}
use quark_meteo_station.Average.{split}
use quark_meteo_station.Average.Running
use quark_meteo_station.Average.Running.{run-mean}
use quark_meteo_station.Average.Order.{run-perm}
use quark_meteo_station.Average.Outdoor
use quark_meteo_station.Average.Outdoor.{run-split-mean}
use quark_meteo_station.Average.Humidity
use quark_meteo_station.Average.Humidity.{run-mean-valid}
use quark_meteo_station.Tests.{indoor, outdoor, humid}

run-mean_example :
    Running.run (indoor ∷ indoor ∷ []) indoor
    ≡ some (
      Running.mean (indoor ∷ indoor ∷ indoor ∷ []),
      Running.totals (indoor ∷ indoor ∷ indoor ∷ []),
    )
run-mean_example =
    run-mean (indoor ∷ indoor ∷ []) indoor
      (
        (omega arith, omega arith),
        ((omega arith, omega arith), ((omega arith, omega arith), omega arith)),
      )
      (omega arith)

abbrev colder : Bmp280.Meas
colder = record { pressure = 99000; temperature = negsuc 1249 }

abbrev warm : Ds18b20.Meas
warm = record { sign = positive; integer = 21; fraction = 37 }

-- The same sum in the other order.
run-perm_example : Running.run (indoor ∷ []) colder ≡ Running.run (colder ∷ []) indoor
run-perm_example =
    run-perm (indoor ∷ []) colder (colder ∷ []) indoor (swap refl refl)
      ((omega arith, omega arith), ((omega arith, omega arith), omega arith)) (omega arith)

-- The mean of -5.25 and 21.37 degrees is 8.06 degrees.
outdoor_mean : Outdoor.mean (warm ∷ outdoor ∷ []) ≡ pos 806
unfolding quark_meteo_station.Base.Int.div_ℤ quark_meteo_station.Base.Int.◌+ℤ◌
outdoor_mean = refl

run-split-mean_example :
    let ms = warm ∷ outdoor ∷ [] in
    (Outdoor.run (outdoor ∷ []) warm ≡ some (split (Outdoor.mean ms), Outdoor.totals ms))
    × ((Outdoor.value (split (Outdoor.mean ms)) ≡ Outdoor.mean ms)
        ↔ (neg_part (Outdoor.mean ms) ≡ 0))
run-split-mean_example = run-split-mean (outdoor ∷ []) warm (omega arith) (omega arith)

abbrev broken : Dht11.Meas
broken = record { humidity = 0; temperature = checksum_error }

run-mean-valid_example :
    Humidity.run humid (humid ∷ broken ∷ humid ∷ [])
    ≡ some (Humidity.mean humid (humid ∷ humid ∷ []), Humidity.totals (humid ∷ humid ∷ []))
run-mean-valid_example =
    run-mean-valid humid (humid ∷ broken ∷ humid ∷ []) (omega arith) (omega arith)
