-- ===== src/Tests/Buses.antt =====
-- onewire.c, DS18B20.c, DHT11.c, I2C.c and BMP280.c at concrete inputs.
use quark_meteo_station.Base.{
  ℕ, ◌+◌, ◌-◌, ◌*◌, ◌/◌, ◌%◌, ◌^◌, ◌≤◌, ◌≡◌, ◌≢◌, ◌↔◌, inr, refl, arith, true, [], ◌∷◌, ltb,
  if◌then◌else◌, ◌==◌,
}
use quark_meteo_station.Base.Bits.{bit}
use quark_meteo_station.Board.{Env, call, i2c_master_read}
use quark_meteo_station.Onewire
use quark_meteo_station.Dht11.{present, absent}
use quark_meteo_station.Onewire.Drive.{transfers-release}
use quark_meteo_station.Onewire.Slave.{listen}
use quark_meteo_station.Onewire.Write.{Idle, write_byte-listen}
use quark_meteo_station.Onewire.Read.{Answers, samples, read_byte_lem}
use quark_meteo_station.Ds18b20
use quark_meteo_station.Ds18b20.{convert_t, skip_rom, decode}
use quark_meteo_station.Ds18b20.Decode.{register, in_degrees, decode-lost_carry}
use quark_meteo_station.Ds18b20.Transfer.{
  onewire, request_conversion-listen, get_temperature-in_degrees,
}
use quark_meteo_station.Dht11
use quark_meteo_station.Dht11.{no_sensor_error}
use quark_meteo_station.Dht11.Frame.{levels}
use quark_meteo_station.Dht11.Reading.{said_by, get_measurement-said_by}
use quark_meteo_station.Dht11.Bounded.{get_measurement_bounded}
use quark_meteo_station.I2c
use quark_meteo_station.I2c.{I2c, status_ok, status_write_failed}
use quark_meteo_station.I2c.Access.{addressed, read-outcome}
use quark_meteo_station.Bmp280.{divide, square_of, compute_compensation}
use quark_meteo_station.Bmp280.Exact.{IsUsual}
use quark_meteo_station.Bmp280.Accuracy.{quadratic, compute_compensation-Near}
use quark_meteo_station.Base.Int.{pos, negsuc, ◌*ℤ◌}
use quark_meteo_station.Base.Int.Near.{Near}
use quark_meteo_station.Base.Word.{signed32}
use quark_meteo_station.Bmp280.Registers.{divide_lem, square_of_lem}
use quark_meteo_station.Tests.{low_env, answering_env, fresh_board, example_words}

transfers-release_example :
    let r = (Onewire.reset low_env 14 fresh_board).1.direction in
    let w = (Onewire.write_byte 14 0x44 fresh_board).direction in
    let x = (Onewire.read_byte low_env 14 fresh_board).1.direction in
    ((bit 14 r ≡ 0) × (bit 15 r ≡ bit 15 0))
    × ((bit 14 w ≡ 0) × (bit 15 w ≡ bit 15 0))
    × ((bit 14 x ≡ 0) × (bit 15 x ≡ bit 15 0))
transfers-release_example =
    transfers-release 14 (omega arith) low_env 0x44 fresh_board 15 (omega arith) (omega arith)

Idle-bus : Idle (listen 14 fresh_board.log) 0
unfolding listen
Idle-bus = record { high = refl; at = refl; small = omega arith }

write_byte-listen_example :
    let heard = listen 14 (Onewire.write_byte 14 0x44 fresh_board).log in
    Idle heard 0 × (heard.bytes ≡ 0x44 ∷ (listen 14 fresh_board.log).bytes)
write_byte-listen_example =
    write_byte-listen 14 (omega arith) 0x44 fresh_board (omega arith) Idle-bus

request_conversion-listen_example :
    (listen 14
      (Ds18b20.request_conversion (onewire low_env 14 (omega arith)) fresh_board).log).bytes
    ≡ convert_t ∷ skip_rom ∷ []
request_conversion-listen_example =
    request_conversion-listen low_env 14 (omega arith) fresh_board (unfold listen in refl)

Answers-from_one : (v : ℕ) → Answers (answering_env v) 14 1 v
Answers-from_one v l k e = let same : samples 14 l - 1 ≡ k = omega (arith, e) in rw same

-- From the first sample on, for a read without a reset before it.
Answers-from_zero :
    Answers (record low_env { pin_level = λ l pin. bit (samples pin l) 0xA5 == 1 }) 14 0 0xA5
Answers-from_zero l k e = let same : samples 14 l ≡ k = omega (arith, e) in rw same

read_byte_lem_example :
    let env = record low_env { pin_level = λ l pin. bit (samples pin l) 0xA5 == 1 } in
    ((Onewire.read_byte env 14 fresh_board).0 ≡ 0xA5 % 256)
    × (samples 14 (Onewire.read_byte env 14 fresh_board).1.log ≡ 0 + 8)
read_byte_lem_example =
    read_byte_lem (record low_env { pin_level = λ l pin. bit (samples pin l) 0xA5 == 1 }) 14 0 0xA5
      fresh_board Answers-from_zero (unfold samples in refl)

-- -10.125 degrees.
get_temperature-in_degrees_example :
    (Ds18b20.get_temperature
      (onewire (answering_env (0xFF * 256 + 0x5E)) 14 (omega arith))
      fresh_board).0
    ≡ in_degrees (register 0x5E 0xFF)
unfolding samples
get_temperature-in_degrees_example =
    get_temperature-in_degrees (answering_env (0xFF * 256 + 0x5E)) 14 (omega arith) fresh_board 0x5E
      0xFF (Answers-from_one (0xFF * 256 + 0x5E)) (omega arith) (omega arith) (omega arith)
      (inr (omega arith))

-- -16 degrees are read as -0.
decode-lost_carry_example : (decode 0 0xFF).integer + 16 ≡ (in_degrees (register 0 0xFF)).integer
decode-lost_carry_example = decode-lost_carry 0xFF (omega arith) (omega arith) (omega arith)

get_measurement-said_by_example :
    (Dht11.get_measurement low_env 15 77 fresh_board).0
    ≡ elim (Dht11.reset low_env 15 fresh_board).0 [
      | absent ↦ record { humidity = no_sensor_error; temperature = no_sensor_error }
      | present ↦ said_by (levels low_env 15 40 (Dht11.reset low_env 15 fresh_board).1)
    ]
get_measurement-said_by_example = get_measurement-said_by low_env 15 77 fresh_board

get_measurement_bounded_example :
    samples 15 (Dht11.get_measurement low_env 15 77 fresh_board).2.log
    ≤ samples 15 fresh_board.log + 40041
get_measurement_bounded_example = get_measurement_bounded low_env 15 77 fresh_board

abbrev bus : I2c
bus = record { error = status_ok; slave_addr = 0x76 }

-- A device that does not answer.
abbrev dead_env : Env
dead_env = record low_env { i2c_write_result = λ l. 5 }

read-outcome_example :
    let r = I2c.read dead_env (1 ∷ 2 ∷ []) 2 0xF7 bus fresh_board in
    let b₁ = addressed dead_env 0xF7 bus fresh_board in
    ((r.1.error ≡ status_ok) ↔ ((◌≡◌ {A = ℕ} 5 0) × (◌≡◌ {A = ℕ} 0 0)))
    × ((r.1.error ≡ status_write_failed) ↔ (◌≢◌ {A = ℕ} 5 0))
    × (r.0 ≡ (if 5 == 0 then 0 ∷ 0 ∷ [] else 1 ∷ 2 ∷ []))
    × (r.2 ≡ (if 5 == 0 then call (i2c_master_read 0x76 2 true) b₁ else b₁))
    × (r.1.slave_addr ≡ 0x76)
read-outcome_example = read-outcome dead_env (1 ∷ 2 ∷ []) 2 0xF7 bus fresh_board

square_of_lem_example :
    let s = 16 * (11586 * 11586) in
    signed32 (square_of (4 * 11586))
    ≡ (if ltb s (2 ^ 31) then pos (s / 2 ^ 13) else negsuc ((2 ^ 32 - 1 - s) / 2 ^ 13))
square_of_lem_example = square_of_lem 11586 (omega arith)

divide_lem_example :
    divide 2200000000 35000
    ≡ (if ltb 2200000000 (2 ^ 31) then 2 * 2200000000 / 35000 else 2 * 2200000000 / 35000 / 4)
divide_lem_example = divide_lem 2200000000 35000 (omega arith) (omega arith)

-- The example of the data sheet: 25.08 degrees.
example-IsUsual : IsUsual example_words 519888
example-IsUsual = record {
  bytes = omega arith;
  reading = omega arith;
  distance = omega arith;
  bent = omega arith;
}

example_temperature : (compute_compensation example_words 415148 519888).temperature ≡ pos 2508
unfolding compute_compensation
example_temperature = refl

compute_compensation-Near_example :
    Near
      ((compute_compensation example_words 415148 519888).temperature *ℤ pos (2 ^ 42))
      (quadratic example_words 519888 *ℤ pos 5)
      (2 ^ 42 - 1)
compute_compensation-Near_example =
    compute_compensation-Near example_words 519888 example-IsUsual 415148
