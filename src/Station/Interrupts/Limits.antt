-- ===== src/Station/Interrupts/Limits.antt =====
-- How many measurements the averages can have in each stage of a round, and that an interrupt keeps
-- within that.
use quark_meteo_station.Base.{ℕ, ◌+◌, ◌≤◌, ◌≡◌, ◌≢◌, ◌⊎◌, refl, arith}
use quark_meteo_station.Average.{Averages}
use quark_meteo_station.Average.Counts.{Counts}
use quark_meteo_station.Station.{
  TransmissionState, idle, connect_to_server, await_for_connection, send_data, up_to_date,
  update_request, Control, timer_callback,
}
use quark_meteo_station.Station.Cycle.{IsSound}
use quark_meteo_station.Station.Counts.{IsWithin}
use quark_meteo_station.Station.Safety.{limit_in}
use quark_meteo_station.Station.Interrupts.{
  Stage, polling, requested, averaging_ds18b20, measuring_bmp280, averaging_bmp280, measuring_dht11,
  averaging_dht11, switching, switched, clearing, leaving, drawing, finishing, written,
}

-- The measurements that the averages can have, in a round that was asked for and has not reached the
-- switch, and behind it.
abbrev pub asked : Control → ℕ
asked c = limit_in c.esp_state update_request c.server_update_counter c.await_counter

abbrev pub served : Control → ℕ
served c = limit_in c.esp_state up_to_date c.server_update_counter c.await_counter

-- In a case of the switch the state is still the one that was read, but an idle state may have been
-- changed by the interrupt.
abbrev pub Taken : TransmissionState → Control → Averages → Type 0
Taken idle c a = IsWithin (served c) a × ((c.esp_state ≡ idle) ⊎ (c.esp_state ≡ connect_to_server))
Taken s c a = IsWithin (asked c + 1) a × (c.esp_state ≡ s)

-- Behind the calls of a case its state is still the one that was read, and what it writes is safe.
abbrev pub Left : TransmissionState → TransmissionState → ℕ → Control → Averages → Type 0
Left idle esp n c a =
    IsWithin (served c) a × ((c.esp_state ≡ idle) ⊎ (c.esp_state ≡ connect_to_server))
Left s esp n c a =
    IsWithin (served (written s esp n c)) a × IsSound (written s esp n c) × (c.esp_state ≡ s)

-- Before a sent report is cleared.
abbrev pub Called : TransmissionState → TransmissionState → ℕ → Control → Averages → Type 0
Called send_data esp n c a =
    IsWithin (asked c + 1) a
    × (c.esp_state ≡ send_data)
    × IsSound (written send_data esp n c)
    × (esp ≡ idle)
Called s esp n c a = Left s esp n c a

abbrev pub IsSafeAt : Stage → Control → Averages → Type 0
IsSafeAt polling c a =
    IsWithin (limit_in c.esp_state c.update_state c.server_update_counter c.await_counter) a
IsSafeAt requested c a = IsWithin (asked c) a
IsSafeAt averaging_ds18b20 c a = IsWithin (asked c) a
IsSafeAt measuring_bmp280 c a = Counts (asked c) (asked c + 1) (asked c) a
IsSafeAt averaging_bmp280 c a = Counts (asked c) (asked c + 1) (asked c) a
IsSafeAt measuring_dht11 c a = Counts (asked c + 1) (asked c + 1) (asked c) a
IsSafeAt averaging_dht11 c a = Counts (asked c + 1) (asked c + 1) (asked c) a
IsSafeAt switching c a = IsWithin (asked c + 1) a
IsSafeAt (switched s) c a = Taken s c a
IsSafeAt (clearing s esp n) c a = Called s esp n c a
IsSafeAt (leaving s esp n) c a = Left s esp n c a
IsSafeAt drawing c a = IsWithin (served c) a
IsSafeAt finishing c a = IsWithin (served c) a

pub interrupt-IsSafeAt :
    (s : Stage) (c : Control) (a : Averages)
    → IsSound c
    → IsSafeAt s c a
    → IsSafeAt s (timer_callback c) a
unfolding timer_callback
interrupt-IsSafeAt polling c a h safe = ground arith
interrupt-IsSafeAt requested c a h safe = ground arith
interrupt-IsSafeAt averaging_ds18b20 c a h safe = ground arith
interrupt-IsSafeAt measuring_bmp280 c a h safe = ground arith
interrupt-IsSafeAt averaging_bmp280 c a h safe = ground arith
interrupt-IsSafeAt measuring_dht11 c a h safe = ground arith
interrupt-IsSafeAt averaging_dht11 c a h safe = ground arith
interrupt-IsSafeAt switching c a h safe = ground arith
interrupt-IsSafeAt (switched idle) c a h safe = ground arith
interrupt-IsSafeAt (switched connect_to_server) c a h safe = ground arith
interrupt-IsSafeAt (switched await_for_connection) c a h safe = ground arith
interrupt-IsSafeAt (switched send_data) c a h safe = ground arith
interrupt-IsSafeAt (clearing idle esp n) c a h safe = ground arith
interrupt-IsSafeAt (clearing connect_to_server esp n) c a h safe = ground arith
interrupt-IsSafeAt (clearing await_for_connection esp n) c a h safe = ground arith
interrupt-IsSafeAt (clearing send_data esp n) c a h safe = ground arith
interrupt-IsSafeAt (leaving idle esp n) c a h safe = ground arith
interrupt-IsSafeAt (leaving connect_to_server esp n) c a h safe = ground arith
interrupt-IsSafeAt (leaving await_for_connection esp n) c a h safe = ground arith
interrupt-IsSafeAt (leaving send_data esp n) c a h safe = ground arith
interrupt-IsSafeAt drawing c a h safe = ground arith
interrupt-IsSafeAt finishing c a h safe = ground arith

-- In every stage.
pub IsSafeAt-bound :
    (s : Stage) (c : Control) (a : Averages) → IsSound c → IsSafeAt s c a → IsWithin 3601 a
IsSafeAt-bound polling c a h safe = ground arith
IsSafeAt-bound requested c a h safe = ground arith
IsSafeAt-bound averaging_ds18b20 c a h safe = ground arith
IsSafeAt-bound measuring_bmp280 c a h safe = ground arith
IsSafeAt-bound averaging_bmp280 c a h safe = ground arith
IsSafeAt-bound measuring_dht11 c a h safe = ground arith
IsSafeAt-bound averaging_dht11 c a h safe = ground arith
IsSafeAt-bound switching c a h safe = ground arith
IsSafeAt-bound (switched idle) c a h safe = ground arith
IsSafeAt-bound (switched connect_to_server) c a h safe = ground arith
IsSafeAt-bound (switched await_for_connection) c a h safe = ground arith
IsSafeAt-bound (switched send_data) c a h safe = ground arith
IsSafeAt-bound (clearing idle esp n) c a h safe = ground arith
IsSafeAt-bound (clearing connect_to_server esp n) c a h safe = ground arith
IsSafeAt-bound (clearing await_for_connection esp n) c a h safe = ground arith
IsSafeAt-bound (clearing send_data esp n) c a h safe = ground arith
IsSafeAt-bound (leaving idle esp n) c a h safe = ground arith
IsSafeAt-bound (leaving connect_to_server esp n) c a h safe = ground arith
IsSafeAt-bound (leaving await_for_connection esp n) c a h safe = ground arith
IsSafeAt-bound (leaving send_data esp n) c a h safe = ground arith
IsSafeAt-bound drawing c a h safe = ground arith
IsSafeAt-bound finishing c a h safe = ground arith

-- The state of a case other than the idle one.
pub Taken-kept :
    (t : TransmissionState) (c : Control) (a : Averages) → t ≢ idle → Taken t c a → c.esp_state ≡ t
Taken-kept idle c a ne taken = absurd (ne refl)
Taken-kept connect_to_server c a ne taken = taken.1
Taken-kept await_for_connection c a ne taken = taken.1
Taken-kept send_data c a ne taken = taken.1

pub Called-kept :
    (t esp : TransmissionState) (n : ℕ) (c : Control) (a : Averages)
    → t ≢ idle
    → Called t esp n c a
    → c.esp_state ≡ t
Called-kept idle esp n c a ne called = absurd (ne refl)
Called-kept connect_to_server esp n c a ne called = called.2
Called-kept await_for_connection esp n c a ne called = called.2
Called-kept send_data esp n c a ne called = called.1

pub Left-kept :
    (t esp : TransmissionState) (n : ℕ) (c : Control) (a : Averages)
    → t ≢ idle
    → Left t esp n c a
    → c.esp_state ≡ t
Left-kept idle esp n c a ne left = absurd (ne refl)
Left-kept connect_to_server esp n c a ne left = left.2
Left-kept await_for_connection esp n c a ne left = left.2
Left-kept send_data esp n c a ne left = left.2

pub asked-bound : (c : Control) → IsSound c → asked c ≤ 3600
asked-bound c h = ground arith
