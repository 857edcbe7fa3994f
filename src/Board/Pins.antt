-- ===== src/Board/Pins.antt =====
-- The pin numbers of main.c. `QM_PIN_ID_n` is the number n.
use quark_meteo_station.Base.{ℕ}

abbrev pub rs_pin : ℕ
rs_pin = 16

abbrev pub e_pin : ℕ
e_pin = 18

abbrev pub d4_pin : ℕ
d4_pin = 17

abbrev pub d5_pin : ℕ
d5_pin = 0

abbrev pub d6_pin : ℕ
d6_pin = 24

abbrev pub d7_pin : ℕ
d7_pin = 9

abbrev pub onewire_pin : ℕ
onewire_pin = 14

abbrev pub dht11_pin : ℕ
dht11_pin = 15

abbrev pub tx_pin : ℕ
tx_pin = 12

abbrev pub rx_pin : ℕ
rx_pin = 13
