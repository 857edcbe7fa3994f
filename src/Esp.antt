-- ===== src/Esp.antt =====
-- ESP.c: the AT commands and the HTTP request that go out of the UART. A C string in a static buffer
-- is the text before its NUL; `strcpy`, `strcat` and `utoa` past the end of a buffer are undefined:
-- `none`.
pub mod Text
pub mod Fits
pub mod Interface
use quark_meteo_station.Base.{
  ℕ, ◌+◌, ◌*◌, Option, some, none, List, [], ◌∷◌, ◌++◌, codes, length, replicate, ltb,
  if◌then◌else◌, take,
}
use quark_meteo_station.Base.Word.{u8, u16, u32_of}
use quark_meteo_station.Board.{Board, call, udelay, ◌▷◌, uart_write_buffer}
use quark_meteo_station.Utoa.{utoa, text}
use quark_meteo_station.Bmp280
use quark_meteo_station.Ds18b20
use quark_meteo_station.Ds18b20.{positive, negative}
use quark_meteo_station.Dht11

abbrev pub device_name : List ℕ
device_name = codes "Quark"

abbrev pub host_address : List ℕ
host_address = codes "lowd.herokuapp.com"

abbrev pub host_port : List ℕ
host_port = codes "80"

abbrev pub api_path : List ℕ
api_path = codes "/api/sensors/full"

abbrev pub max_post_size : ℕ
max_post_size = 200

abbrev pub max_temp_size : ℕ
max_temp_size = 100

abbrev pub max_utoa_size : ℕ
max_utoa_size = 8

abbrev pub connection_time : ℕ
connection_time = 10

infixl 4 ◌>>=◌
abbrev pub ◌>>=◌ {ℓ} : {B : Type ℓ} → Option (List ℕ) → (List ℕ → Option B) → Option B
none >>= f = none
some t >>= f = f t

-- `strcpy` into a buffer of so many bytes, and `strcat` behind a text in it.
unfoldable pub strcpy : ℕ → List ℕ → Option (List ℕ)
strcpy size s = if ltb (length s) size then some s else none

unfoldable pub strcat : ℕ → List ℕ → List ℕ → Option (List ℕ)
strcat size s t = if ltb (length s + length t) size then some (s ++ t) else none

-- `utoa(number, utoa_buffer)`, and the text in `utoa_buffer`, whatever it held before.
unfoldable pub to_text : List ℕ → ℕ → Option (List ℕ)
unfolding utoa text
to_text utoa_buffer number = utoa number utoa_buffer >>= λ buf. some (text buf)

-- `length` is a `uint8_t`.
unfoldable pub write_string : List ℕ → Board → Board
unfolding call
write_string s = call (uart_write_buffer (take (u8 (length s)) s))

-- The static pointers to const, into a memory `M`.
pub record Pointers (M : Type 0) : Type 0 where
  pub bmp280_meas : M → Bmp280.Meas
  pub ds18b20_meas : M → Ds18b20.Meas
  pub dht11_meas : M → Dht11.Meas

-- What they lead to.
pub record Report : Type 0 where
  pub indoor : Bmp280.Meas
  pub outdoor : Ds18b20.Meas
  pub humid : Dht11.Meas

module _ (utoa_buffer : List ℕ) where
  unfoldable pub prepare_json : Report → Option (List ℕ)
  unfolding strcpy strcat to_text
  prepare_json m =
      let cat = λ (t s : List ℕ). strcat max_temp_size s t in
      let minus : List ℕ = elim m.outdoor.sign [ negative ↦ codes "-" | positive ↦ [] ] in
      let temperature = u16 (m.outdoor.integer * 100 + m.outdoor.fraction) in
      do
        t₁ ← strcpy max_temp_size (codes "{\"name\":\"")
        t₂ ← cat device_name t₁
        t₃ ← cat (codes "\",\"Ti\":\"") t₂
        ti ← to_text utoa_buffer (u32_of m.indoor.temperature)
        t₄ ← cat ti t₃
        t₅ ← cat (codes "\",\"P\":\"") t₄
        p ← to_text utoa_buffer m.indoor.pressure
        t₆ ← cat p t₅
        t₇ ← cat (codes "\",\"To\":\"") t₆
        t₈ ← cat minus t₇
        to ← to_text utoa_buffer temperature
        t₉ ← cat to t₈
        t₁₀ ← cat (codes "\",\"RH\":\"") t₉
        rh ← to_text utoa_buffer m.humid.humidity
        t₁₁ ← cat rh t₁₀
        cat (codes "\"}") t₁₁

  -- The request around a payload.
  unfoldable pub wrap_payload : List ℕ → Option (List ℕ)
  unfolding strcpy strcat to_text
  wrap_payload payload =
      let cat = λ (t s : List ℕ). strcat max_post_size s t in
      do
        p₁ ← strcpy max_post_size (codes "POST ")
        p₂ ← cat api_path p₁
        p₃ ← cat (codes " HTTP/1.1\r\nHost:") p₂
        p₄ ← cat host_address p₃
        p₅ ← cat (codes "\r\nContent-Length:") p₄
        n ← to_text utoa_buffer (u8 (length payload))
        p₆ ← cat n p₅
        p₇ ← cat (codes "\r\nContent-Type:application/json\r\n\r\n") p₆
        p₈ ← cat payload p₇
        cat (codes "\r\n") p₈

  unfoldable pub prepare_post_request : Report → Option (List ℕ)
  unfolding prepare_json wrap_payload
  prepare_post_request m = prepare_json m >>= wrap_payload

  -- The AT command that announces so many bytes.
  unfoldable pub send_command : ℕ → Option (List ℕ)
  unfolding strcpy strcat to_text
  send_command post_length = do
    t₁ ← strcpy max_temp_size (codes "AT+CIPSEND=")
    n ← to_text utoa_buffer (u16 post_length)
    t₂ ← strcat max_temp_size t₁ n
    strcat max_temp_size t₂ (codes "\r\n")

  unfoldable pub send_measurements : Report → Board → Option Board
  unfolding prepare_post_request send_command write_string udelay
  send_measurements m b = prepare_post_request m >>= λ post. send_command (length post) >>= λ at.
      some (b ▷ write_string at ▷ udelay 100000 ▷ write_string post)

unfoldable pub connect_command : Option (List ℕ)
unfolding strcpy strcat
connect_command = do
  t₁ ← strcpy max_temp_size (codes "AT+CIPSTART=\"TCP\",\"")
  t₂ ← strcat max_temp_size t₁ host_address
  t₃ ← strcat max_temp_size t₂ (codes "\",")
  t₄ ← strcat max_temp_size t₃ host_port
  strcat max_temp_size t₄ (codes "\r\n")

unfoldable pub connect_to_server : Board → Option Board
unfolding connect_command write_string
connect_to_server b = connect_command >>= λ at. some (write_string at b)

-- The functions of the header with pointers, which are stored whatever the statics held.
module _ {M : Type 0} where
  unfoldable pub init : (M → Bmp280.Meas) → (M → Ds18b20.Meas) → (M → Dht11.Meas) → Pointers M
  init bmp280_measurement ds18b20_measurement dht11_measurement = record {
    bmp280_meas = bmp280_measurement;
    ds18b20_meas = ds18b20_measurement;
    dht11_meas = dht11_measurement;
  }

  abbrev pub report : Pointers M → M → Report
  report p m = record {
    indoor = p.bmp280_meas m;
    outdoor = p.ds18b20_meas m;
    humid = p.dht11_meas m;
  }
