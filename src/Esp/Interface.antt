-- ===== src/Esp/Interface.antt =====
-- ESP.h: what the module offers to main.c, and that ESP.c is one.
use quark_meteo_station.Base.{ℕ, ◌≡◌, refl, Option, some, List, ◌∷◌, ◌++◌, codes, length, returned}
use quark_meteo_station.Board.{Board}
use quark_meteo_station.Board.Untouched.{Untouched, levels_set, sent}
use quark_meteo_station.Bmp280
use quark_meteo_station.Ds18b20
use quark_meteo_station.Dht11
use quark_meteo_station.Esp.{
  Pointers, report, init, connect_to_server, send_measurements, host_address, host_port,
}
use quark_meteo_station.Esp.Text.{Fits, json_text, post_text}
use quark_meteo_station.Esp.Fits.{send_measurements-sent, command_text}

-- The command that asks for the connection.
abbrev pub connect_text : List ℕ
connect_text =
    codes "AT+CIPSTART=\"TCP\",\"" ++ (host_address ++ (codes "\"," ++ (host_port ++ codes "\r\n")))

-- A request for the connection returns, and so does a transmission of measurements whose numbers
-- fit. Neither sets a level; they send the modem the command for the connection, and the command for the
-- request and the request.
pub record Modem : Type 1 where
  pub esp_init :
      {M : Type 0} → (M → Bmp280.Meas) → (M → Ds18b20.Meas) → (M → Dht11.Meas) → Pointers M
  pub esp_connect_to_server : Board → Option Board
  pub esp_send_measurements : {M : Type 0} → Pointers M → M → Board → Option Board
  pub connect_to_server-Untouched :
      (b : Board) → (b' : Board) × (esp_connect_to_server b ≡ some b') × Untouched b b'
  pub send_measurements-Untouched :
      {M : Type 0} (p : Pointers M) (m : M) (ti : ℕ) (b : Board)
      → Fits (report p m) ti
      → (b' : Board) × (esp_send_measurements p m b ≡ some b') × Untouched b b'
  pub connect_to_server-sends :
      (b b' : Board) → esp_connect_to_server b ≡ some b' → sent b'.log ≡ connect_text ∷ sent b.log
  pub send_measurements-sends :
      {M : Type 0} (p : Pointers M) (m : M) (ti : ℕ) (b b' : Board)
      → Fits (report p m) ti
      → esp_send_measurements p m b ≡ some b'
      → let post = post_text (json_text (report p m) ti) in
        sent b'.log ≡ post ∷ command_text (length post) ∷ sent b.log

pub connect_to_server-sends :
    (b b' : Board) → connect_to_server b ≡ some b' → sent b'.log ≡ connect_text ∷ sent b.log
unfolding connect_to_server sent
connect_to_server-sends b b' e =
    returned (λ x. sent x.log ≡ connect_text ∷ sent b.log) (_, refl, refl) e

pub connect_to_server-Untouched :
    (b : Board) → (b' : Board) × (connect_to_server b ≡ some b') × Untouched b b'
unfolding connect_to_server levels_set
connect_to_server-Untouched b = (_, refl, refl)

-- ESP.c; `utoa_buffer` is what the static holds.
module _ (utoa_buffer : List ℕ) (room : length utoa_buffer ≡ 8) where
  pub send_measurements-Untouched :
      {M : Type 0} (p : Pointers M) (m : M) (ti : ℕ) (b : Board)
      → Fits (report p m) ti
      → (b' : Board) × (send_measurements utoa_buffer (report p m) b ≡ some b') × Untouched b b'
  unfolding levels_set
  send_measurements-Untouched p m ti b fits =
      (_, send_measurements-sent utoa_buffer room (report p m) ti b fits, refl)

  pub send_measurements-sends :
      {M : Type 0} (p : Pointers M) (m : M) (ti : ℕ) (b b' : Board)
      → Fits (report p m) ti
      → send_measurements utoa_buffer (report p m) b ≡ some b'
      → let post = post_text (json_text (report p m) ti) in
        sent b'.log ≡ post ∷ command_text (length post) ∷ sent b.log
  unfolding sent
  send_measurements-sends p m ti b b' fits e =
      let post = post_text (json_text (report p m) ti) in
      returned (λ x. sent x.log ≡ post ∷ command_text (length post) ∷ sent b.log)
        (_, send_measurements-sent utoa_buffer room (report p m) ti b fits, refl) e

  abbrev pub modem : Modem
  modem = record {
    esp_init = init;
    esp_connect_to_server = connect_to_server;
    esp_send_measurements = λ p m. send_measurements utoa_buffer (report p m);
    connect_to_server-Untouched = connect_to_server-Untouched;
    send_measurements-Untouched = send_measurements-Untouched;
    connect_to_server-sends = connect_to_server-sends;
    send_measurements-sends = send_measurements-sends;
  }
