-- ===== src/Esp/Fits.antt =====
-- What ESP.c sends, and where its number buffer is too small.
use quark_meteo_station.Base.{
  ℕ, ◌-◌, ◌%◌, ◌^◌, ◌<◌, ◌≡◌, refl, ap, ◌∙◌, arith, some, none, List, [], ◌∷◌, ◌++◌, codes, length,
  length-append, take,
}
use quark_meteo_station.Base.Int.{negsuc}
use quark_meteo_station.Base.Word.{u16, u32_of}
use quark_meteo_station.Board.{Board, call, udelay, uart_write_buffer, sys_udelay}
use quark_meteo_station.Utoa.Decimal.{decimal, length-decimal, lt-length-decimal}
use quark_meteo_station.Utoa.Convert.{utoa_overflow}
use quark_meteo_station.Esp.{
  to_text, Report, prepare_json, prepare_post_request, send_command, send_measurements,
  write_string,
}
use quark_meteo_station.Esp.Text.{
  chain-joined, to_text_lem, Fits, json_text, post_text, prepare_post_request-post_text,
}

-- The AT command.
abbrev pub command_text : ℕ → List ℕ
command_text n = codes "AT+CIPSEND=" ++ (decimal n ++ (codes "\r\n" ++ []))

take_whole : (s : List ℕ) → take (length s) s ≡ s
take_whole [] = refl
take_whole (c ∷ s) = ap (λ t. c ∷ t) (take_whole s)

module _ (buf : List ℕ) (room : length buf ≡ 8) where
  send_command-command_text : (n : ℕ) → n < 200 → send_command buf n ≡ some (command_text n)
  unfolding send_command
  send_command-command_text n h =
      let e₁ : u16 n ≡ n = omega arith in
      let e₂ = to_text_lem buf n room (omega arith) in
      let short = length-decimal 2 n (omega arith) in
      let whole =
        chain-joined 100 (codes "AT+CIPSEND=") (decimal n ∷ codes "\r\n" ∷ [])
          (simp length-append (omega (arith, short))) in
      rw (e₁, e₂) whole

  -- A text of fewer than 256 characters is sent whole.
  write_string_whole :
      (s : List ℕ) (b : Board) → length s < 256 → write_string s b ≡ call (uart_write_buffer s) b
  unfolding write_string
  write_string_whole s b h =
      let small : length s % 256 ≡ length s = omega arith in rw (small, take_whole s)

  -- With every such report a transmission sends the modem the command that announces exactly the
  -- length of the request, waits, and sends the whole request.
  pub send_measurements-sent :
      (m : Report) (ti : ℕ) (b : Board)
      → Fits m ti
      → let post = post_text (json_text m ti) in
        send_measurements buf m b
        ≡ some (record b {
          log =
              uart_write_buffer post
              ∷ sys_udelay 100000
              ∷ uart_write_buffer (command_text (length post))
              ∷ b.log;
        })
  unfolding send_measurements
  send_measurements-sent m ti b fits =
      let (e, short) = prepare_post_request-post_text buf room m ti fits in
      let c = send_command-command_text (length (post_text (json_text m ti))) short in
      let post = post_text (json_text m ti) in
      let at = command_text (length post) in
      let digits = length-decimal 2 (length post) (omega (arith, short)) in
      let w₁ = write_string_whole at b (simp length-append (omega (arith, digits))) in
      let w₂ =
        write_string_whole post (udelay 100000 (call (uart_write_buffer at) b))
          (omega (arith, short)) in
      rw (e, c) (ap some (ap (λ x. write_string post (udelay 100000 x)) w₁ ∙ w₂))

  -- With a negative indoor temperature, by however little, the conversion of its bit pattern writes
  -- past the end of `utoa_buffer`.
  pub prepare_post_request_overflow :
      (m : Report) (k : ℕ)
      → m.indoor.temperature ≡ negsuc k
      → k < 2 ^ 31
      → prepare_post_request buf m ≡ none
  unfolding prepare_post_request prepare_json to_text
  prepare_post_request_overflow m k e h =
      let n = u32_of m.indoor.temperature in
      let p : n ≡ 2 ^ 32 - 1 - k = rw e (omega (arith, h)) in
      let long = lt-length-decimal 9 n (omega (arith, p, h)) (omega (arith, p)) in
      let fails = utoa_overflow n buf (omega (arith, p)) (omega (arith, long, room)) in rw fails
