-- ===== src/Esp/Text.antt =====
-- The texts that ESP.c builds, against the JSON object and the HTTP request that they should be.
use quark_meteo_station.Base.{
  ℕ, ◌+◌, ◌*◌, ◌^◌, ◌≤◌, ◌<◌, ◌≡◌, sym, ap, arith, true, Option, some, List, [], ◌∷◌, ◌++◌,
  append-nil, append_assoc, codes, length, length-append, ltb,
}
use quark_meteo_station.Base.Int.{pos}
use quark_meteo_station.Base.Word.{u8, u16, u32_of}
use quark_meteo_station.Utoa.Decimal.{decimal, length-decimal}
use quark_meteo_station.Utoa.Convert.{utoa_lem, text-append, decimal-IsText}
use quark_meteo_station.Ds18b20.{Sign, positive, negative}
use quark_meteo_station.Esp.{
  strcat, to_text, Report, prepare_json, wrap_payload, prepare_post_request, device_name,
  host_address, api_path, ◌>>=◌,
}

-- A text built by `strcat`, piece after piece.
abbrev pub chain : ℕ → List ℕ → List (List ℕ) → Option (List ℕ)
chain size s [] = some s
chain size s (t ∷ []) = strcat size s t
chain size s (t ∷ u ∷ ts) = strcat size s t >>= λ s'. chain size s' (u ∷ ts)

abbrev pub joined : List (List ℕ) → List ℕ
joined [] = []
joined (t ∷ ts) = t ++ joined ts

pub chain-joined :
    (size : ℕ) (s : List ℕ) (ts : List (List ℕ))
    → length s + length (joined ts) < size
    → chain size s ts ≡ some (s ++ joined ts)
unfolding strcat
chain-joined size s [] h = ap some (sym (append-nil s))
chain-joined size s (t ∷ []) h =
    let fits : ltb (length s + length t) size ≡ true = ground (arith, length-append t []) in
    rw (fits, append-nil t)
chain-joined size s (t ∷ u ∷ ts) h =
    let sizes = length-append t (joined (u ∷ ts)) in
    let fits : ltb (length s + length t) size ≡ true = ground arith in
    let step : strcat size s t ≡ some (s ++ t) = rw (fits, strcat) in
    let rest = chain-joined size (s ++ t) (u ∷ ts) (omega (arith, length-append s t)) in
    rw (step, rest) (ap some (append_assoc s t (joined (u ∷ ts))))

-- `utoa_buffer` of 8 bytes takes every number of up to seven digits.
pub to_text_lem :
    (buf : List ℕ) (n : ℕ) → length buf ≡ 8 → n < 10 ^ 7 → to_text buf n ≡ some (decimal n)
unfolding to_text
to_text_lem buf n room h =
    let short = length-decimal 6 n h in
    let (old, rest, o, split, l, returns) = utoa_lem n buf (omega arith) (omega (arith, room)) in
    rw returns (ap some (text-append (decimal n) rest (decimal-IsText n (omega arith))))

-- The JSON object.
abbrev pub minus : Sign → List ℕ
minus negative = codes "-"
minus positive = []

unfoldable pub json_pieces : Report → ℕ → List (List ℕ)
json_pieces m ti =
    device_name
    ∷ codes "\",\"Ti\":\""
    ∷ decimal ti
    ∷ codes "\",\"P\":\""
    ∷ decimal m.indoor.pressure
    ∷ codes "\",\"To\":\""
    ∷ minus m.outdoor.sign
    ∷ decimal (m.outdoor.integer * 100 + m.outdoor.fraction)
    ∷ codes "\",\"RH\":\""
    ∷ decimal m.humid.humidity
    ∷ codes "\"}"
    ∷ []

unfoldable pub json_text : Report → ℕ → List ℕ
unfolding json_pieces
json_text m ti = codes "{\"name\":\"" ++ joined (json_pieces m ti)

-- A report whose numbers fit `utoa_buffer`, with an indoor temperature that is not negative.
pub record Fits (m : Report) (ti : ℕ) : Type 0 where
  pub not_negative : m.indoor.temperature ≡ pos ti
  pub indoor : ti < 10 ^ 7
  pub pressure : m.indoor.pressure < 10 ^ 7
  pub integer : m.outdoor.integer < 256
  pub fraction : m.outdoor.fraction < 256
  pub humidity : m.humid.humidity < 256

length-minus : (s : Sign) → length (minus s) ≤ 1
length-minus negative = omega arith
length-minus positive = omega arith

length-json : (m : Report) (ti : ℕ) → Fits m ti → length (json_text m ti) ≤ 70
unfolding json_text
length-json m ti fits =
    let outdoor = m.outdoor.integer * 100 + m.outdoor.fraction in
    let i = length-decimal 6 ti fits.indoor in
    let p = length-decimal 6 m.indoor.pressure fits.pressure in
    let o = length-decimal 4 outdoor (omega (arith, fits.integer, fits.fraction)) in
    let h = length-decimal 2 m.humid.humidity (omega (arith, fits.humidity)) in
    simp length-append (omega (arith, i, p, o, h, length-minus m.outdoor.sign))

module _ (buf : List ℕ) (room : length buf ≡ 8) where
  prepare_json-json_text :
      (m : Report) (ti : ℕ) → Fits m ti → prepare_json buf m ≡ some (json_text m ti)
  unfolding prepare_json json_text
  prepare_json-json_text m ti fits =
      let outdoor = m.outdoor.integer * 100 + m.outdoor.fraction in
      let i : u32_of m.indoor.temperature ≡ ti =
        rw fits.not_negative (omega (arith, fits.indoor)) in
      let o : u16 outdoor ≡ outdoor = omega (arith, fits.integer, fits.fraction) in
      let e₁ = to_text_lem buf ti room fits.indoor in
      let e₂ = to_text_lem buf m.indoor.pressure room fits.pressure in
      let e₃ = to_text_lem buf outdoor room (omega (arith, fits.integer, fits.fraction)) in
      let e₄ = to_text_lem buf m.humid.humidity room (omega (arith, fits.humidity)) in
      let whole =
        chain-joined 100 (codes "{\"name\":\"") (json_pieces m ti)
          (omega (arith, length-json m ti fits)) in
      rw (i, o, e₁, e₂, e₃, e₄) whole

-- The request around a payload.
unfoldable post_pieces : List ℕ → List (List ℕ)
post_pieces payload =
    api_path
    ∷ codes " HTTP/1.1\r\nHost:"
    ∷ host_address
    ∷ codes "\r\nContent-Length:"
    ∷ decimal (length payload)
    ∷ codes "\r\nContent-Type:application/json\r\n\r\n"
    ∷ payload
    ∷ codes "\r\n"
    ∷ []

unfoldable pub post_text : List ℕ → List ℕ
unfolding post_pieces
post_text payload = codes "POST " ++ joined (post_pieces payload)

pub length-post_text : (payload : List ℕ) → length payload ≤ 70 → length (post_text payload) < 200
unfolding post_text
length-post_text payload h =
    let n = length-decimal 1 (length payload) (omega (arith, h)) in
    simp length-append (omega (arith, n))

module _ (buf : List ℕ) (room : length buf ≡ 8) where
  wrap_payload-post_text :
      (payload : List ℕ) → length payload ≤ 70 → wrap_payload buf payload ≡ some (post_text payload)
  unfolding wrap_payload post_text
  wrap_payload-post_text payload h =
      let n : u8 (length payload) ≡ length payload = omega arith in
      let e = to_text_lem buf (length payload) room (omega arith) in
      let whole =
        chain-joined 200 (codes "POST ") (post_pieces payload)
          (omega (arith, length-post_text payload h)) in
      rw (n, e) whole

  -- With every report whose indoor temperature is not negative and whose numbers have at most seven
  -- digits, the request is built, no buffer overflows, and it is the HTTP request with the JSON
  -- object as its payload and the payload's length in its header; it has fewer than 200 characters.
  pub prepare_post_request-post_text :
      (m : Report) (ti : ℕ)
      → Fits m ti
      → (prepare_post_request buf m ≡ some (post_text (json_text m ti)))
        × (length (post_text (json_text m ti)) < 200)
  unfolding prepare_post_request
  prepare_post_request-post_text m ti fits =
      let short = length-json m ti fits in
      (
        rw (prepare_json-json_text buf room m ti fits)
            (wrap_payload-post_text (json_text m ti) short),
        length-post_text (json_text m ti) short,
      )
