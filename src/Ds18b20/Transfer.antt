-- ===== src/Ds18b20/Transfer.antt =====
-- The 1-Wire transactions of DS18B20.c, as a device on the bus sees them.
use quark_meteo_station.Base.{ℕ, ◌+◌, ◌*◌, ◌/◌, ◌<◌, ◌≡◌, ◌≢◌, ◌⊎◌, ◌∙◌, arith, [], ◌∷◌, false}
use quark_meteo_station.Base.Int.{abs}
use quark_meteo_station.Board.{Board, Env}
use quark_meteo_station.Onewire.Interface
use quark_meteo_station.Onewire.Interface.{Bus}
use quark_meteo_station.Onewire.Slave.{listen}
use quark_meteo_station.Onewire.Read.{Answers, samples}
use quark_meteo_station.Ds18b20.{
  skip_rom, convert_t, read_scratchpad, decode, request_conversion, get_temperature,
}
use quark_meteo_station.Ds18b20.Decode.{register, in_degrees, decode-in_degrees}

module _ (bus : Bus) where
  open bus use {
    onewire_reset, onewire_write_byte, onewire_read_byte, IsHigh, Heard, Prepares, Sends,
  }

  -- On every 1-Wire library, once the line is high: after `DS18B20_request_conversion` the device has
  -- heard exactly SKIP ROM and CONVERT T since its reset.
  pub request_conversion-Heard :
      (b : Board) → IsHigh b → Heard (request_conversion bus b) (convert_t ∷ skip_rom ∷ [])
  unfolding request_conversion
  request_conversion-Heard b high =
      bus.write_byte-Heard convert_t _ (omega arith)
        (bus.write_byte-Heard skip_rom _ (omega arith) (bus.reset-Heard b high))

  -- On every 1-Wire library: a device that after its next reset sends two bytes, the low one first,
  -- is read as what they decode to.
  pub get_temperature-decode :
      (b : Board) (lsb msb : ℕ)
      → lsb < 256
      → msb < 256
      → Prepares b (msb * 256 + lsb)
      → (get_temperature bus b).0 ≡ decode lsb msb
  unfolding get_temperature
  get_temperature-decode b lsb msb hl hm device =
      let v = msb * 256 + lsb in
      let b₁ = (onewire_reset b).1 in
      let b₂ = onewire_write_byte read_scratchpad (onewire_write_byte skip_rom b₁) in
      let asked : Sends b₂ v =
        bus.write_byte-Sends read_scratchpad _ v
          (bus.write_byte-Sends skip_rom b₁ v (bus.reset-Sends b v device)) in
      let low = bus.read_byte-Sends b₂ v asked in
      let high = bus.read_byte-Sends (onewire_read_byte b₂).1 (v / 256) low.1 in
      let e₀ : (onewire_read_byte b₂).0 ≡ lsb = omega (arith, low.0) in
      let e₁ : (onewire_read_byte (onewire_read_byte b₂).1).0 ≡ msb = omega (arith, high.0) in
      rw (e₀, e₁)

module _ (env : Env) (pin : ℕ) (small : pin < 32) where
  abbrev pub onewire : Bus
  onewire = Interface.bus env pin small

  -- `DS18B20_request_conversion` over onewire.c: whatever was on the bus before, once its line is
  -- high the device is reset and then hears exactly the two command bytes, SKIP ROM and CONVERT T.
  pub request_conversion-listen :
      (b : Board)
      → (listen pin b.log).low ≡ false
      → (listen pin (request_conversion onewire b).log).bytes ≡ convert_t ∷ skip_rom ∷ []
  request_conversion-listen b high = (request_conversion-Heard onewire b high).1

  -- `DS18B20_get_temperature` over onewire.c returns the temperature of a device that answers its
  -- scratchpad's two temperature bytes, low byte first: the register's, truncated to hundredths of a
  -- degree.
  pub get_temperature-in_degrees :
      (b : Board) (lsb msb : ℕ)
      → Answers env pin (samples pin b.log + 1) (msb * 256 + lsb)
      → lsb < 256
      → msb < 256
      → abs (register lsb msb) < 2048
      → (msb < 128) ⊎ (lsb ≢ 0)
      → (get_temperature onewire b).0 ≡ in_degrees (register lsb msb)
  get_temperature-in_degrees b lsb msb device hl hm range carry =
      get_temperature-decode onewire b lsb msb hl hm device
      ∙ decode-in_degrees lsb msb hl hm range carry
