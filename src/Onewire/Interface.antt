-- ===== src/Onewire/Interface.antt =====
-- onewire.h: what the 1-Wire library offers, as DS18B20.c uses it, and that onewire.c is one.
use quark_meteo_station.Base.{
  ℕ, ◌+◌, ◌/◌, ◌%◌, ◌<◌, zero, suc, ◌≡◌, refl, ap, ◌∙◌, arith, false, List, [], ◌∷◌,
}
use quark_meteo_station.Board.{Board, Env}
use quark_meteo_station.Board.Untouched.{Silent, outputs}
use quark_meteo_station.Onewire.{
  Config, Detect, init, reset, write_slot, write_bits, write_byte, read_slot, read_bits, read_byte,
}
use quark_meteo_station.Onewire.Slave.{listen}
use quark_meteo_station.Onewire.Write.{Idle, reset-listen, write_byte-listen}
use quark_meteo_station.Onewire.Read.{
  Answers, samples, read_byte_lem, Answers-byte, samples-reset, samples-write_byte,
}

-- The functions of the header, and what a device on the bus has to do with them. `IsHigh`: nobody
-- drives the line. `Heard`: since the last reset the device has heard these bytes, the newest first,
-- and waits for the next. `Sends`: from here on the device answers the bits of the number, the lowest
-- first; `Prepares`: it will, after the next reset.
pub record Bus : Type 1 where
  pub onewire_init : Config → Board → Board
  pub onewire_reset : Board → Detect × Board
  pub onewire_write_byte : ℕ → Board → Board
  pub onewire_read_byte : Board → ℕ × Board
  pub IsHigh : Board → Type 0
  pub Heard : Board → List ℕ → Type 0
  pub Prepares : Board → ℕ → Type 0
  pub Sends : Board → ℕ → Type 0
  pub reset-Heard : (b : Board) → IsHigh b → Heard (onewire_reset b).1 []
  pub write_byte-Heard :
      (byte : ℕ) (b : Board) {bytes : List ℕ}
      → byte < 256
      → Heard b bytes
      → Heard (onewire_write_byte byte b) (byte ∷ bytes)
  pub reset-Sends : (b : Board) (v : ℕ) → Prepares b v → Sends (onewire_reset b).1 v
  pub write_byte-Sends :
      (byte : ℕ) (b : Board) (v : ℕ) → Sends b v → Sends (onewire_write_byte byte b) v
  pub read_byte-Sends :
      (b : Board) (v : ℕ)
      → Sends b v
      → ((onewire_read_byte b).0 ≡ v % 256) × Sends (onewire_read_byte b).1 (v / 256)
  pub init-Silent : (config : Config) (b : Board) → Silent b (onewire_init config b)
  pub reset-Silent : (b : Board) → Silent b (onewire_reset b).1
  pub write_byte-Silent : (byte : ℕ) (b : Board) → Silent b (onewire_write_byte byte b)
  pub read_byte-Silent : (b : Board) → Silent b (onewire_read_byte b).1

-- onewire.c sets no level and sends nothing to the modem: it drives its line by the direction of the pin.
pub init-Silent : (config : Config) (b : Board) → Silent b (init config.onewire_pin b)
unfolding init outputs
init-Silent config b = refl

module _ (env : Env) (pin : ℕ) (small : pin < 32) where
  pub reset-Answers :
      (b : Board) (v : ℕ)
      → Answers env pin (samples pin b.log + 1) v
      → Answers env pin (samples pin (reset env pin b).1.log) v
  reset-Answers b v h = rw (samples-reset env pin b) h

  pub write_byte-Answers :
      (byte : ℕ) (b : Board) (v : ℕ)
      → Answers env pin (samples pin b.log) v
      → Answers env pin (samples pin (write_byte pin byte b).log) v
  write_byte-Answers byte b v h = rw (samples-write_byte pin byte b) h

  pub read_byte-Answers :
      (b : Board) (v : ℕ)
      → Answers env pin (samples pin b.log) v
      → ((read_byte env pin b).0 ≡ v % 256)
        × Answers env pin (samples pin (read_byte env pin b).1.log) (v / 256)
  read_byte-Answers b v h =
      let (e, n) = read_byte_lem env pin (samples pin b.log) v b h refl in
      (e, rw n (Answers-byte env pin (samples pin b.log) v h))

  pub reset-Silent : (b : Board) → Silent b (reset env pin b).1
  unfolding reset outputs
  reset-Silent b = refl

  write_bits-Silent : (left byte : ℕ) (b : Board) → Silent b (write_bits pin left byte b)
  unfolding write_bits
  write_bits-Silent zero byte b = refl
  write_bits-Silent (suc left) byte b =
      let slot : Silent b (write_slot pin byte b) = unfold write_slot outputs in ground arith in
      write_bits-Silent left (byte / 2) (write_slot pin byte b) ∙ slot

  pub write_byte-Silent : (byte : ℕ) (b : Board) → Silent b (write_byte pin byte b)
  unfolding write_byte
  write_byte-Silent byte b = write_bits-Silent 8 byte b

  read_bits-Silent : (left byte : ℕ) (b : Board) → Silent b (read_bits env pin left byte b).1
  unfolding read_bits
  read_bits-Silent zero byte b = refl
  read_bits-Silent (suc left) byte b =
      let slot : Silent b (read_slot env pin b).1 = unfold read_slot outputs in ground arith in
      read_bits-Silent left _ (read_slot env pin b).1 ∙ slot

  pub read_byte-Silent : (b : Board) → Silent b (read_byte env pin b).1
  unfolding read_byte
  read_byte-Silent b = read_bits-Silent 8 0 b

  -- onewire.c.
  abbrev pub bus : Bus
  bus = record {
    onewire_init = λ config. init config.onewire_pin;
    onewire_reset = reset env pin;
    onewire_write_byte = write_byte pin;
    onewire_read_byte = read_byte env pin;
    IsHigh = λ b. (listen pin b.log).low ≡ false;
    Heard = λ b bytes. Idle (listen pin b.log) 0 × ((listen pin b.log).bytes ≡ bytes);
    Prepares = λ b v. Answers env pin (samples pin b.log + 1) v;
    Sends = λ b v. Answers env pin (samples pin b.log) v;
    reset-Heard = reset-listen pin small env;
    write_byte-Heard = λ byte b fits heard.
        let (idle, e) = write_byte-listen pin small byte b fits heard.0 in
        (idle, e ∙ ap (λ t. byte ∷ t) heard.1);
    reset-Sends = reset-Answers;
    write_byte-Sends = write_byte-Answers;
    read_byte-Sends = read_byte-Answers;
    init-Silent = init-Silent;
    reset-Silent = reset-Silent;
    write_byte-Silent = write_byte-Silent;
    read_byte-Silent = read_byte-Silent;
  }
