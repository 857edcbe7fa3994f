-- ===== src/Onewire/Drive.antt =====
-- The direction word under the 1-Wire driver: which pins are driven after each operation.
use quark_meteo_station.Base.{ℕ, zero, suc, ◌<◌, ◌≡◌, arith, ◌≢◌}
use quark_meteo_station.Base.Bits.{bit}
use quark_meteo_station.Base.Bits.Masks.{bit-set_bit, bit-clear_bit}
use quark_meteo_station.Board.{Board, Env}
use quark_meteo_station.Onewire.{
  PinDir, output, input, turned, init, reset, write_slot, write_bits, write_byte, read_slot,
  read_bits, read_byte,
}

-- The pin is released, and every other pin of the port is driven or not as the old word says.
pub record ReleasesOnly (pin : ℕ) (before after : ℕ) : Type 0 where
  pub released : bit pin after ≡ 0
  pub others : (j : ℕ) → j < 32 → j ≢ pin → bit j after ≡ bit j before

pub turned-output : (pin word : ℕ) → bit pin (turned pin output word) ≡ 1
unfolding turned
turned-output pin word = ground (arith, bit-set_bit word pin pin)

pub turned-input : (pin word : ℕ) → pin < 32 → bit pin (turned pin input word) ≡ 0
unfolding turned
turned-input pin word h = ground (arith, bit-clear_bit word pin pin h h)

turned-others :
    (pin : ℕ) (dir : PinDir) (word j : ℕ)
    → pin < 32
    → j < 32
    → j ≢ pin
    → bit j (turned pin dir word) ≡ bit j word
unfolding turned
turned-others pin output word j h hj ne = ground (arith, bit-set_bit word j pin)
turned-others pin input word j h hj ne = ground (arith, bit-clear_bit word j pin hj h)

-- A pulse: the pin is driven, then released.
pulse_ReleasesOnly :
    (pin word : ℕ) → pin < 32 → ReleasesOnly pin word (turned pin input (turned pin output word))
pulse_ReleasesOnly pin word h = record {
  released = turned-input pin (turned pin output word) h;
  others = λ j hj ne. ground (
    arith,
    turned-others pin output word j h hj ne,
    turned-others pin input (turned pin output word) j h hj ne,
  );
}

ReleasesOnly-trans :
    {pin a b c : ℕ} → ReleasesOnly pin a b → ReleasesOnly pin b c → ReleasesOnly pin a c
ReleasesOnly-trans p q = record {
  released = q.released;
  others = λ j h ne. ground (arith, p.others j h ne, q.others j h ne);
}

module _ (pin : ℕ) (small : pin < 32) where
  -- `onewire_init` releases the pin and touches no other.
  pub init-ReleasesOnly : (b : Board) → ReleasesOnly pin b.direction (init pin b).direction
  unfolding init
  init-ReleasesOnly b = record {
    released = turned-input pin b.direction small;
    others = λ j hj ne. turned-others pin input b.direction j small hj ne;
  }

  pub reset-ReleasesOnly :
      (env : Env) (b : Board) → ReleasesOnly pin b.direction (reset env pin b).1.direction
  unfolding reset
  reset-ReleasesOnly env b = pulse_ReleasesOnly pin b.direction small

  write_slot-ReleasesOnly :
      (byte : ℕ) (b : Board) → ReleasesOnly pin b.direction (write_slot pin byte b).direction
  unfolding write_slot
  write_slot-ReleasesOnly byte b = ground (arith, pulse_ReleasesOnly pin b.direction small)

  write_bits-ReleasesOnly :
      (left byte : ℕ) (b : Board)
      → ReleasesOnly pin b.direction (write_bits pin (suc left) byte b).direction
  unfolding write_bits
  write_bits-ReleasesOnly zero byte b = write_slot-ReleasesOnly byte b
  write_bits-ReleasesOnly (suc left) byte b =
      ReleasesOnly-trans (write_slot-ReleasesOnly byte b)
        (write_bits-ReleasesOnly left _ (write_slot pin byte b))

  pub write_byte-ReleasesOnly :
      (byte : ℕ) (b : Board) → ReleasesOnly pin b.direction (write_byte pin byte b).direction
  unfolding write_byte
  write_byte-ReleasesOnly byte b = write_bits-ReleasesOnly 7 byte b

  read_slot-ReleasesOnly :
      (env : Env) (b : Board) → ReleasesOnly pin b.direction (read_slot env pin b).1.direction
  unfolding read_slot
  read_slot-ReleasesOnly env b = pulse_ReleasesOnly pin b.direction small

  read_bits-ReleasesOnly :
      (env : Env) (left byte : ℕ) (b : Board)
      → ReleasesOnly pin b.direction (read_bits env pin (suc left) byte b).1.direction
  unfolding read_bits
  read_bits-ReleasesOnly env zero byte b = read_slot-ReleasesOnly env b
  read_bits-ReleasesOnly env (suc left) byte b =
      ReleasesOnly-trans (read_slot-ReleasesOnly env b)
        (read_bits-ReleasesOnly env left _ (read_slot env pin b).1)

  pub read_byte-ReleasesOnly :
      (env : Env) (b : Board) → ReleasesOnly pin b.direction (read_byte env pin b).1.direction
  unfolding read_byte
  read_byte-ReleasesOnly env b = read_bits-ReleasesOnly env 7 0 b

  -- A reset, a written byte and a read byte each leave the line released, and leave every other pin
  -- of the port driven or not as it was.
  pub transfers-release :
      (env : Env) (byte : ℕ) (b : Board) (j : ℕ)
      → j < 32
      → j ≢ pin
      → let r = (reset env pin b).1.direction in
        let w = (write_byte pin byte b).direction in
        let x = (read_byte env pin b).1.direction in
        ((bit pin r ≡ 0) × (bit j r ≡ bit j b.direction))
        × ((bit pin w ≡ 0) × (bit j w ≡ bit j b.direction))
        × ((bit pin x ≡ 0) × (bit j x ≡ bit j b.direction))
  transfers-release env byte b j h ne =
      let r = reset-ReleasesOnly env b in
      let w = write_byte-ReleasesOnly byte b in
      let x = read_byte-ReleasesOnly env b in
      ((r.released, r.others j h ne), (w.released, w.others j h ne), (x.released, x.others j h ne))
