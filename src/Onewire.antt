-- ===== src/Onewire.antt =====
-- onewire.c: the bit-banged 1-Wire bus. `pin` is `onewire_config->onewire_pin`; the other field of
-- the configuration is the shared `gpio_config`, whose direction word is `Board.direction`.
pub mod Drive
pub mod Slave
pub mod Write
pub mod Read
pub mod Interface
use Prim.Native.Nat.{bit_and, bit_or}
use quark_meteo_station.Base.{ℕ, zero, suc, ◌/◌, ◌==◌, if◌then◌else◌, Bool, true, false}
use quark_meteo_station.Base.Bits.Masks.{set_bit, clear_bit}
use quark_meteo_station.Board.{
  Board, Env, call, udelay, read_pin, ◌▷◌, gpio_set_config, gpio_clear_pin,
}

-- `onewire_config_t`; the pointer `gpio_config` leads to `Board.direction`.
pub record Config : Type 0 where
  pub onewire_pin : ℕ

-- `onewire_pin_dir_t`.
pub data PinDir : Type 0 where
  output input : PinDir

-- `onewire_detect_t`.
pub data Detect : Type 0 where
  present absent : Detect

-- The direction word with the pin's bit set for an output, cleared for an input.
unfoldable pub turned : ℕ → PinDir → ℕ → ℕ
unfolding set_bit clear_bit
turned pin output direction = set_bit direction pin
turned pin input direction = clear_bit direction pin

unfoldable pub pin_set_direction : ℕ → PinDir → Board → Board
unfolding call
pin_set_direction pin dir b =
    let word = turned pin dir b.direction in
    record b { direction = word } ▷ call (gpio_set_config word)

unfoldable pub init : ℕ → Board → Board
unfolding pin_set_direction call
init pin b = b ▷ pin_set_direction pin input ▷ call (gpio_clear_pin pin)

module _ (env : Env) where
  unfoldable pub reset : ℕ → Board → Detect × Board
  unfolding pin_set_direction udelay read_pin
  reset pin b =
      let driven = b ▷ pin_set_direction pin output ▷ udelay 500 in
      let released = driven ▷ pin_set_direction pin input ▷ udelay 100 in
      let (response, b') = read_pin env pin released in
      ((if response then absent else present), udelay 400 b')

-- One round of the loop of `onewire_write_byte`: a slot for the lowest bit.
unfoldable pub write_slot : ℕ → ℕ → Board → Board
unfolding pin_set_direction udelay
write_slot pin byte b =
    let driven = b ▷ pin_set_direction pin output in
    if bit_and byte 1 == 0
    then driven ▷ udelay 60 ▷ pin_set_direction pin input
    else driven ▷ udelay 5 ▷ pin_set_direction pin input ▷ udelay 55

-- The loop, with so many rounds left.
unfoldable pub write_bits : ℕ → ℕ → ℕ → Board → Board
write_bits pin zero byte b = b
write_bits pin (suc left) byte b = write_bits pin left (byte / 2) (write_slot pin byte b)

unfoldable pub write_byte : ℕ → ℕ → Board → Board
unfolding write_bits
write_byte pin byte b = write_bits pin 8 byte b

module _ (env : Env) where
  -- The bus part of one round of the loop of `onewire_read_byte`: the level sampled in the slot.
  unfoldable pub read_slot : ℕ → Board → Bool × Board
  unfolding pin_set_direction udelay read_pin
  read_slot pin b =
      let driven = b ▷ pin_set_direction pin output ▷ udelay 5 in
      let released = driven ▷ pin_set_direction pin input ▷ udelay 5 in
      let (response, b') = read_pin env pin released in (response, udelay 50 b')

  -- The loop, with so many rounds left. `byte` is shifted right, and the sample enters at the top.
  unfoldable pub read_bits : ℕ → ℕ → ℕ → Board → ℕ × Board
  read_bits pin zero byte b = (byte, b)
  read_bits pin (suc left) byte b =
      let (response, b') = read_slot pin b in
      let byte' = (if response then bit_or (byte / 2) 0x80 else byte / 2) in
      read_bits pin left byte' b'

  unfoldable pub read_byte : ℕ → Board → ℕ × Board
  unfolding read_bits
  read_byte pin b = read_bits pin 8 0 b
