-- ===== src/Onewire/Write.antt =====
-- What a device on the bus hears of `onewire_write_byte` and `onewire_reset`.
use quark_meteo_station.Base.{
  ℕ, zero, suc, ◌+◌, ◌/◌, ◌%◌, ◌<◌, ◌≡◌, arith, [], ◌∷◌, ◌==◌, true, false, if◌then◌else◌,
}
use quark_meteo_station.Base.Bits.{bit_and-one}
use quark_meteo_station.Board.{Board, Env}
use quark_meteo_station.Onewire.{output, turned, reset, write_slot, write_bits, write_byte}
use quark_meteo_station.Onewire.Drive.{turned-output, turned-input}
use quark_meteo_station.Onewire.Slave.{
  Slave, shift_in, take_bit, listen, shift_bits, shift_bits_lem, shift_in-lt,
}

-- The device is between two slots, with so many bits of a byte taken.
pub record Idle (s : Slave) (slots : ℕ) : Type 0 where
  pub high : s.low ≡ false
  pub at : s.slots ≡ slots
  pub small : s.register < 256

module _ (pin : ℕ) (small : pin < 32) where
  -- One slot of the driver is one bit for the device.
  -- One slot of the driver is one bit for the device.
  write_slot-take_bit :
      (byte : ℕ) (b : Board)
      → (listen pin b.log).low ≡ false
      → listen pin (write_slot pin byte b).log
        ≡ take_bit
            (byte % 2)
            (record (listen pin b.log) { low = true; since = if byte % 2 == 0 then 60 else 5 })
  unfolding write_slot listen
  write_slot-take_bit byte b h = ground (
    arith,
    bit_and-one byte,
    turned-output pin b.direction,
    turned-input pin (turned pin output b.direction) small,
  )

  -- The slots of a byte, from the first to the last: the device's register takes the bits.
  write_bits-register :
      (left byte slots : ℕ) (b : Board)
      → Idle (listen pin b.log) slots
      → slots + suc left ≡ 8
      → let heard = listen pin (write_bits pin (suc left) byte b).log in
        Idle heard 0
        × (heard.bytes
            ≡ shift_bits (suc left) (listen pin b.log).register byte ∷ (listen pin b.log).bytes)
  unfolding write_bits take_bit
  write_bits-register zero byte slots b idle e = ground (
    arith,
    write_slot-take_bit byte b idle.high,
    shift_in-lt (listen pin b.log).register (byte % 2),
  )
  write_bits-register (suc left) byte slots b idle e =
      let next = write_slot pin byte b in
      let heard : Idle (listen pin next.log) (slots + 1)
          × ((listen pin next.log).register ≡ shift_in (listen pin b.log).register (byte % 2))
          × ((listen pin next.log).bytes ≡ (listen pin b.log).bytes) =
        ground (
          arith,
          write_slot-take_bit byte b idle.high,
          shift_in-lt (listen pin b.log).register (byte % 2),
        ) in
      ground
        (arith, heard, write_bits-register left (byte / 2) (slots + 1) next heard.0 (omega arith))

  -- `onewire_write_byte`: an idle device takes exactly the byte, and is idle again.
  pub write_byte-listen :
      (byte : ℕ) (b : Board)
      → byte < 256
      → Idle (listen pin b.log) 0
      → let heard = listen pin (write_byte pin byte b).log in
        Idle heard 0 × (heard.bytes ≡ byte ∷ (listen pin b.log).bytes)
  unfolding write_byte
  write_byte-listen byte b fits idle = ground (
    arith,
    write_bits-register 7 byte 0 b idle (omega arith),
    shift_bits_lem (listen pin b.log).register byte idle.small fits,
  )

  -- `onewire_reset`: the device forgets what it heard, and is idle.
  pub reset-listen :
      (env : Env) (b : Board)
      → (listen pin b.log).low ≡ false
      → let heard = listen pin (reset env pin b).1.log in Idle heard 0 × (heard.bytes ≡ [])
  unfolding reset listen
  reset-listen env b h =
      ground (
        arith,
        turned-output pin b.direction,
        turned-input pin (turned pin output b.direction) small,
      )
