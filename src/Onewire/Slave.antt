-- ===== src/Onewire/Slave.antt =====
-- A 1-Wire device that listens to the bus, as the protocol describes it and with no regard to the
-- driver: it times how long the line is held low. It is the independent side of the theorems on
-- onewire.c and DS18B20.c.
use quark_meteo_station.Base.{
  ℕ, zero, suc, ◌+◌, ◌*◌, ◌/◌, ◌%◌, ◌<◌, ◌≡◌, arith, List, [], ◌∷◌, ltb, leb, ◌==◌, Bool, true,
  false, if◌then◌else◌,
}
use quark_meteo_station.Base.Bits.{bit}
use quark_meteo_station.Board.{Call, gpio_set_config, sys_udelay}

-- `low` and `since`: whether the line is held low, and for how many microseconds. `register` takes
-- the bits of the byte under way, the lowest first; `bytes` has the newest byte first.
pub record Slave : Type 0 where
  pub low : Bool
  pub since : ℕ
  pub register : ℕ
  pub slots : ℕ
  pub bytes : List ℕ

abbrev pub asleep : Slave
asleep = record { low = false; since = 0; register = 0; slots = 0; bytes = [] }

-- A bit (0 or 1) enters the register at the top.
abbrev pub shift_in : ℕ → ℕ → ℕ
shift_in register b = register / 2 + 128 * b

-- A slot has ended; the eighth completes a byte.
unfoldable pub take_bit : ℕ → Slave → Slave
take_bit b s =
    let register' = shift_in s.register b in
    if s.slots == 7
    then record s { low = false; register = register'; slots = 0; bytes = register' ∷ s.bytes }
    else record s { low = false; register = register'; slots = s.slots + 1 }

-- The line rises after `since` microseconds: a reset from 480 on, a 1 below 15, else a 0.
unfoldable pub rise : Slave → Slave
unfolding take_bit
rise s =
    if leb 480 s.since
    then record s { low = false; register = 0; slots = 0; bytes = [] }
    else if ltb s.since 15
    then take_bit 1 s
    else take_bit 0 s

-- The line is low exactly while the master drives its pin, whose latch holds 0.
unfoldable pub hear : ℕ → Call → Slave → Slave
unfolding rise
hear pin (gpio_set_config word) s =
    if bit pin word == 1
    then (if s.low then s else record s { low = true; since = 0 })
    else (if s.low then rise s else s)
hear pin (sys_udelay us) s = if s.low then record s { since = s.since + us } else s
hear pin c s = s

-- What the device has heard of a log.
unfoldable pub listen : ℕ → List Call → Slave
unfolding hear
listen pin [] = asleep
listen pin (c ∷ older) = hear pin c (listen pin older)

-- The bits of `v` enter one after the other, the lowest first.
abbrev pub shift_bits : ℕ → ℕ → ℕ → ℕ
shift_bits zero r v = r
shift_bits (suc n) r v = shift_bits n (shift_in r (v % 2)) (v / 2)

-- Eight of them push out what was there.
pub shift_bits_lem : (r v : ℕ) → r < 256 → v < 256 → shift_bits 8 r v ≡ v
shift_bits_lem r v hr hv = omega arith

pub shift_in-lt : (r b : ℕ) → r < 256 → b < 2 → shift_in r b < 256
shift_in-lt r b h k = omega arith
