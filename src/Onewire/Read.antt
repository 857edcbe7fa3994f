-- ===== src/Onewire/Read.antt =====
-- What `onewire_read_byte` makes of the levels that it samples.
use Prim.Native.Nat.{bit_or}
use quark_meteo_station.Base.{
  ℕ, zero, suc, ◌+◌, ◌/◌, ◌%◌, ◌<◌, ◌≡◌, refl, arith, List, [], ◌∷◌, ◌==◌, if◌then◌else◌, ◌∙◌, ap,
}
use quark_meteo_station.Base.Bits.{bit, all_below, eq_below}
use quark_meteo_station.Board.{Board, Env, Call, gpio_read_pin}
use quark_meteo_station.Onewire.{
  reset, write_slot, write_bits, write_byte, read_slot, read_bits, read_byte,
}
use quark_meteo_station.Onewire.Slave.{shift_bits, shift_in-lt}

-- How often a pin has been sampled.
unfoldable pub samples : ℕ → List Call → ℕ
samples pin [] = 0
samples pin (gpio_read_pin p ∷ older) =
    if p == pin then suc (samples pin older) else samples pin older
samples pin (c ∷ older) = samples pin older

-- From the sample `start` on, the device answers the bits of `v`, the lowest first.
abbrev pub Answers : Env → ℕ → ℕ → ℕ → Type 0
Answers env pin start v =
    (l : List Call) (k : ℕ) → samples pin l ≡ start + k → env.pin_level l pin ≡ (bit k v == 1)

pub Answers-half :
    (env : Env) (pin start v : ℕ) → Answers env pin start v → Answers env pin (start + 1) (v / 2)
Answers-half env pin start v h l k e = h l (suc k) (omega arith)

-- `bit_or (byte >> 1) 0x80` sets the top bit.
or_top : (a : ℕ) → a < 128 → bit_or a 0x80 ≡ a + 128
unfolding all_below
or_top = eq_below 128 (λ a. bit_or a 0x80) (λ a. a + 128) refl

module _ (env : Env) (pin : ℕ) where
  read_slot_lem :
      (start v : ℕ) (b : Board)
      → Answers env pin start v
      → samples pin b.log ≡ start
      → ((read_slot env pin b).0 ≡ (v % 2 == 1))
        × (samples pin (read_slot env pin b).1.log ≡ start + 1)
  unfolding read_slot samples
  read_slot_lem start v b h e = (h _ 0 (omega (arith, e)), ground arith)

  read_bits_lem :
      (left start v byte : ℕ) (b : Board)
      → Answers env pin start v
      → samples pin b.log ≡ start
      → byte < 256
      → ((read_bits env pin left byte b).0 ≡ shift_bits left byte v)
        × (samples pin (read_bits env pin left byte b).1.log ≡ start + left)
  unfolding read_bits
  read_bits_lem zero start v byte b h e fits = ground arith
  read_bits_lem (suc left) start v byte b h e fits =
      let (response, b') = read_slot env pin b in
      let byte' = (if response then bit_or (byte / 2) 0x80 else byte / 2) in
      ground (
        arith,
        read_slot_lem start v b h e,
        or_top (byte / 2),
        shift_in-lt byte (v % 2) fits,
        read_bits_lem left (start + 1) (v / 2) byte' b' (Answers-half env pin start v h),
      )

  -- `onewire_read_byte` returns the byte that the device answers, the lowest bit first, and takes
  -- eight samples.
  pub read_byte_lem :
      (start v : ℕ) (b : Board)
      → Answers env pin start v
      → samples pin b.log ≡ start
      → ((read_byte env pin b).0 ≡ v % 256) × (samples pin (read_byte env pin b).1.log ≡ start + 8)
  unfolding read_byte
  read_byte_lem start v b h e = ground (arith, read_bits_lem 8 start v 0 b h e)

-- After a byte the device answers what lies above it.
pub Answers-byte :
    (env : Env) (pin start v : ℕ) → Answers env pin start v → Answers env pin (start + 8) (v / 256)
Answers-byte env pin start v h l k e =
    let shifted : bit (suc (suc (suc (suc (suc (suc (suc (suc k)))))))) v ≡ bit k (v / 256) =
      ap (bit k) (omega arith) in
    rw (← shifted) (h l (suc (suc (suc (suc (suc (suc (suc (suc k)))))))) (omega (arith, e)))

-- A reset takes one sample, and a write none.
pub samples-reset :
    (env : Env) (pin : ℕ) (b : Board) → samples pin (reset env pin b).1.log ≡ samples pin b.log + 1
unfolding reset samples
samples-reset env pin b = ground arith

samples-write_bits :
    (pin left byte : ℕ) (b : Board)
    → samples pin (write_bits pin left byte b).log ≡ samples pin b.log
unfolding write_bits
samples-write_bits pin zero byte b = refl
samples-write_bits pin (suc left) byte b =
    samples-write_bits pin left (byte / 2) (write_slot pin byte b)
    ∙ (unfold write_slot samples in ground arith)

pub samples-write_byte :
    (pin byte : ℕ) (b : Board) → samples pin (write_byte pin byte b).log ≡ samples pin b.log
unfolding write_byte
samples-write_byte pin byte b = samples-write_bits pin 8 byte b
