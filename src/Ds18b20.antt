-- ===== src/Ds18b20.antt =====
-- DS18B20.c: the outdoor thermometer, behind any 1-Wire library.
pub mod Decode
pub mod Transfer
pub mod Interface
use Prim.Native.Nat.{bit_and, bit_or}
use quark_meteo_station.Base.{ℕ, ◌+◌, ◌-◌, ◌*◌, ◌/◌, ◌^◌, ◌==◌, if◌then◌else◌}
use quark_meteo_station.Base.Word.{u8}
use quark_meteo_station.Board.{Board, ◌▷◌}
use quark_meteo_station.Onewire.Interface.{Bus}

-- `DS18B20_command_t`.
abbrev pub convert_t : ℕ
convert_t = 0x44

abbrev pub read_scratchpad : ℕ
read_scratchpad = 0xBE

abbrev pub skip_rom : ℕ
skip_rom = 0xCC

-- `DS18B20_sign_t`.
pub data Sign : Type 0 where
  positive negative : Sign

-- `DS18B20_meas_t`.
pub record Meas : Type 0 where
  pub sign : Sign
  pub integer : ℕ
  pub fraction : ℕ

-- The two bytes after the sign was read: `msb = ~msb; lsb = ~lsb + 1` where it is negative.
abbrev pub magnitude : Sign → ℕ → ℕ → ℕ × ℕ
magnitude positive lsb msb = (lsb, msb)
magnitude negative lsb msb = (u8 (256 - lsb), 255 - msb)

-- From the two temperature bytes to the measurement.
unfoldable pub decode : ℕ → ℕ → Meas
decode lsb msb =
    let sign = (if bit_and msb 0x80 == 0 then positive else negative) in
    let (lsb', msb') = magnitude sign lsb msb in
    record {
      sign = sign;
      integer = u8 (bit_and (bit_or (msb' * 2 ^ 4) (lsb' / 2 ^ 4)) 0x7F);
      fraction = u8 (bit_and lsb' 0x0F * 625 / 100);
    }

module _ (bus : Bus) where
  open bus use {onewire_reset, onewire_write_byte, onewire_read_byte}

  unfoldable pub request_conversion : Board → Board
  request_conversion b =
      (onewire_reset b).1 ▷ onewire_write_byte skip_rom ▷ onewire_write_byte convert_t

  unfoldable pub get_temperature : Board → Meas × Board
  get_temperature b =
      let asked =
        (onewire_reset b).1 ▷ onewire_write_byte skip_rom ▷ onewire_write_byte read_scratchpad in
      let (lsb, b') = onewire_read_byte asked in
      let (msb, b'') = onewire_read_byte b' in (decode lsb msb, b'')
