-- ===== src/Hd44780.antt =====
-- HD44780.c: the character display, on six pins of the port in 4-bit mode.
pub mod Bus
pub mod Memory
pub mod Cursor
pub mod Integer
pub mod Glyph
pub mod Quiet
pub mod Interface
mod Flags
pub use Flags.*
use Prim.Native.Nat.{bit_and, bit_or}
use quark_meteo_station.Base.{
  ℕ, zero, suc, ◌+◌, ◌-◌, ◌*◌, ◌^◌, ◌<◌, Bool, true, false, not, List, [], ◌∷◌, Option, none, some,
  ltb, leb, ◌==◌, if◌then◌else◌, length, get_or, drop, take,
}
use quark_meteo_station.Base.Int.{ℤ, abs, is_neg}
use quark_meteo_station.Base.Word.{u8}
use quark_meteo_station.Board.{Board, call, udelay, ◌▷◌, gpio_set_pin_state}
use quark_meteo_station.Utoa.{utoa, strlen, text}

-- `HD44780_type_data_t`.
pub record TypeData : Type 0 where
  pub rows : ℕ
  pub columns : ℕ
  pub rows_first_addr : List ℕ

-- The table `HD44780_type_data`; addresses that the initialisers leave out are 0.
abbrev pub type_table : List TypeData
type_table =
    record { rows = 2; columns = 8; rows_first_addr = 0x00 ∷ 0x40 ∷ 0 ∷ 0 ∷ [] }
    ∷ record { rows = 1; columns = 16; rows_first_addr = 0x00 ∷ 0 ∷ 0 ∷ 0 ∷ [] }
    ∷ record { rows = 2; columns = 16; rows_first_addr = 0x00 ∷ 0x40 ∷ 0 ∷ 0 ∷ [] }
    ∷ record { rows = 4; columns = 16; rows_first_addr = 0x00 ∷ 0x40 ∷ 0x10 ∷ 0x50 ∷ [] }
    ∷ record { rows = 2; columns = 20; rows_first_addr = 0x00 ∷ 0x40 ∷ 0 ∷ 0 ∷ [] }
    ∷ record { rows = 4; columns = 20; rows_first_addr = 0x00 ∷ 0x40 ∷ 0x14 ∷ 0x54 ∷ [] }
    ∷ record { rows = 2; columns = 40; rows_first_addr = 0x00 ∷ 0x40 ∷ 0 ∷ 0 ∷ [] }
    ∷ []

-- An access past the table, which `init` rules out, reads no display.
abbrev pub type_data : ℕ → TypeData
type_data t = get_or type_table t (record { rows = 0; columns = 0; rows_first_addr = [] })

-- `HD44780_config_t`. `type` is the number of the enumerator.
pub record Config : Type 0 where
  pub rs : ℕ
  pub e : ℕ
  pub d4 : ℕ
  pub d5 : ℕ
  pub d6 : ℕ
  pub d7 : ℕ
  pub type : ℕ
  pub entry_mode_flags : ℕ
  pub on_off_flags : ℕ

-- `HD44780_mode_t`.
pub data Mode : Type 0 where
  instruction character : Mode

-- The commands of `HD44780_commands` and `HD44780_lines` that the code sends.
abbrev pub clear_display_cmd : ℕ
clear_display_cmd = 0x01

abbrev pub entry_mode_set_cmd : ℕ
entry_mode_set_cmd = 0x04

abbrev pub display_on_off_cmd : ℕ
display_on_off_cmd = 0x08

abbrev pub function_set_cmd : ℕ
function_set_cmd = 0x20

abbrev pub set_cgram_addr_cmd : ℕ
set_cgram_addr_cmd = 0x40

abbrev pub set_ddram_addr_cmd : ℕ
set_ddram_addr_cmd = 0x80

abbrev pub is_character : Mode → Bool
is_character character = true
is_character instruction = false

unfoldable pub set_pin : ℕ → Bool → Board → Board
unfolding call
set_pin pin level = call (gpio_set_pin_state pin level)

-- `(byte & (1 << k)) ? QM_GPIO_HIGH : QM_GPIO_LOW`.
unfoldable pub level_of : ℕ → ℕ → Bool
level_of byte k = not (bit_and byte (2 ^ k) == 0)

module _ (config : Config) where
  open config use {rs, e, d4, d5, d6, d7, entry_mode_flags, on_off_flags}

  unfoldable pub write_byte : ℕ → Mode → Board → Board
  unfolding set_pin udelay
  write_byte byte mode b =
      b
      ▷ set_pin rs (is_character mode)
      ▷ set_pin d7 (level_of byte 7)
      ▷ set_pin d6 (level_of byte 6)
      ▷ set_pin d5 (level_of byte 5)
      ▷ set_pin d4 (level_of byte 4)
      ▷ set_pin e true
      ▷ udelay 1
      ▷ set_pin e false
      ▷ set_pin d7 (level_of byte 3)
      ▷ set_pin d6 (level_of byte 2)
      ▷ set_pin d5 (level_of byte 1)
      ▷ set_pin d4 (level_of byte 0)
      ▷ set_pin e true
      ▷ udelay 1
      ▷ set_pin e false

  unfoldable pub write_cmd : ℕ → Board → Board
  write_cmd command = write_byte command instruction

  unfoldable pub write_char : ℕ → Board → Board
  write_char c = write_byte c character

  unfoldable pub clear : Board → Board
  unfolding write_cmd
  clear b =
      let first = get_or (type_data config.type).rows_first_addr 0 0 in
      b
      ▷ write_cmd clear_display_cmd
      ▷ udelay 1000
      ▷ write_cmd (bit_or set_ddram_addr_cmd first)
      ▷ udelay 1000

  -- The row and the column after the four clamps of `HD44780_gotoxy`.
  unfoldable pub clamp_row : ℕ → ℕ
  clamp_row x =
      let x' = (if ltb x 1 then 1 else x) in
      let rows = (type_data config.type).rows in if ltb rows x' then rows else x'

  unfoldable pub clamp_column : ℕ → ℕ
  clamp_column y =
      let y' = (if ltb y 1 then 1 else y) in
      let columns = (type_data config.type).columns in if ltb columns y' then columns else y'

  unfoldable pub required_address : ℕ → ℕ → ℕ
  unfolding clamp_row clamp_column
  required_address x y =
      u8 (get_or (type_data config.type).rows_first_addr (clamp_row x - 1) 0 + clamp_column y - 1)

  unfoldable pub gotoxy : ℕ → ℕ → Board → Board
  unfolding write_cmd
  gotoxy x y = write_cmd (bit_or set_ddram_addr_cmd (required_address x y))

  -- The text up to its NUL.
  unfoldable pub write_string : List ℕ → Board → Board
  unfolding write_char
  write_string [] b = b
  write_string (c ∷ s) b = write_string s (write_char c b)

  -- `while(leading_zeros > 0)`.
  unfoldable pub write_zeros : ℕ → Board → Board
  unfolding write_char
  write_zeros zero b = b
  write_zeros (suc leading_zeros) b = write_zeros leading_zeros (write_char b'0' b)

  -- The digits behind the sign: `buffer` is the local array, whatever it holds. `leading_zeros` is
  -- an `int8_t`: where the difference is negative or wraps to a negative value the loop is skipped.
  unfoldable pub write_number : List ℕ → ℕ → ℕ → Board → Option Board
  unfolding write_zeros write_string
  write_number buffer number required_length b = elim (utoa number buffer) [
    | none ↦ none
    | some digits ↦
        let leading_zeros = u8 (required_length + 256 - strlen digits) in
        let padded = (if ltb leading_zeros 128 then write_zeros leading_zeros b else b) in
        some (write_string (text digits) padded)
  ]

  -- `number = -number` gives the absolute value; for the least `int32_t` too, whose negation wraps
  -- to itself and is read as unsigned by `utoa`.
  unfoldable pub write_integer : List ℕ → ℤ → ℕ → Board → Option Board
  unfolding write_number write_char
  write_integer buffer number required_length b =
      let signed = (if is_neg number then write_char b'-' b else b) in
      write_number buffer (abs number) required_length signed

  -- The eight bytes of a glyph, with so many left; a shorter array is read past its end: `none`.
  unfoldable pub write_glyph : ℕ → List ℕ → Board → Option Board
  unfolding write_char
  write_glyph zero glyph b = some b
  write_glyph (suc left) [] b = none
  write_glyph (suc left) (row ∷ glyph) b = write_glyph left glyph (write_char row b)

  unfoldable pub load_custom_glyph : List ℕ → ℕ → Board → Option Board
  unfolding write_glyph write_cmd
  load_custom_glyph glyph cgram_addr b =
      let last = custom_glyphs_num - 1 in
      let addr = (if ltb last cgram_addr then last else cgram_addr) in
      write_glyph cgram_char_size glyph
        (write_cmd (bit_or set_cgram_addr_cmd (u8 (addr * cgram_char_size))) b)

  -- The loop of `HD44780_load_custom_glyphs` at glyph `i`, with so many left.
  unfoldable pub load_glyphs_from : ℕ → ℕ → List ℕ → Board → Option Board
  unfolding load_custom_glyph
  load_glyphs_from zero i glyphs b = some b
  load_glyphs_from (suc left) i glyphs b =
      elim (load_custom_glyph (drop (i * cgram_char_size) glyphs) i b) [
        | none ↦ none
        | some b' ↦ load_glyphs_from left (i + 1) glyphs b'
      ]

  unfoldable pub load_custom_glyphs : List ℕ → Board → Option Board
  unfolding load_glyphs_from
  load_custom_glyphs glyphs = load_glyphs_from custom_glyphs_num 0 glyphs

-- The configuration that `HD44780_init` keeps: an unknown type is replaced in the caller's object.
unfoldable pub checked : Config → Config
checked config =
    if leb display_types_num config.type then record config { type = display_16x2 } else config

unfoldable pub init : Config → Board → Config × Board
unfolding checked write_cmd clear
init config₀ b =
    let config = checked config₀ in
    let lines = (if (type_data config.type).rows == 1 then one_line else two_lines) in
    (
      config,
      b
          ▷ write_cmd config 0x30
          ▷ udelay 5000
          ▷ write_cmd config 0x30
          ▷ udelay 1000
          ▷ write_cmd config 0x30
          ▷ udelay 1000
          ▷ write_cmd config 0x02
          ▷ write_cmd config (bit_or function_set_cmd lines)
          ▷ write_cmd config (u8 (bit_or display_on_off_cmd config.on_off_flags))
          ▷ write_cmd config (u8 (bit_or entry_mode_set_cmd config.entry_mode_flags))
          ▷ clear config,
    )
