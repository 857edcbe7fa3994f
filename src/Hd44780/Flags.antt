-- ===== src/Hd44780/Flags.antt =====
-- HD44780.h, HD44780.c: the sizes and the enumerations whose values the code combines.
use quark_meteo_station.Base.{ℕ}

-- The local array of `HD44780_write_integer`.
abbrev pub tmp_buf_size : ℕ
tmp_buf_size = 11

abbrev pub cgram_char_size : ℕ
cgram_char_size = 8

-- `HD44780_type_t`.
abbrev pub display_16x1_type_1 : ℕ
display_16x1_type_1 = 0

abbrev pub display_16x1_type_2 : ℕ
display_16x1_type_2 = 1

abbrev pub display_16x2 : ℕ
display_16x2 = 2

abbrev pub display_16x4 : ℕ
display_16x4 = 3

abbrev pub display_20x2 : ℕ
display_20x2 = 4

abbrev pub display_20x4 : ℕ
display_20x4 = 5

abbrev pub display_40x2 : ℕ
display_40x2 = 6

abbrev pub display_types_num : ℕ
display_types_num = 7

-- `HD44780_lines`.
abbrev pub one_line : ℕ
one_line = 0x00

abbrev pub two_lines : ℕ
two_lines = 0x08

-- `HD44780_entry_mode_flags`.
pub data EntryModeFlag : Type 0 where
  flags_cleared display_scroll_on increase_cursor_on : EntryModeFlag

abbrev pub entry_mode_bits : EntryModeFlag → ℕ
entry_mode_bits flags_cleared = 0x00
entry_mode_bits display_scroll_on = 0x01
entry_mode_bits increase_cursor_on = 0x02

-- `HD44780_on_off_flags`.
pub data OnOffFlag : Type 0 where
  all_off cursor_blink_on cursor_on display_on : OnOffFlag

abbrev pub on_off_bits : OnOffFlag → ℕ
on_off_bits all_off = 0x00
on_off_bits cursor_blink_on = 0x01
on_off_bits cursor_on = 0x02
on_off_bits display_on = 0x04

-- `HD44780_glyph_addr_t`: the places of the custom glyphs.
pub data GlyphAddr : Type 0 where
  glyph_0 glyph_1 glyph_2 glyph_3 glyph_4 glyph_5 glyph_6 glyph_7 : GlyphAddr

abbrev pub glyph_addr : GlyphAddr → ℕ
glyph_addr glyph_0 = 0
glyph_addr glyph_1 = 1
glyph_addr glyph_2 = 2
glyph_addr glyph_3 = 3
glyph_addr glyph_4 = 4
glyph_addr glyph_5 = 5
glyph_addr glyph_6 = 6
glyph_addr glyph_7 = 7

abbrev pub custom_glyphs_num : ℕ
custom_glyphs_num = 8
