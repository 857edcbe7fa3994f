-- ===== src/Hd44780/Interface.antt =====
-- HD44780.h: what the library of the display offers to GUI.c and main.c, and that HD44780.c is one.
use Prim.Native.Nat.{min}
use quark_meteo_station.Base.{
  ℕ, ◌+◌, ◌-◌, ◌*◌, ◌^◌, ◌≤◌, ◌<◌, ◌≡◌, refl, ap, sym, ◌∙◌, arith, true, false, List, [], ◌∷◌,
  length, take, All, Option, some, get_or,
}
use quark_meteo_station.Base.Int.{ℤ, pos_part, neg_part}
use quark_meteo_station.Board.{Board, Call, gpio_set_pin_state}
use quark_meteo_station.Board.Untouched.{Untouched, Quiet, levels_set}
use quark_meteo_station.Hd44780.{
  Config, Mode, is_character, type_data, display_types_num, tmp_buf_size, clear, init, write_byte,
  write_cmd, write_char, gotoxy, write_integer, write_string, load_custom_glyph, load_custom_glyphs,
}
use quark_meteo_station.Hd44780.Memory.{Forward}
use quark_meteo_station.Hd44780.{entry_mode_bits, increase_cursor_on}
use quark_meteo_station.Hd44780.Bus.{
  Msg, said, level, nibble, receive, IsWired, Shows, write_byte-Shows, write_cmd-Shows,
  write_char-Shows, write_string-Shows, udelay-Shows,
}
use quark_meteo_station.Hd44780.Cursor.{nearest, gotoxy-Shows}
use quark_meteo_station.Hd44780.Integer.{int_text, write_integer-Shows}
use quark_meteo_station.Hd44780.Quiet.{
  write_char-Quiet, gotoxy-Quiet, write_string-Quiet, write_integer-Quiet,
}
use quark_meteo_station.Hd44780.Glyph.{
  home_command, glyph_msgs, load_custom_glyph-Shows, load_custom_glyphs-Shows, init-Shows,
}

-- `Shows b ms`: on this board the display has taken these messages, newest first, and waits for the
-- next. What sets no level keeps that. The functions that draw send nothing to the modem. `config` is what `HD44780_init` was given and kept.
pub record Display : Type 1 where
  pub Shows : Board → List Msg → Type 0
  pub config : Config
  pub hd44780_init : Config → Board → Config × Board
  pub write_byte : ℕ → Mode → Board → Board
  pub write_cmd : ℕ → Board → Board
  pub write_char : ℕ → Board → Board
  pub clear : Board → Board
  pub gotoxy : ℕ → ℕ → Board → Board
  pub write_integer : ℤ → ℕ → Board → Option Board
  pub write_string : List ℕ → Board → Board
  pub load_custom_glyph : List ℕ → ℕ → Board → Option Board
  pub load_custom_glyphs : List ℕ → Board → Option Board
  pub Untouched-Shows : {b b' : Board} {ms : List Msg} → Untouched b b' → Shows b ms → Shows b' ms
  pub init-Shows :
      (b : Board) {ms : List Msg}
      → Shows b ms
      → ((hd44780_init config b).0 ≡ config)
        × ((ms' : List Msg) × Shows (hd44780_init config b).1 ms'
            × (config.entry_mode_flags ≡ entry_mode_bits increase_cursor_on → Forward ms'))
  pub write_byte-Shows :
      (byte : ℕ) (mode : Mode) (b : Board) {ms : List Msg}
      → byte < 256
      → Shows b ms
      → Shows (write_byte byte mode b) ((is_character mode, byte) ∷ ms)
  pub write_cmd-Shows :
      (cmd : ℕ) (b : Board) {ms : List Msg}
      → cmd < 256
      → Shows b ms
      → Shows (write_cmd cmd b) ((false, cmd) ∷ ms)
  pub write_char-Shows :
      (c : ℕ) (b : Board) {ms : List Msg}
      → c < 256
      → Shows b ms
      → Shows (write_char c b) ((true, c) ∷ ms)
  pub clear-Shows :
      (b : Board) {ms : List Msg} → Shows b ms → Shows (clear b) ((false, 128) ∷ (false, 1) ∷ ms)
  pub gotoxy-Shows :
      (x y : ℕ) (b : Board) {ms : List Msg}
      → Shows b ms
      → Shows (gotoxy x y b) (
          (
            false,
            128
                + (get_or
                      (type_data config.type).rows_first_addr
                      (nearest (type_data config.type).rows x - 1)
                      0
                    + (nearest (type_data config.type).columns y - 1)),
          )
          ∷ ms)
  pub write_integer-Shows :
      (n : ℤ) (required : ℕ) (b : Board) {ms : List Msg}
      → pos_part n < 2 ^ 31
      → neg_part n ≤ 2 ^ 31
      → required ≤ 128
      → Shows b ms
      → (b' : Board) × (write_integer n required b ≡ some b')
        × Shows b' (said (int_text n required) ms)
  pub write_string-Shows :
      (s : List ℕ) (b : Board) {ms : List Msg}
      → All (λ c. c < 256) s
      → Shows b ms
      → Shows (write_string s b) (said s ms)
  pub load_custom_glyph-Shows :
      (glyph : List ℕ) (addr : ℕ) (b : Board) {ms : List Msg}
      → 8 ≤ length glyph
      → All (λ row. row < 256) glyph
      → Shows b ms
      → (b' : Board) × (load_custom_glyph glyph addr b ≡ some b')
        × Shows b' (said (take 8 glyph) ((false, 64 + min addr 7 * 8) ∷ ms))
  pub load_custom_glyphs-Shows :
      (glyphs : List ℕ) (b : Board) {ms : List Msg}
      → 64 ≤ length glyphs
      → All (λ row. row < 256) glyphs
      → Shows b ms
      → (b' : Board) × (load_custom_glyphs glyphs b ≡ some b') × Shows b' (glyph_msgs 8 0 glyphs ms)
  pub write_char-Quiet : (c : ℕ) (b : Board) → Quiet b (write_char c b)
  pub gotoxy-Quiet : (x y : ℕ) (b : Board) → Quiet b (gotoxy x y b)
  pub write_string-Quiet : (s : List ℕ) (b : Board) → Quiet b (write_string s b)
  pub write_integer-Quiet :
      (n : ℤ) (required : ℕ) (b b' : Board) → write_integer n required b ≡ some b' → Quiet b b'

-- What a configuration of main.c's promises: different pins, a known type, and flags of the two
-- enumerations.
pub record IsUsable (config : Config) : Type 0 where
  pub wired : IsWired config
  pub known : config.type < display_types_num
  pub on_off : config.on_off_flags < 8
  pub entry : config.entry_mode_flags < 4

level-levels_set : (pin : ℕ) (l : List Call) → level pin (levels_set l) ≡ level pin l
unfolding level levels_set
level-levels_set pin [] = refl
level-levels_set pin (gpio_set_pin_state p high ∷ older) = rw (level-levels_set pin older) refl
level-levels_set pin (c ∷ older) = level-levels_set pin older

module _ (config : Config) where
  nibble-levels_set : (l : List Call) → nibble config (levels_set l) ≡ nibble config l
  unfolding nibble
  nibble-levels_set l = simp level-levels_set

  -- The controller sees the levels that were set, and nothing else.
  receive-levels_set : (l : List Call) → receive config (levels_set l) ≡ receive config l
  unfolding receive levels_set
  receive-levels_set [] = refl
  receive-levels_set (gpio_set_pin_state p high ∷ older) =
      simp (receive-levels_set older, level-levels_set, nibble-levels_set older)
  receive-levels_set (c ∷ older) = receive-levels_set older

  pub Untouched-Shows :
      {b b' : Board} {ms : List Msg} → Untouched b b' → Shows config b ms → Shows config b' ms
  Untouched-Shows {b} {b'} u s =
      let same : receive config b'.log ≡ receive config b.log =
        sym (receive-levels_set b'.log) ∙ ap (receive config) u ∙ receive-levels_set b.log in
      record { ready = rw same s.ready; shown = rw same s.shown }

-- HD44780.c with such a configuration; `buffer` is what the local of `HD44780_write_integer` holds.
module _ (config : Config) (usable : IsUsable config) (buffer : List ℕ)
    (room : length buffer ≡ tmp_buf_size) where
  pub hd44780_init-Shows :
      (b : Board) {ms : List Msg}
      → Shows config b ms
      → ((init config b).0 ≡ config)
        × ((ms' : List Msg) × Shows config (init config b).1 ms'
            × (config.entry_mode_flags ≡ entry_mode_bits increase_cursor_on → Forward ms'))
  hd44780_init-Shows b s =
      let known : config.type < 7 = omega (arith, usable.known) in
      let (kept, started) = init-Shows config b usable.wired known usable.on_off usable.entry s in
      (kept, (_, started, λ right start. rw right (refl, refl, refl)))

  pub clear-Shows :
      (b : Board) {ms : List Msg}
      → Shows config b ms
      → Shows config (clear config b) ((false, 128) ∷ (false, 1) ∷ ms)
  unfolding clear
  clear-Shows b s =
      let s₁ =
        udelay-Shows config usable.wired 1000 _
          (write_cmd-Shows config usable.wired 1 b (omega arith) s) in
      rw (home_command config.type (omega (arith, usable.known))) (
        udelay-Shows config usable.wired 1000 _
          (write_cmd-Shows config usable.wired 128 _ (omega arith) s₁))

  abbrev pub display : Display
  display = record {
    Shows = Shows config;
    config = config;
    hd44780_init = init;
    write_byte = write_byte config;
    write_cmd = write_cmd config;
    write_char = write_char config;
    clear = clear config;
    gotoxy = gotoxy config;
    write_integer = write_integer config buffer;
    write_string = write_string config;
    load_custom_glyph = load_custom_glyph config;
    load_custom_glyphs = load_custom_glyphs config;
    Untouched-Shows = Untouched-Shows config;
    init-Shows = hd44780_init-Shows;
    write_byte-Shows = write_byte-Shows config usable.wired;
    write_cmd-Shows = write_cmd-Shows config usable.wired;
    write_char-Shows = write_char-Shows config usable.wired;
    clear-Shows = clear-Shows;
    gotoxy-Shows = gotoxy-Shows config usable.known usable.wired;
    write_integer-Shows = λ n required b lo hi few s.
        write_integer-Shows config usable.wired buffer n required b room lo hi few s;
    write_string-Shows = write_string-Shows config usable.wired;
    load_custom_glyph-Shows = load_custom_glyph-Shows config usable.wired;
    load_custom_glyphs-Shows = load_custom_glyphs-Shows config usable.wired;
    write_char-Quiet = write_char-Quiet config;
    gotoxy-Quiet = gotoxy-Quiet config;
    write_string-Quiet = write_string-Quiet config;
    write_integer-Quiet = write_integer-Quiet config buffer;
  }
