-- ===== src/Hd44780/Glyph.antt =====
-- `HD44780_load_custom_glyph(s)` and `HD44780_init`: the messages that the display gets.
use Prim.Native.Nat.{bit_or, min}
use quark_meteo_station.Base.{
  ℕ, zero, suc, ◌+◌, ◌*◌, ◌≤◌, ◌<◌, ◌≡◌, refl, arith, false, List, [], ◌∷◌, length, take, drop, All,
  length-drop, All-drop, get_or, some, ltb, if◌then◌else◌, ◌==◌,
}
use quark_meteo_station.Base.Bits.{all_below, eq_below}
use quark_meteo_station.Base.Word.{u8}
use quark_meteo_station.Board.{Board}
use quark_meteo_station.Hd44780.{
  Config, type_data, write_char, write_cmd, write_glyph, load_custom_glyph, load_glyphs_from,
  load_custom_glyphs, set_cgram_addr_cmd, function_set_cmd, display_on_off_cmd, entry_mode_set_cmd,
  set_ddram_addr_cmd, two_lines, clear, checked, init,
}
use quark_meteo_station.Hd44780.Bus.{
  Msg, said, IsWired, Shows, write_char-Shows, write_cmd-Shows, udelay-Shows,
}

glyph_command : (a : ℕ) → a < 8 → bit_or set_cgram_addr_cmd (u8 (a * 8)) ≡ 64 + a * 8
unfolding all_below
glyph_command = eq_below 8 (λ a. bit_or set_cgram_addr_cmd (u8 (a * 8))) (λ a. 64 + a * 8) refl

module _ (config : Config) (wired : IsWired config) where
  write_glyph-Shows :
      (left : ℕ) (glyph : List ℕ) (b : Board) {ms : List Msg}
      → left ≤ length glyph
      → All (λ row. row < 256) glyph
      → Shows config b ms
      → (b' : Board) × (write_glyph config left glyph b ≡ some b')
        × Shows config b' (said (take left glyph) ms)
  unfolding write_glyph
  write_glyph-Shows zero glyph b h bytes s = (b, refl, s)
  write_glyph-Shows (suc left) [] b h bytes s = absurd (omega arith)
  write_glyph-Shows (suc left) (row ∷ glyph) b h bytes s =
      write_glyph-Shows left glyph (write_char config row b) (omega arith) bytes.1
        (write_char-Shows config wired row b bytes.0 s)

  -- `HD44780_load_custom_glyph` sends the address of the glyph's place, the last one for an address
  -- that is out of range, and the glyph's first eight rows.
  pub load_custom_glyph-Shows :
      (glyph : List ℕ) (addr : ℕ) (b : Board) {ms : List Msg}
      → 8 ≤ length glyph
      → All (λ row. row < 256) glyph
      → Shows config b ms
      → (b' : Board) × (load_custom_glyph config glyph addr b ≡ some b')
        × Shows config b' (said (take 8 glyph) ((false, 64 + min addr 7 * 8) ∷ ms))
  unfolding load_custom_glyph
  load_custom_glyph-Shows glyph addr b h bytes s =
      let a = (if ltb 7 addr then 7 else addr) in
      let clamped : a ≡ min addr 7 = ground arith in
      rw (clamped, glyph_command (min addr 7) (omega arith))
        (write_glyph-Shows 8 glyph (write_cmd config (64 + min addr 7 * 8) b) h bytes
          (write_cmd-Shows config wired (64 + min addr 7 * 8) b (omega arith) s))

-- The messages of so many glyphs from the one numbered `i` on: the address of each and its rows.
abbrev pub glyph_msgs : ℕ → ℕ → List ℕ → List Msg → List Msg
glyph_msgs zero i glyphs ms = ms
glyph_msgs (suc left) i glyphs ms =
    glyph_msgs left (i + 1) glyphs (said (take 8 (drop (i * 8) glyphs)) ((false, 64 + i * 8) ∷ ms))

module _ (config : Config) (wired : IsWired config) where
  load_glyphs_from-Shows :
      (left i : ℕ) (glyphs : List ℕ) (b : Board) {ms : List Msg}
      → i + left ≤ 8
      → 64 ≤ length glyphs
      → All (λ row. row < 256) glyphs
      → Shows config b ms
      → (b' : Board) × (load_glyphs_from config left i glyphs b ≡ some b')
        × Shows config b' (glyph_msgs left i glyphs ms)
  unfolding load_glyphs_from
  load_glyphs_from-Shows zero i glyphs b h long bytes s = (b, refl, s)
  load_glyphs_from-Shows (suc left) i glyphs b {ms} h long bytes s =
      let glyph = drop (i * 8) glyphs in
      let (b₁, e₁, s₁) =
        load_custom_glyph-Shows config wired glyph i b (omega (arith, length-drop (i * 8) glyphs))
          (All-drop (λ row. row < 256) (i * 8) glyphs bytes) s in
      let place : min i 7 ≡ i = omega arith in
      let s₂ : Shows config b₁ (said (take 8 glyph) ((false, 64 + i * 8) ∷ ms)) = rw place at s₁ in
      let (b₂, e₂, s₃) =
        load_glyphs_from-Shows left (i + 1) glyphs b₁ (omega arith) long bytes s₂ in
      (b₂, rw (load_glyphs_from, e₁) e₂, s₃)

  -- `HD44780_load_custom_glyphs` with at least 64 bytes sends each of the eight glyphs, its address and
  -- its eight rows, in order.
  pub load_custom_glyphs-Shows :
      (glyphs : List ℕ) (b : Board) {ms : List Msg}
      → 64 ≤ length glyphs
      → All (λ row. row < 256) glyphs
      → Shows config b ms
      → (b' : Board) × (load_custom_glyphs config glyphs b ≡ some b')
        × Shows config b' (glyph_msgs 8 0 glyphs ms)
  unfolding load_custom_glyphs
  load_custom_glyphs-Shows glyphs b long bytes s =
      load_glyphs_from-Shows 8 0 glyphs b (omega arith) long bytes s

-- The flag bits of the two configuration commands.
on_off_command : (f : ℕ) → f < 8 → u8 (bit_or display_on_off_cmd f) ≡ 8 + f
unfolding all_below
on_off_command = eq_below 8 (λ f. u8 (bit_or display_on_off_cmd f)) (λ f. 8 + f) refl

entry_command : (f : ℕ) → f < 4 → u8 (bit_or entry_mode_set_cmd f) ≡ 4 + f
unfolding all_below
entry_command = eq_below 4 (λ f. u8 (bit_or entry_mode_set_cmd f)) (λ f. 4 + f) refl

lines_command :
    (t : ℕ)
    → t < 7
    → bit_or function_set_cmd (if (type_data t).rows == 1 then 0 else two_lines)
      ≡ (if (type_data t).rows == 1 then 32 else 40)
unfolding all_below
lines_command =
    eq_below 7 (λ t. bit_or function_set_cmd (if (type_data t).rows == 1 then 0 else two_lines))
      (λ t. if (type_data t).rows == 1 then 32 else 40) refl

pub home_command :
    (t : ℕ) → t < 7 → bit_or set_ddram_addr_cmd (get_or (type_data t).rows_first_addr 0 0) ≡ 128
unfolding all_below
home_command =
    eq_below 7 (λ t. bit_or set_ddram_addr_cmd (get_or (type_data t).rows_first_addr 0 0))
      (λ t. 128) refl

-- `HD44780_init` with a known display type sends these commands: three times the
-- wake-up, the 4-bit mode, the number of lines, the display and the entry mode with their flags,
-- and a clear display with the address at the start.
pub init-Shows :
    (config : Config) (b : Board) {ms : List Msg}
    → IsWired config
    → config.type < 7
    → config.on_off_flags < 8
    → config.entry_mode_flags < 4
    → Shows config b ms
    → ((init config b).0 ≡ config)
      × Shows config (init config b).1 (
          (false, 128)
          ∷ (false, 1)
          ∷ (false, 4 + config.entry_mode_flags)
          ∷ (false, 8 + config.on_off_flags)
          ∷ (false, if (type_data config.type).rows == 1 then 32 else 40)
          ∷ (false, 2)
          ∷ (false, 48)
          ∷ (false, 48)
          ∷ (false, 48)
          ∷ ms)
unfolding init clear
init-Shows config b wired known on_off entry s =
    let kept : checked config ≡ config = unfold checked in ground arith in
    let lines : ℕ = (if (type_data config.type).rows == 1 then 32 else 40) in
    let lines_small : lines < 256 = ground arith in
    let s₁ = udelay-Shows config wired 5000 _ (write_cmd-Shows config wired 48 b (omega arith) s) in
    let s₂ =
      udelay-Shows config wired 1000 _ (write_cmd-Shows config wired 48 _ (omega arith) s₁) in
    let s₃ =
      udelay-Shows config wired 1000 _ (write_cmd-Shows config wired 48 _ (omega arith) s₂) in
    let s₄ = write_cmd-Shows config wired 2 _ (omega arith) s₃ in
    let s₅ = write_cmd-Shows config wired lines _ lines_small s₄ in
    let s₆ = write_cmd-Shows config wired (8 + config.on_off_flags) _ (omega arith) s₅ in
    let s₇ = write_cmd-Shows config wired (4 + config.entry_mode_flags) _ (omega arith) s₆ in
    let s₈ = udelay-Shows config wired 1000 _ (write_cmd-Shows config wired 1 _ (omega arith) s₇) in
    let s₉ =
      udelay-Shows config wired 1000 _ (write_cmd-Shows config wired 128 _ (omega arith) s₈) in
    (
      kept,
      rw
          (
            kept,
            lines_command config.type known,
            on_off_command config.on_off_flags on_off,
            entry_command config.entry_mode_flags entry,
            home_command config.type known,
          )
          s₉,
    )
