-- ===== src/Hd44780/Cursor.antt =====
-- `HD44780_gotoxy`: where the cursor goes.
use Prim.Native.Nat.{bit_or, min, max}
use native.Mathlib.Decide.{ℕ_discrete}
use quark_meteo_station.Base.{
  ℕ, ◌+◌, ◌-◌, ◌≤◌, ◌<◌, ◌≡◌, ◌≢◌, ◌⊎◌, refl, arith, Bool, true, false, ◌&&◌, ◌||◌, ◌==◌, List, ◌∷◌,
  get_or, ltb, leb,
}
use quark_meteo_station.Base.Bits.{all_below, all_below_sound, eq_below}
use quark_meteo_station.Board.{Board}
use quark_meteo_station.Hd44780.{
  TypeData, type_data, display_types_num, Config, clamp_row, clamp_column, required_address, gotoxy,
  checked, set_ddram_addr_cmd,
}
use quark_meteo_station.Hd44780.Bus.{Msg, IsWired, Shows, write_cmd-Shows}

-- `HD44780_init` leaves a display type of the table in the configuration.
pub checked-lt : (config : Config) → (checked config).type < display_types_num
unfolding checked
checked-lt config = ground arith

abbrev first_addr : ℕ → ℕ → ℕ
first_addr t r = get_or (type_data t).rows_first_addr r 0

-- The rows of each display lie within the 128 addresses of the display memory, and apart.
inside : ℕ → ℕ → Bool
inside t r = leb (type_data t).rows r || leb (first_addr t r + (type_data t).columns) 128

apart : ℕ → ℕ → ℕ → Bool
apart t r q =
    leb (type_data t).rows r
    || leb (type_data t).rows q
    || r == q
    || leb (first_addr t r + (type_data t).columns) (first_addr t q)
    || leb (first_addr t q + (type_data t).columns) (first_addr t r)

small : ℕ → Bool
small t = ltb 0 (type_data t).rows && leb (type_data t).rows 4 && ltb 0 (type_data t).columns

small_table : all_below 7 small ≡ true
unfolding all_below small
small_table = refl

inside_table : all_below 7 (λ t. all_below 4 (inside t)) ≡ true
unfolding all_below inside
inside_table = refl

apart_table : all_below 7 (λ t. all_below 4 (λ r. all_below 4 (apart t r))) ≡ true
unfolding all_below apart
apart_table = refl

module _ (t : ℕ) (known : t < display_types_num) where
  abbrev rows : ℕ
  rows = (type_data t).rows

  abbrev columns : ℕ
  columns = (type_data t).columns

  size : (0 < rows) × (rows ≤ 4) × (0 < columns)
  unfolding small
  size = ground (arith, all_below_sound 7 small t small_table known)

  row_inside : (r : ℕ) → r < rows → first_addr t r + columns ≤ 128
  unfolding inside
  row_inside r h =
      let four : r < 4 = omega (arith, size) in
      ground (
        arith,
        all_below_sound 4 (inside t) r
            (all_below_sound 7 (λ t. all_below 4 (inside t)) t inside_table known) four,
      )

  rows_apart :
      (r q : ℕ)
      → r < rows
      → q < rows
      → r ≢ q
      → (first_addr t r + columns ≤ first_addr t q) ⊎ (first_addr t q + columns ≤ first_addr t r)
  unfolding apart
  rows_apart r q h k ne =
      let four : r < 4 = omega (arith, size) in
      let four' : q < 4 = omega (arith, size) in
      ground (
        arith,
        all_below_sound 4 (apart t r) q
            (all_below_sound 4 (λ r. all_below 4 (apart t r)) r
              (all_below_sound 7 (λ t. all_below 4 (λ r. all_below 4 (apart t r))) t apart_table
                known)
              four)
            four',
      )

-- The row and the column that a request is clamped to.
abbrev pub nearest : ℕ → ℕ → ℕ
nearest limit x = max 1 (min limit x)

or_command : (a : ℕ) → a < 128 → bit_or set_ddram_addr_cmd a ≡ 128 + a
unfolding all_below
or_command = eq_below 128 (bit_or set_ddram_addr_cmd) (λ a. 128 + a) refl

module _ (config : Config) (known : config.type < display_types_num) where
  abbrev display : TypeData
  display = type_data config.type

  clamped :
      (x y : ℕ)
      → (clamp_row config x ≡ nearest display.rows x)
        × (clamp_column config y ≡ nearest display.columns y)
  unfolding clamp_row clamp_column
  clamped x y = ground (arith, size config.type known)

  -- `HD44780_gotoxy` sends one command, "set the display address", to the address of the requested
  -- row and column; a row or column below 1 or past the display's counts as the first or the last.
  pub gotoxy-Shows :
      (wired : IsWired config) (x y : ℕ) (b : Board) {ms : List Msg}
      → Shows config b ms
      → Shows config (gotoxy config x y b) (
          (
            false,
            128
                + (get_or display.rows_first_addr (nearest display.rows x - 1) 0
                    + (nearest display.columns y - 1)),
          )
          ∷ ms)
  unfolding gotoxy required_address
  gotoxy-Shows wired x y b s =
      let row = nearest display.rows x - 1 in
      let in_row : row < display.rows = omega (arith, size config.type known) in
      let in_column : nearest display.columns y ≤ display.columns =
        omega (arith, size config.type known) in
      let address = get_or display.rows_first_addr row 0 + (nearest display.columns y - 1) in
      let fits : address < 128 = omega (arith, row_inside config.type known row in_row) in
      let same : required_address config x y ≡ address = ground (arith, clamped x y, fits) in
      rw (same, or_command address fits)
        (write_cmd-Shows config wired (128 + address) b (omega arith) s)

  -- Two different positions of the display have different addresses, so what is written at one
  -- does not overwrite the other.
  pub required_address_injective :
      (x y x' y' : ℕ)
      → (1 ≤ x) × (x ≤ display.rows) × (1 ≤ y) × (y ≤ display.columns)
      → (1 ≤ x') × (x' ≤ display.rows) × (1 ≤ y') × (y' ≤ display.columns)
      → required_address config x y ≡ required_address config x' y'
      → (x ≡ x') × (y ≡ y')
  unfolding required_address
  required_address_injective x y x' y' on on' e = elim (ℕ_discrete x x') [
    | yes p ↦ (
      p,
      ground (
        arith,
        p,
        clamped x y,
        clamped x' y',
        row_inside config.type known (x - 1),
        row_inside config.type known (x' - 1),
      ),
    )
    | no ne ↦ absurd (
        ground (
          arith,
          clamped x y,
          clamped x' y',
          row_inside config.type known (x - 1),
          row_inside config.type known (x' - 1),
          rows_apart config.type known (x - 1) (x' - 1),
        ))
  ]
