-- ===== src/Hd44780/Bus.antt =====
-- The display's side of its bus, as its controller sees the pins, and that the driver's bytes
-- arrive there.
use quark_meteo_station.Base.{
  ℕ, ◌+◌, ◌*◌, ◌/◌, ◌%◌, ◌<◌, ◌≡◌, ◌≢◌, refl, arith, Bool, true, false, not, ◌&&◌, List, [], ◌∷◌,
  Option, none, some, ◌==◌, if◌then◌else◌, All, ◌∙◌,
}
use quark_meteo_station.Base.Bits.{all_below, eq_below}
use quark_meteo_station.Board.{Board, Call, udelay, gpio_set_pin_state, sys_udelay}
use quark_meteo_station.Hd44780.{
  Config, Mode, instruction, character, is_character, level_of, write_byte, write_cmd, write_char,
  write_string,
}

-- What the controller takes: whether the register select line was high, and a byte.
abbrev pub Msg : Type 0
Msg = Bool × ℕ

-- The characters of a text, taken after the messages (newest first).
abbrev pub said : List ℕ → List Msg → List Msg
said [] ms = ms
said (c ∷ s) ms = said s ((true, c) ∷ ms)

-- The controller in 4-bit mode: the upper half of a byte under way, and the bytes, newest first.
pub record Lcd : Type 0 where
  pub half : Option ℕ
  pub msgs : List Msg

abbrev digit : Bool → ℕ
digit true = 1
digit false = 0

-- A half byte arrives.
unfoldable pub latch : Msg → Lcd → Lcd
latch (rs, n) s = elim s.half [
  | none ↦ record s { half = some n }
  | some high ↦ record { half = none; msgs = (rs, high * 16 + n) ∷ s.msgs }
]

-- The level that the driver last gave a pin.
unfoldable pub level : ℕ → List Call → Bool
level pin [] = false
level pin (gpio_set_pin_state p high ∷ older) = if p == pin then high else level pin older
level pin (c ∷ older) = level pin older

module _ (config : Config) where
  open config use {rs, e, d4, d5, d6, d7}

  -- The four data lines.
  unfoldable pub nibble : List Call → ℕ
  unfolding level
  nibble l =
      digit (level d7 l) * 8 + digit (level d6 l) * 4 + digit (level d5 l) * 2 + digit (level d4 l)

  -- At a falling edge of the enable line the controller takes the data lines.
  unfoldable pub receive : List Call → Lcd
  unfolding latch nibble
  receive [] = record { half = none; msgs = [] }
  receive (gpio_set_pin_state p high ∷ older) =
      let before = receive older in
      if (p == e) && not high && level e older
      then latch (level rs older, nibble older) before
      else before
  receive (c ∷ older) = receive older

-- The six pins are different.
pub record IsWired (config : Config) : Type 0 where
  pub rs-e : config.rs ≢ config.e
  pub d7-e : config.d7 ≢ config.e
  pub d6-e : config.d6 ≢ config.e
  pub d5-e : config.d5 ≢ config.e
  pub d4-e : config.d4 ≢ config.e
  pub rs-d7 : config.rs ≢ config.d7
  pub rs-d6 : config.rs ≢ config.d6
  pub rs-d5 : config.rs ≢ config.d5
  pub rs-d4 : config.rs ≢ config.d4
  pub d7-d6 : config.d7 ≢ config.d6
  pub d7-d5 : config.d7 ≢ config.d5
  pub d7-d4 : config.d7 ≢ config.d4
  pub d6-d5 : config.d6 ≢ config.d5
  pub d6-d4 : config.d6 ≢ config.d4
  pub d5-d4 : config.d5 ≢ config.d4

-- The controller waits for a byte, and has taken these.
pub record Shows (config : Config) (b : Board) (ms : List Msg) : Type 0 where
  pub ready : (receive config b.log).half ≡ none
  pub shown : (receive config b.log).msgs ≡ ms

abbrev four : Bool → Bool → Bool → Bool → ℕ
four p q r s = digit p * 8 + digit q * 4 + digit r * 2 + digit s

high_half :
    (byte : ℕ)
    → byte < 256
    → four (level_of byte 7) (level_of byte 6) (level_of byte 5) (level_of byte 4) ≡ byte / 16
unfolding all_below level_of
high_half =
    eq_below 256
      (λ byte. four (level_of byte 7) (level_of byte 6) (level_of byte 5) (level_of byte 4))
      (λ byte. byte / 16) refl

low_half :
    (byte : ℕ)
    → byte < 256
    → four (level_of byte 3) (level_of byte 2) (level_of byte 1) (level_of byte 0) ≡ byte % 16
unfolding all_below level_of
low_half =
    eq_below 256
      (λ byte. four (level_of byte 3) (level_of byte 2) (level_of byte 1) (level_of byte 0))
      (λ byte. byte % 16) refl

differ : (a b : ℕ) → a ≢ b → ((a == b) ≡ false) × ((b == a) ≡ false)
differ a b h = ground arith

same : (a : ℕ) → (a == a) ≡ true
same a = ground arith

module _ (config : Config) (wired : IsWired config) where
  open config use {rs, e, d4, d5, d6, d7}

  -- The calls of one half byte: the data lines, and a pulse on the enable line.
  abbrev half_calls : Bool → Bool → Bool → Bool → List Call → List Call
  half_calls p q r s l =
      gpio_set_pin_state e false
      ∷ sys_udelay 1
      ∷ gpio_set_pin_state e true
      ∷ gpio_set_pin_state d4 s
      ∷ gpio_set_pin_state d5 r
      ∷ gpio_set_pin_state d6 q
      ∷ gpio_set_pin_state d7 p
      ∷ l

  half_level : (p q r s : Bool) (l : List Call) → level rs (half_calls p q r s l) ≡ level rs l
  unfolding level
  half_level p q r s l = simp (
    (differ rs e wired.rs-e).1,
    (differ rs d4 wired.rs-d4).1,
    (differ rs d5 wired.rs-d5).1,
    (differ rs d6 wired.rs-d6).1,
    (differ rs d7 wired.rs-d7).1,
  )

  half_receive :
      (p q r s : Bool) (l : List Call)
      → receive config (half_calls p q r s l) ≡ latch (level rs l, four p q r s) (receive config l)
  unfolding receive
  half_receive p q r s l = simp (
    same e,
    same d4,
    same d5,
    same d6,
    same d7,
    (differ rs e wired.rs-e).1,
    (differ rs d4 wired.rs-d4).1,
    (differ rs d5 wired.rs-d5).1,
    (differ rs d6 wired.rs-d6).1,
    (differ rs d7 wired.rs-d7).1,
    (differ d7 e wired.d7-e).0,
    (differ d7 e wired.d7-e).1,
    (differ d6 e wired.d6-e).0,
    (differ d6 e wired.d6-e).1,
    (differ d5 e wired.d5-e).0,
    (differ d5 e wired.d5-e).1,
    (differ d4 e wired.d4-e).0,
    (differ d4 e wired.d4-e).1,
    (differ d7 d6 wired.d7-d6).1,
    (differ d7 d5 wired.d7-d5).1,
    (differ d7 d4 wired.d7-d4).1,
    (differ d6 d5 wired.d6-d5).1,
    (differ d6 d4 wired.d6-d4).1,
    (differ d5 d4 wired.d5-d4).1,
  )

  write_byte-receive :
      (byte : ℕ) (mode : Mode) (b : Board)
      → byte < 256
      → receive config (write_byte config byte mode b).log
        ≡ latch
            (is_character mode, byte % 16)
            (latch (is_character mode, byte / 16) (receive config b.log))
  unfolding write_byte
  write_byte-receive byte mode b h =
      let first = gpio_set_pin_state rs (is_character mode) ∷ b.log in
      let upper =
        half_calls (level_of byte 7) (level_of byte 6) (level_of byte 5) (level_of byte 4) first in
      let at_rs : level rs first ≡ is_character mode = unfold level in ground (arith, same rs) in
      let before : receive config first ≡ receive config b.log =
        unfold receive in ground (arith, differ rs e wired.rs-e) in
      half_receive (level_of byte 3) (level_of byte 2) (level_of byte 1) (level_of byte 0) upper
      ∙ ground (
        arith,
        half_level (level_of byte 7) (level_of byte 6) (level_of byte 5) (level_of byte 4) first,
        half_receive (level_of byte 7) (level_of byte 6) (level_of byte 5) (level_of byte 4) first,
        at_rs,
        before,
        high_half byte h,
        low_half byte h,
      )

  -- `HD44780_write_byte`: a controller that waits for a byte takes exactly this one, in the register
  -- that the mode selects, and waits again.
  pub write_byte-Shows :
      (byte : ℕ) (mode : Mode) (b : Board) {ms : List Msg}
      → byte < 256
      → Shows config b ms
      → Shows config (write_byte config byte mode b) ((is_character mode, byte) ∷ ms)
  unfolding latch
  write_byte-Shows byte mode b h s = ground (arith, write_byte-receive byte mode b h, s)

  pub udelay-Shows :
      (us : ℕ) (b : Board) {ms : List Msg} → Shows config b ms → Shows config (udelay us b) ms
  unfolding udelay receive
  udelay-Shows us b s = record { ready = s.ready; shown = s.shown }

  pub write_cmd-Shows :
      (cmd : ℕ) (b : Board) {ms : List Msg}
      → cmd < 256
      → Shows config b ms
      → Shows config (write_cmd config cmd b) ((false, cmd) ∷ ms)
  unfolding write_cmd
  write_cmd-Shows cmd b h s = write_byte-Shows cmd instruction b h s

  pub write_char-Shows :
      (c : ℕ) (b : Board) {ms : List Msg}
      → c < 256
      → Shows config b ms
      → Shows config (write_char config c b) ((true, c) ∷ ms)
  unfolding write_char
  write_char-Shows c b h s = write_byte-Shows c character b h s

  -- On six different pins, a controller that waits for a byte takes exactly the characters of a string
  -- that is written, one after the other, and waits for a byte again.
  pub write_string-Shows :
      (s : List ℕ) (b : Board) {ms : List Msg}
      → All (λ c. c < 256) s
      → Shows config b ms
      → Shows config (write_string config s b) (said s ms)
  unfolding write_string
  write_string-Shows [] b h shows = shows
  write_string-Shows (c ∷ s) b h shows =
      write_string-Shows s (write_char config c b) h.1 (write_char-Shows c b h.0 shows)
