-- ===== src/Hd44780/Memory.antt =====
-- The display memory of the controller, as its data sheet has it for two lines: what the messages that
-- it takes write into the cells, what is read there, and whether the picture stands still.
use quark_meteo_station.Base.{
  ℕ, zero, suc, ◌+◌, ◌-◌, ◌≤◌, ◌<◌, ◌≡◌, ◌⊎◌, inl, inr, refl, ap, ◌∙◌, arith, Bool, true, false,
  List, [], ◌∷◌, length, leb, ◌==◌, ◌%◌, Bool-cases, if◌then◌else◌,
}
use quark_meteo_station.Hd44780.Bus.{Msg, said}

-- The address that the next character goes to, whether it goes to the glyphs instead, and the cells:
-- those of the first line from 0 on, those of the second from 64 on, 40 each. The entry mode: whether
-- the cursor moves to the right behind a character, and whether the picture moves with it. `at_home`
-- says that the picture has not been moved, so that the first column shows the cells 0 and 64.
pub record Memory : Type 0 where
  pub cursor : ℕ
  pub in_glyphs : Bool
  pub increments : Bool
  pub shifts : Bool
  pub at_home : Bool
  pub cell : ℕ → ℕ

abbrev pub put : ℕ → ℕ → (ℕ → ℕ) → ℕ → ℕ
put a c cell k = if k == a then c else cell k

abbrev next_address : ℕ → ℕ
next_address a = if a == 39 then 64 else if a == 103 then 0 else a + 1

abbrev previous_address : ℕ → ℕ
previous_address a = if a == 64 then 39 else if a == 0 then 103 else a - 1

abbrev moved : Bool → ℕ → ℕ
moved right a = if right then next_address a else previous_address a

-- A command: a display address, a glyph address, the number of lines, a move of the picture or of the
-- cursor, "on" and "off", the entry mode, "home" and "clear". That "clear" also sets the entry mode to
-- the right, on the controller of the data sheet, is not relied on.
abbrev command : ℕ → Memory → Memory
command n m =
    if leb 128 n
    then record m { cursor = n - 128; in_glyphs = false }
    else if leb 64 n
    then record m { in_glyphs = true }
    else if leb 32 n
    then m
    else if leb 24 n
    then record m { at_home = false }
    else if leb 16 n
    then record m { cursor = moved (leb 20 n) m.cursor }
    else if leb 8 n
    then m
    else if leb 4 n
    then record m { increments = leb 6 n; shifts = n % 2 == 1 }
    else if leb 2 n
    then record m { cursor = 0; in_glyphs = false; at_home = true }
    else if n == 1
    then record m { cursor = 0; in_glyphs = false; at_home = true; cell = λ k. b' ' }
    else m

abbrev take_msg : Msg → Memory → Memory
take_msg (true, c) m = if m.in_glyphs then m else record m {
  cursor = moved m.increments m.cursor;
  at_home = if m.shifts then false else m.at_home;
  cell = put m.cursor c m.cell;
}
take_msg (false, n) m = command n m

-- After these messages, the newest first.
abbrev pub memory : Memory → List Msg → Memory
memory m [] = m
memory m (x ∷ ms) = take_msg x (memory m ms)

-- A text typed from an address on, and as many cells read from there.
abbrev pub typed : List ℕ → ℕ → (ℕ → ℕ) → ℕ → ℕ
typed [] a cell = cell
typed (c ∷ s) a cell = typed s (a + 1) (put a c cell)

abbrev pub read : ℕ → ℕ → (ℕ → ℕ) → List ℕ
read a zero cell = []
read a (suc n) cell = cell a ∷ read (a + 1) n cell

-- A place for so many characters that ends before the end of its line.
abbrev pub IsLine : ℕ → ℕ → Type 0
IsLine a n = (a + n ≤ 39) ⊎ ((64 ≤ a) × (a + n ≤ 103))

IsLine-tail : (a n : ℕ) → IsLine a (suc n) → IsLine (a + 1) n
IsLine-tail a n (inl h) = inl (omega arith)
IsLine-tail a n (inr h) = inr (omega arith, omega arith)

next_address-lt : (a n : ℕ) → IsLine a (suc n) → next_address a ≡ a + 1
next_address-lt a n (inl h) = ground arith
next_address-lt a n (inr h) = ground arith

-- A display whose cursor moves to the right and whose picture stands still and where it belongs.
abbrev pub IsForward : Memory → Type 0
IsForward m = (m.increments ≡ true) × (m.shifts ≡ false) × (m.at_home ≡ true)

-- So whatever the display held before these messages.
abbrev pub Forward : List Msg → Type 0
Forward ms = (start : Memory) → IsForward (memory start ms)

-- Characters keep that.
pub said-IsForward :
    (m : Memory) (s : List ℕ) (ms : List Msg)
    → IsForward (memory m ms)
    → IsForward (memory m (said s ms))
said-IsForward m [] ms h = h
said-IsForward m (c ∷ s) ms h =
    said-IsForward m s ((true, c) ∷ ms) (elim (Bool-cases (memory m ms).in_glyphs) [
      | inl glyphs ↦ rw glyphs h
      | inr cells ↦ rw cells (h.0, h.1, rw h.1 h.2)
    ])

abbrev pub at : Memory → ℕ → (ℕ → ℕ) → Memory
at k a cell = record k { cursor = a; in_glyphs = false; cell = cell }

-- A text that fits its line is typed where the cursor stands.
pub memory-said :
    (m k : Memory) (s : List ℕ) (a : ℕ) (cell : ℕ → ℕ) (ms : List Msg)
    → IsForward k
    → IsLine a (length s)
    → memory m ms ≡ at k a cell
    → memory m (said s ms) ≡ at k (a + length s) (typed s a cell)
memory-said m k [] a cell ms forward h e = e ∙ ap (λ n. at k n cell) (omega arith)
memory-said m k (c ∷ s) a cell ms forward h e =
    let next : take_msg (true, c) (at k a cell) ≡ at k (a + 1) (put a c cell) =
      rw (forward.0, forward.1)
        (ap (λ n. record (at k n (put a c cell)) { increments = true; shifts = false })
          (next_address-lt a (length s) h)) in
    memory-said m k s (a + 1) (put a c cell) ((true, c) ∷ ms) forward (IsLine-tail a (length s) h)
      (ap (take_msg (true, c)) e ∙ next)
    ∙ ap (λ n. at k n (typed s (a + 1) (put a c cell))) (omega arith)

-- Another place.
abbrev pub IsApart : ℕ → ℕ → ℕ → ℕ → Type 0
IsApart a n b k = (a + n ≤ b) ⊎ (b + k ≤ a)

typed-before : (s : List ℕ) (a k : ℕ) (cell : ℕ → ℕ) → k < a → typed s a cell k ≡ cell k
typed-before [] a k cell h = refl
typed-before (c ∷ s) a k cell h =
    typed-before s (a + 1) k (put a c cell) (omega arith) ∙ ground arith

pub typed-behind :
    (s : List ℕ) (a k : ℕ) (cell : ℕ → ℕ) → a + length s ≤ k → typed s a cell k ≡ cell k
typed-behind [] a k cell h = refl
typed-behind (c ∷ s) a k cell h =
    typed-behind s (a + 1) k (put a c cell) (omega arith) ∙ ground arith

pub read-typed_apart :
    (a n b : ℕ) (s : List ℕ) (cell : ℕ → ℕ)
    → IsApart a n b (length s)
    → read a n (typed s b cell) ≡ read a n cell
read-typed_apart a zero b s cell h = refl
read-typed_apart a (suc n) b s cell (inl h) =
    ap (λ c. c ∷ read (a + 1) n (typed s b cell)) (typed-before s b a cell (omega arith))
    ∙ ap (λ l. cell a ∷ l) (read-typed_apart (a + 1) n b s cell (inl (omega arith)))
read-typed_apart a (suc n) b s cell (inr h) =
    ap (λ c. c ∷ read (a + 1) n (typed s b cell)) (typed-behind s b a cell (omega arith))
    ∙ ap (λ l. cell a ∷ l) (read-typed_apart (a + 1) n b s cell (inr (omega arith)))

-- What was typed is read.
pub read-typed : (a : ℕ) (s : List ℕ) (cell : ℕ → ℕ) → read a (length s) (typed s a cell) ≡ s
read-typed a [] cell = refl
read-typed a (c ∷ s) cell =
    let first : typed s (a + 1) (put a c cell) a ≡ c =
      typed-before s (a + 1) a (put a c cell) (omega arith) ∙ ground arith in
    ap (λ x. x ∷ read (a + 1) (length s) (typed s (a + 1) (put a c cell))) first
    ∙ ap (λ l. c ∷ l) (read-typed (a + 1) s (put a c cell))
