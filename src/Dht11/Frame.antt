-- ===== src/Dht11/Frame.antt =====
-- The frame of 40 bits: the levels that were sampled, and the fields that they end up in.
use Prim.Native.Nat.{bit_or}
use quark_meteo_station.Base.{
  ℕ, zero, suc, ◌+◌, ◌*◌, ◌%◌, ◌^◌, ◌≤◌, ◌<◌, ◌≡◌, refl, sym, ap, ◌∙◌, arith, Bool, true, false,
  List, [], ◌∷◌, ◌++◌, length, take, drop, take-append-drop, length-take, length-drop, drop-drop,
  length_zero, if◌then◌else◌,
}
use quark_meteo_station.Base.Bits.Fields.{bit_or_fields}
use quark_meteo_station.Board.{Board, Env}
use quark_meteo_station.Dht11.{fields, sample_bit, retrieve}

abbrev pub digit : Bool → ℕ
digit true = 1
digit false = 0

-- The number that a list of levels spells, the highest bit first.
abbrev pub worth_from : ℕ → List Bool → ℕ
worth_from n [] = n
worth_from n (x ∷ xs) = worth_from (n * 2 + digit x) xs

-- Byte `k` of a list of levels.
abbrev pub byte : ℕ → List Bool → ℕ
byte k xs = worth_from 0 (take 8 (drop (8 * k) xs))

-- What the levels are shifted into.
abbrev pub push : ℕ → List Bool → ℕ
push raw [] = raw
push raw (x ∷ xs) = push (raw * 2 % 2 ^ 64 + digit x) xs

module _ (env : Env) (pin : ℕ) where
  -- The levels that the loop samples, with so many rounds left.
  unfoldable pub levels : ℕ → Board → List Bool
  levels zero b = []
  levels (suc left) b = let (x, b') = sample_bit env pin b in x ∷ levels left b'

  pub length-levels : (left : ℕ) (b : Board) → length (levels left b) ≡ left
  unfolding levels
  length-levels zero b = refl
  length-levels (suc left) b = ap suc (length-levels left (sample_bit env pin b).1)

  -- `raw_data |= 0x01` behind the shift adds the bit.
  low_bit : (raw : ℕ) → bit_or (raw * 2 % 2 ^ 64) 1 ≡ raw * 2 % 2 ^ 64 + 1
  low_bit raw =
      let even : raw * 2 % 2 ^ 64 ≡ raw % 2 ^ 63 * 2 ^ 1 = omega arith in
      rw even (bit_or_fields 1 (raw % 2 ^ 63) 1 (omega arith))

  pub retrieve-push :
      (left raw : ℕ) (b : Board) → (retrieve env pin left raw b).0 ≡ push raw (levels left b)
  unfolding retrieve levels
  retrieve-push zero raw b = refl
  retrieve-push (suc left) raw b =
      let (x, b') = sample_bit env pin b in
      let shifted = raw * 2 % 2 ^ 64 in
      let raw' = (if x then bit_or shifted 1 else shifted) in
      let added : raw' ≡ shifted + digit x = ground (arith, low_bit raw) in
      retrieve-push left raw' b' ∙ ap (λ r. push r (levels left b')) added

push-append : (raw : ℕ) (xs ys : List Bool) → push raw (xs ++ ys) ≡ push (push raw xs) ys
push-append raw [] ys = refl
push-append raw (x ∷ xs) ys = push-append (raw * 2 % 2 ^ 64 + digit x) xs ys

digit-le_one : (x : Bool) → digit x ≤ 1
digit-le_one true = omega arith
digit-le_one false = omega arith

-- A byte moves the word up by eight bits.
push_byte :
    (raw : ℕ) (xs : List Bool)
    → length xs ≡ 8
    → (push raw xs ≡ raw * 256 % 2 ^ 64 + worth_from 0 xs) × (worth_from 0 xs < 256)
push_byte raw (a ∷ b ∷ c ∷ d ∷ e ∷ f ∷ g ∷ h ∷ []) l = omega (
  arith,
  digit-le_one a,
  digit-le_one b,
  digit-le_one c,
  digit-le_one d,
  digit-le_one e,
  digit-le_one f,
  digit-le_one g,
  digit-le_one h,
)
push_byte raw xs l = absurd (omega arith)

abbrev rest : ℕ → List Bool → List Bool
rest k xs = drop (8 * k) xs

-- Where 8 bits are left, they are shifted in and the word is cut behind them.
push-rest :
    (raw k : ℕ) (xs : List Bool)
    → 8 * k + 8 ≤ length xs
    → (push raw (rest k xs) ≡ push (raw * 256 % 2 ^ 64 + byte k xs) (drop 8 (rest k xs)))
      × (byte k xs < 256)
push-rest raw k xs h =
    let long : 8 ≤ length (rest k xs) = omega (arith, length-drop (8 * k) xs) in
    let first = push_byte raw (take 8 (rest k xs)) (length-take 8 (rest k xs) long) in
    (
      ap (push raw) (sym (take-append-drop 8 (rest k xs)))
          ∙ push-append raw (take 8 (rest k xs)) (drop 8 (rest k xs))
          ∙ ap (λ r. push r (drop 8 (rest k xs))) first.0,
      first.1,
    )

-- Forty levels fill the five fields, whatever the word held before: the humidity first, each byte
-- from its highest bit.
pub fields-push :
    (raw : ℕ) (xs : List Bool)
    → length xs ≡ 40
    → fields (push raw xs) ≡ record {
      checksum = byte 4 xs;
      temperature_fraction = byte 3 xs;
      temperature_integer = byte 2 xs;
      humidity_fraction = byte 1 xs;
      humidity_integer = byte 0 xs;
    }
unfolding fields
fields-push raw xs h =
    let r₁ = raw * 256 % 2 ^ 64 + byte 0 xs in
    let r₂ = r₁ * 256 % 2 ^ 64 + byte 1 xs in
    let r₃ = r₂ * 256 % 2 ^ 64 + byte 2 xs in
    let r₄ = r₃ * 256 % 2 ^ 64 + byte 3 xs in
    let r₅ = r₄ * 256 % 2 ^ 64 + byte 4 xs in
    let s₁ = push-rest raw 0 xs (omega (arith, h)) in
    let s₂ = push-rest r₁ 1 xs (omega (arith, h)) in
    let s₃ = push-rest r₂ 2 xs (omega (arith, h)) in
    let s₄ = push-rest r₃ 3 xs (omega (arith, h)) in
    let s₅ = push-rest r₄ 4 xs (omega (arith, h)) in
    let empty : drop 40 xs ≡ [] = length_zero (drop 40 xs) (omega (arith, length-drop 40 xs, h)) in
    let all : push raw xs ≡ r₅ =
      s₁.0
      ∙ ap (push r₁) (drop-drop 8 0 xs)
      ∙ s₂.0
      ∙ ap (push r₂) (drop-drop 8 8 xs)
      ∙ s₃.0
      ∙ ap (push r₃) (drop-drop 8 16 xs)
      ∙ s₄.0
      ∙ ap (push r₄) (drop-drop 8 24 xs)
      ∙ s₅.0
      ∙ ap (push r₅) (drop-drop 8 32 xs ∙ empty) in
    rw all (ground (arith, s₁.1, s₂.1, s₃.1, s₄.1, s₅.1))
