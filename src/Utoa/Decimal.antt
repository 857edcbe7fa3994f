-- ===== src/Utoa/Decimal.antt =====
-- Decimal text, independently of the code: what a numeral is worth, and the one for a number.
use native.Mathlib.Nat.{pow-suc, one-le-pow}
use quark_meteo_station.Base.{
  ℕ, zero, suc, ◌+◌, ◌-◌, ◌*◌, ◌/◌, ◌%◌, ◌^◌, ◌≤◌, ◌<◌, ◌≡◌, refl, arith, List, [], ◌∷◌, ◌++◌,
  length, length-append, get_or, All, All-append, ◌==◌, true, false, Bool-cases, inl, inr,
}

-- The value of a text of digits, read from the left.
abbrev pub value_from : ℕ → List ℕ → ℕ
value_from n [] = n
value_from n (c ∷ s) = value_from (n * 10 + (c - 48)) s

abbrev pub value : List ℕ → ℕ
value s = value_from 0 s

abbrev pub IsDigit : ℕ → Type 0
IsDigit c = (48 ≤ c) × (c ≤ 57)

-- The decimal text of a number of at most so many digits.
unfoldable pub decimal_of : ℕ → ℕ → List ℕ
decimal_of zero n = []
decimal_of (suc k) n = elim (n / 10 == 0) [
  | true ↦ (n % 10 + 48) ∷ []
  | false ↦ decimal_of k (n / 10) ++ (n % 10 + 48) ∷ []
]

-- That of a 32-bit number.
unfoldable pub decimal : ℕ → List ℕ
unfolding decimal_of
decimal n = decimal_of 10 n

value_from-append : (n : ℕ) (s t : List ℕ) → value_from n (s ++ t) ≡ value_from (value_from n s) t
value_from-append n [] t = refl
value_from-append n (c ∷ s) t = value_from-append (n * 10 + (c - 48)) s t

-- `IsDecimal n s`: the text is a numeral for the number, with no needless zero in front.
pub record IsDecimal (n : ℕ) (s : List ℕ) : Type 0 where
  pub worth : value s ≡ n
  pub digits : All IsDigit s
  pub filled : 0 < length s
  pub trimmed : get_or s 0 0 ≡ 48 → n ≡ 0

get_or-append_left : (s t : List ℕ) → 0 < length s → get_or (s ++ t) 0 0 ≡ get_or s 0 0
get_or-append_left [] t h = absurd (omega arith)
get_or-append_left (c ∷ s) t h = refl

pub decimal_of_small : (k n : ℕ) → (n / 10 == 0) ≡ true → decimal_of (suc k) n ≡ (n % 10 + 48) ∷ []
unfolding decimal_of
decimal_of_small k n h = rw (h, decimal_of)

pub decimal_of_large :
    (k n : ℕ)
    → (n / 10 == 0) ≡ false
    → decimal_of (suc k) n ≡ decimal_of k (n / 10) ++ (n % 10 + 48) ∷ []
unfolding decimal_of
decimal_of_large k n h = rw (h, decimal_of)

-- A digit behind the numeral of the tenth.
IsDecimal-append :
    (n : ℕ) (s : List ℕ)
    → (n / 10 == 0) ≡ false
    → IsDecimal (n / 10) s
    → IsDecimal n (s ++ (n % 10 + 48) ∷ [])
IsDecimal-append n s big d = record {
  worth = ground (arith, value_from-append 0 s ((n % 10 + 48) ∷ []), d.worth);
  digits = All-append IsDigit s ((n % 10 + 48) ∷ []) d.digits (omega arith);
  filled = omega (arith, length-append s ((n % 10 + 48) ∷ []));
  trimmed = ground (arith, get_or-append_left s ((n % 10 + 48) ∷ []) d.filled, d.trimmed);
}

pub decimal_of-IsDecimal : (k n : ℕ) → n < 10 ^ suc k → IsDecimal n (decimal_of (suc k) n)
decimal_of-IsDecimal zero n h = rw (decimal_of_small 0 n (ground arith)) (ground arith)
decimal_of-IsDecimal (suc k) n h =
    let tenth : n / 10 < 10 ^ suc k = omega (arith, pow-suc 10 (suc k)) in
    let shorter = decimal_of-IsDecimal k (n / 10) tenth in
    elim (Bool-cases (n / 10 == 0)) [
      | inl small ↦ rw (decimal_of_small (suc k) n small) (ground arith)
      | inr big ↦ rw (decimal_of_large (suc k) n big) (IsDecimal-append n _ big shorter)
    ]

-- The text `decimal n` of a 32-bit number is its numeral.
pub decimal-IsDecimal : (n : ℕ) → n < 2 ^ 32 → IsDecimal n (decimal n)
unfolding decimal
decimal-IsDecimal n h = decimal_of-IsDecimal 9 n (omega arith)

length-decimal_of : (k j n : ℕ) → n < 10 ^ suc j → length (decimal_of k n) ≤ suc j
unfolding decimal_of
length-decimal_of zero j n h = omega arith
length-decimal_of (suc k) zero n h = rw (decimal_of_small k n (ground arith)) (omega arith)
length-decimal_of (suc k) (suc j) n h =
    let tenth : n / 10 < 10 ^ suc j = omega (arith, pow-suc 10 (suc j)) in
    ground (
      arith,
      length-append (decimal_of k (n / 10)) ((n % 10 + 48) ∷ []),
      length-decimal_of k j (n / 10) tenth,
    )

-- A number below 10 ^ j has j digits at most.
pub length-decimal : (j n : ℕ) → n < 10 ^ suc j → length (decimal n) ≤ suc j
unfolding decimal
length-decimal j n h = length-decimal_of 10 j n h

longer_decimal_of : (k j n : ℕ) → 10 ^ j ≤ n → n < 10 ^ suc k → j < length (decimal_of (suc k) n)
longer_decimal_of k zero n h fits = (decimal_of-IsDecimal k n fits).filled
longer_decimal_of zero (suc j) n h fits = absurd (omega (arith, pow-suc 10 j, one-le-pow j 10))
longer_decimal_of (suc k) (suc j) n h fits =
    let big : (n / 10 == 0) ≡ false = ground (arith, pow-suc 10 j, one-le-pow j 10) in
    let tenth : 10 ^ j ≤ n / 10 = omega (arith, pow-suc 10 j) in
    let top : n / 10 < 10 ^ suc k = omega (arith, pow-suc 10 (suc k)) in
    rw (decimal_of_large (suc k) n big) (
      omega (
        arith,
        length-append (decimal_of (suc k) (n / 10)) ((n % 10 + 48) ∷ []),
        longer_decimal_of k j (n / 10) tenth top,
      ))

-- From 10 ^ j on it has more than j.
pub lt-length-decimal : (j n : ℕ) → 10 ^ j ≤ n → n < 2 ^ 32 → j < length (decimal n)
unfolding decimal
lt-length-decimal j n h fits = longer_decimal_of 9 j n h (omega arith)
