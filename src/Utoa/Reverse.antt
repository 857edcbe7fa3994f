-- ===== src/Utoa/Reverse.antt =====
-- `strrev` reverses the text of a buffer in place and leaves the rest.
use mathlib.Core.Path.{subst}
use mathlib.Core.List.{reverse, reverse-append}
use quark_meteo_station.Base.{
  ℕ, zero, suc, ◌+◌, ◌-◌, ◌*◌, ◌≤◌, ◌<◌, ◌≡◌, refl, sym, ap, ◌∙◌, arith, List, [], ◌∷◌, ◌++◌,
  append_assoc, length, length-append, get_or, get_or-append, set, set-append, All,
}
use quark_meteo_station.Utoa.{strlen, swap_loop, strrev}

-- No byte of the text is NUL.
abbrev pub IsText : List ℕ → Type 0
IsText s = All (λ c. 0 < c) s

pub strlen-append : (s rest : List ℕ) → IsText s → strlen (s ++ 0 ∷ rest) ≡ length s
unfolding strlen
strlen-append [] rest h = refl
strlen-append (c ∷ s) rest h = ground (arith, strlen-append s rest h.1)

from_the_end : (x : ℕ) (xs : List ℕ) → (m : List ℕ) × (y : ℕ) × (x ∷ xs ≡ m ++ y ∷ [])
from_the_end x [] = ([], x, refl)
from_the_end x (y ∷ ys) = let (m, z, e) = from_the_end y ys in (x ∷ m, z, ap (λ t. x ∷ t) e)

reverse_ends : (x y : ℕ) (m : List ℕ) → reverse (x ∷ (m ++ y ∷ [])) ≡ y ∷ (reverse m ++ x ∷ [])
reverse_ends x y m =
    reverse-append (x ∷ []) (m ++ y ∷ []) ∙ ap (λ t. t ++ x ∷ []) (reverse-append m (y ∷ []))

-- One round: the two ends of the part between `pre` and `post` change places.
swap_ends :
    (pre m post : List ℕ) (x y : ℕ)
    → let j = length pre + length m + 1 in
      (get_or (pre ++ x ∷ (m ++ y ∷ post)) (length pre) 0 ≡ x)
      × (get_or (pre ++ x ∷ (m ++ y ∷ post)) j 0 ≡ y)
      × (set (set (pre ++ x ∷ (m ++ y ∷ post)) (length pre) y) j x ≡ pre ++ y ∷ (m ++ x ∷ post))
swap_ends pre m post x y = (
  get_or-append pre (x ∷ (m ++ y ∷ post)) 0,
  rw (← at_j x, regroup x y) (get_or-append (pre ++ x ∷ m) (y ∷ post) 0),
  rw set-append
      (rw (← at_j y, regroup y y) (set-append (pre ++ y ∷ m) y post x ∙ sym (regroup y x))),
)
  where
    at_j : (z : ℕ) → length (pre ++ z ∷ m) ≡ length pre + length m + 1
    at_j z = omega (arith, length-append pre (z ∷ m))

    regroup : (z w : ℕ) → pre ++ z ∷ (m ++ w ∷ post) ≡ (pre ++ z ∷ m) ++ w ∷ post
    regroup z w = sym (append_assoc pre (z ∷ m) (w ∷ post))

-- A round, with what the rest of the loop makes of the part in between.
swap_loop_round :
    (fuel : ℕ) (pre m post : List ℕ) (x y : ℕ)
    → ((pre' post' : List ℕ)
        → swap_loop fuel (length pre') (length pre' + length m - 1) (pre' ++ (m ++ post'))
          ≡ pre' ++ (reverse m ++ post'))
    → swap_loop (suc fuel) (length pre) (length pre + length m + 1) (pre ++ x ∷ (m ++ y ∷ post))
      ≡ pre ++ y ∷ (reverse m ++ x ∷ post)
unfolding swap_loop
swap_loop_round fuel pre m post x y inner =
    let ends = swap_ends pre m post x y in
    let next : length (pre ++ y ∷ []) ≡ length pre + 1 = length-append pre (y ∷ []) in
    ground (
      arith,
      ends,
      next,
      inner (pre ++ y ∷ []) (x ∷ post),
      append_assoc pre (y ∷ []) (m ++ x ∷ post),
      append_assoc pre (y ∷ []) (reverse m ++ x ∷ post),
    )

-- Such a round on a part that is taken apart at its end.
swap_loop_ends :
    (fuel : ℕ) (pre m post : List ℕ) (x y : ℕ)
    → ((pre' post' : List ℕ)
        → swap_loop fuel (length pre') (length pre' + length m - 1) (pre' ++ (m ++ post'))
          ≡ pre' ++ (reverse m ++ post'))
    → swap_loop
        (suc fuel)
        (length pre)
        (length pre + suc (length (m ++ y ∷ [])) - 1)
        (pre ++ x ∷ ((m ++ y ∷ []) ++ post))
      ≡ pre ++ (reverse (x ∷ (m ++ y ∷ [])) ++ post)
swap_loop_ends fuel pre m post x y inner =
    let at : length pre + suc (length (m ++ y ∷ [])) - 1 ≡ length pre + length m + 1 =
      omega (arith, length-append m (y ∷ [])) in
    rw (at, append_assoc m (y ∷ []) post, reverse_ends x y m)
      (swap_loop_round fuel pre m post x y inner
        ∙ ap (λ t. pre ++ y ∷ t) (sym (append_assoc (reverse m) (x ∷ []) post)))

-- The loop reverses the part of the buffer between `i` and `j`.
swap_loop_lem :
    (fuel : ℕ) (mid : List ℕ)
    → length mid ≤ 2 * fuel + 1
    → (pre post : List ℕ)
    → swap_loop fuel (length pre) (length pre + length mid - 1) (pre ++ (mid ++ post))
      ≡ pre ++ (reverse mid ++ post)
swap_loop_lem zero [] h pre post = unfold swap_loop in refl
swap_loop_lem zero (x ∷ []) h pre post = unfold swap_loop in refl
swap_loop_lem zero (x ∷ z ∷ r) h pre post = absurd (omega arith)
swap_loop_lem (suc fuel) [] h pre post = unfold swap_loop in ground arith
swap_loop_lem (suc fuel) (x ∷ []) h pre post = unfold swap_loop in ground arith
swap_loop_lem (suc fuel) (x ∷ z ∷ r) h pre post =
    let (m, y, e) = from_the_end z r in
    let shorter : suc (length r) ≡ length m + 1 = ap length e ∙ length-append m (y ∷ []) in
    let inner = swap_loop_lem fuel m (omega arith) in
    subst
      (λ t.
        swap_loop (suc fuel) (length pre) (length pre + suc (length t) - 1) (pre ++ x ∷ (t ++ post))
        ≡ pre ++ (reverse (x ∷ t) ++ post))
      (sym e) (swap_loop_ends fuel pre m post x y inner)

-- `strrev` reverses a text in place, and leaves its NUL and what stands behind.
pub strrev_lem : (s rest : List ℕ) → IsText s → strrev (s ++ 0 ∷ rest) ≡ reverse s ++ 0 ∷ rest
unfolding strrev
strrev_lem s rest h =
    let from_zero : length s - 1 ≡ 0 + length s - 1 = omega arith in
    rw (strlen-append s rest h, from_zero) (swap_loop_lem (length s) s (omega arith) [] (0 ∷ rest))
