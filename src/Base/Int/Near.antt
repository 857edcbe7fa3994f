-- ===== src/Base/Int/Near.antt =====
-- Integers that are at most so far apart, through products and shifts.
use Prim.Native.Nat.{ℕ, suc, ◌+◌, ◌*◌, ◌/◌, ◌^◌, ◌≤◌, ◌<◌}
use mathlib.Core.Path.{◌≡◌, ap}
use native.Mathlib.Omega.{arith}
use native.Mathlib.Nat.{
  add-mul, mul_comm, mul_assoc, mul_right_comm, suc-mul, mul-le-mul_left, mul-le-mul_right,
  div-mul-le_self, lt-div-mul-add,
}
use quark_meteo_station.Base.Int.{
  ℤ, pos, negsuc, pos_part, neg_part, abs, sub_ℕ, eq_of_parts, +ℤ_parts, ◌+ℤ◌, ◌*ℤ◌, shr_ℤ,
}

pub record Near (a b : ℤ) (d : ℕ) : Type 0 where
  pub below : pos_part a + neg_part b ≤ pos_part b + neg_part a + d
  pub above : pos_part b + neg_part a ≤ pos_part a + neg_part b + d

pub Near-trans : {a b c : ℤ} {d e : ℕ} → Near a b d → Near b c e → Near a c (d + e)
Near-trans h k = omega arith

pub Near-le : {a b : ℤ} {d e : ℕ} → d ≤ e → Near a b d → Near a b e
Near-le p h = omega arith

pub Near-+ℤ :
    {a b a' b' : ℤ} {d e : ℕ} → Near a b d → Near a' b' e → Near (a +ℤ a') (b +ℤ b') (d + e)
Near-+ℤ {a} {b} {a'} {b'} h k = omega (arith, +ℤ_parts a a', +ℤ_parts b b')

-- The parts of a product.
pub *ℤ-pos_part : (a b : ℤ) → pos_part (a *ℤ b) ≡ pos_part a * pos_part b + neg_part a * neg_part b
unfolding ◌*ℤ◌
*ℤ-pos_part (pos a) (pos b) = omega arith
*ℤ-pos_part (pos a) (negsuc b) = ground arith
*ℤ-pos_part (negsuc a) (pos b) = ground arith
*ℤ-pos_part (negsuc a) (negsuc b) = omega arith

pub *ℤ-neg_part : (a b : ℤ) → neg_part (a *ℤ b) ≡ pos_part a * neg_part b + neg_part a * pos_part b
unfolding ◌*ℤ◌
*ℤ-neg_part (pos a) (pos b) = omega arith
*ℤ-neg_part (pos a) (negsuc b) = ground arith
*ℤ-neg_part (negsuc a) (pos b) = ground arith
*ℤ-neg_part (negsuc a) (negsuc b) = omega arith

-- An inequality times a number.
scaled : (x y u v d n m : ℕ) → x + y ≤ u + v + d → n ≤ m → x * n + y * n ≤ u * n + v * n + d * m
scaled x y u v d n m h k = omega (
  arith,
  mul-le-mul_right n h,
  mul-le-mul_left d k,
  add-mul x y n,
  add-mul (u + v) d n,
  add-mul u v n,
)

pub Near-*ℤ :
    {a b : ℤ} {d : ℕ} (s : ℤ) (m : ℕ) → Near a b d → abs s ≤ m → Near (a *ℤ s) (b *ℤ s) (d * m)
Near-*ℤ {a} {b} {d} (pos n) m h l =
    let e₁ = scaled (pos_part a) (neg_part b) (pos_part b) (neg_part a) d n m h.below l in
    let e₂ = scaled (pos_part b) (neg_part a) (pos_part a) (neg_part b) d n m h.above l in
    omega (
      arith,
      e₁,
      e₂,
      *ℤ-pos_part a (pos n),
      *ℤ-pos_part b (pos n),
      *ℤ-neg_part a (pos n),
      *ℤ-neg_part b (pos n),
    )
Near-*ℤ {a} {b} {d} (negsuc n) m h l =
    let e₁ = scaled (pos_part a) (neg_part b) (pos_part b) (neg_part a) d (suc n) m h.below l in
    let e₂ = scaled (pos_part b) (neg_part a) (pos_part a) (neg_part b) d (suc n) m h.above l in
    omega (
      arith,
      e₁,
      e₂,
      *ℤ-pos_part a (negsuc n),
      *ℤ-pos_part b (negsuc n),
      *ℤ-neg_part a (negsuc n),
      *ℤ-neg_part b (negsuc n),
    )

pub *ℤ_comm : (a b : ℤ) → a *ℤ b ≡ b *ℤ a
unfolding ◌*ℤ◌
*ℤ_comm (pos a) (pos b) = ap pos (mul_comm a b)
*ℤ_comm (pos a) (negsuc b) = ap (sub_ℕ 0) (mul_comm a (suc b))
*ℤ_comm (negsuc a) (pos b) = ap (sub_ℕ 0) (mul_comm (suc a) b)
*ℤ_comm (negsuc a) (negsuc b) = ap pos (mul_comm (suc a) (suc b))

right_comm_parts :
    (p q r s t u : ℕ)
    → (p * r + q * s) * t + (p * s + q * r) * u ≡ (p * t + q * u) * r + (p * u + q * t) * s
right_comm_parts p q r s t u = omega (
  arith,
  add-mul (p * r) (q * s) t,
  add-mul (p * s) (q * r) u,
  add-mul (p * t) (q * u) r,
  add-mul (p * u) (q * t) s,
  mul_right_comm p r t,
  mul_right_comm q s t,
  mul_right_comm p s u,
  mul_right_comm q r u,
)

pub *ℤ_right_comm : (a b c : ℤ) → a *ℤ b *ℤ c ≡ a *ℤ c *ℤ b
*ℤ_right_comm a b c = eq_of_parts (a *ℤ b *ℤ c) (a *ℤ c *ℤ b) (
    rw
      (
        *ℤ-pos_part (a *ℤ b) c,
        *ℤ-neg_part (a *ℤ b) c,
        *ℤ-pos_part (a *ℤ c) b,
        *ℤ-neg_part (a *ℤ c) b,
        *ℤ-pos_part a b,
        *ℤ-neg_part a b,
        *ℤ-pos_part a c,
        *ℤ-neg_part a c,
      )
      (omega (
        arith,
        right_comm_parts (pos_part a) (neg_part a) (pos_part b) (neg_part b) (pos_part c)
            (neg_part c),
        right_comm_parts (pos_part a) (neg_part a) (neg_part b) (pos_part b) (pos_part c)
            (neg_part c),
      )))

-- What a shift cuts off.
pub shr_ℤ-floor :
    (a : ℤ) (k : ℕ)
    → 0 < 2 ^ k
    → let f = shr_ℤ a k *ℤ pos (2 ^ k) in
      (pos_part f + neg_part a ≤ pos_part a + neg_part f)
      × (pos_part a + neg_part f < pos_part f + neg_part a + 2 ^ k)
unfolding shr_ℤ
shr_ℤ-floor (pos a) k p =
    rw (*ℤ-pos_part (pos (a / 2 ^ k)) (pos (2 ^ k)), *ℤ-neg_part (pos (a / 2 ^ k)) (pos (2 ^ k)))
      (omega (arith, div-mul-le_self a (2 ^ k)), omega (arith, lt-div-mul-add {a = a} p))
shr_ℤ-floor (negsuc a) k p =
    rw
      (
        *ℤ-pos_part (negsuc (a / 2 ^ k)) (pos (2 ^ k)),
        *ℤ-neg_part (negsuc (a / 2 ^ k)) (pos (2 ^ k)),
      )
      (
        omega (arith, suc-mul (a / 2 ^ k) (2 ^ k), lt-div-mul-add {a = a} p),
        omega (arith, suc-mul (a / 2 ^ k) (2 ^ k), div-mul-le_self a (2 ^ k)),
      )

pub *ℤ_assoc_pos : (a : ℤ) (m n : ℕ) → a *ℤ pos m *ℤ pos n ≡ a *ℤ pos (m * n)
*ℤ_assoc_pos a m n = eq_of_parts (a *ℤ pos m *ℤ pos n) (a *ℤ pos (m * n)) (
    rw
      (
        *ℤ-pos_part (a *ℤ pos m) (pos n),
        *ℤ-neg_part (a *ℤ pos m) (pos n),
        *ℤ-pos_part a (pos (m * n)),
        *ℤ-neg_part a (pos (m * n)),
        *ℤ-pos_part a (pos m),
        *ℤ-neg_part a (pos m),
      )
      (omega (
        arith,
        add-mul (pos_part a * m) (neg_part a * 0) n,
        add-mul (pos_part a * 0) (neg_part a * m) n,
        mul_assoc (pos_part a) m n,
        mul_assoc (neg_part a) m n,
      )))

-- A shifted value is near.
pub shr_ℤ-Near : (a : ℤ) (k : ℕ) → 0 < 2 ^ k → Near (shr_ℤ a k *ℤ pos (2 ^ k)) a (2 ^ k)
shr_ℤ-Near a k p = omega (arith, shr_ℤ-floor a k p)
