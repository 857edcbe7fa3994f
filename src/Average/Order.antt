-- ===== src/Average/Order.antt =====
-- The averages of average.c do not depend on the order of the measurements: abstractly they are a
-- function of a bag of measurements, a list up to permutation.
use mathlib.Core.List.{Permᴰ}
use mathlib.Core.List.Permᴰ.{nil, cons, swap, trans}
use mathlib.Core.Quot
use mathlib.Core.Quot.{Quot}
use native.Mathlib.Decide.{ℕ_discrete}
use quark_meteo_station.Base.{
  suc, ◌+◌, ◌/◌, ◌<◌, ◌≡◌, refl, sym, ap, ◌∙◌, arith, some, List, ◌∷◌, length,
}
use quark_meteo_station.Base.Int.{ℤ, ◌+ℤ◌, +ℤ_parts, eq_of_parts, div_ℤ}
use quark_meteo_station.Bmp280.{Meas}
use quark_meteo_station.Average.{Bmp280Average}
use quark_meteo_station.Average.Running.{AreUsual, temperatures, pressures, totals, run, run-mean}

abbrev Bag : Type 0
Bag = Quot (Permᴰ {A = Meas})

-- The sums of permuted measurements, by induction on the permutation.
add-right_comm : (a b c : ℤ) → a +ℤ b +ℤ c ≡ a +ℤ c +ℤ b
add-right_comm a b c = eq_of_parts (a +ℤ b +ℤ c) (a +ℤ c +ℤ b) (omega (arith, +ℤ_parts))

temperatures-perm : {ms ns : List Meas} → Permᴰ ms ns → temperatures ms ≡ temperatures ns
temperatures-perm nil = refl
temperatures-perm (cons {b} e p) = rw e (ap (λ t. t +ℤ b.temperature) (temperatures-perm p))
temperatures-perm (swap {a'} {b'} {l} e f) =
    rw (e, f) (add-right_comm (temperatures l) a'.temperature b'.temperature)
temperatures-perm (trans p q) = temperatures-perm p ∙ temperatures-perm q

pressures-perm : {ms ns : List Meas} → Permᴰ ms ns → pressures ms ≡ pressures ns
pressures-perm nil = refl
pressures-perm (cons {b} e p) = rw e (ap (λ t. t + b.pressure) (pressures-perm p))
pressures-perm (swap {a'} {b'} {l} e f) = rw (e, f) (omega arith)
pressures-perm (trans p q) = pressures-perm p ∙ pressures-perm q

length-perm : {ms ns : List Meas} → Permᴰ ms ns → length ms ≡ length ns
length-perm nil = refl
length-perm (cons e p) = ap suc (length-perm p)
length-perm (swap e f) = refl
length-perm (trans p q) = length-perm p ∙ length-perm q

AreUsual-perm : {ms ns : List Meas} → Permᴰ ms ns → AreUsual ms → AreUsual ns
AreUsual-perm nil u = u
AreUsual-perm (cons e p) (u, us) = (rw e at u, AreUsual-perm p us)
AreUsual-perm (swap e f) (u, (v, us)) = (rw f at v, (rw e at u, us))
AreUsual-perm (trans p q) u = AreUsual-perm q (AreUsual-perm p u)

ℤ_discrete : Discrete ℤ
ℤ_discrete = hlevel ℕ_discrete

Bmp280Average-set : IsSet Bmp280Average
Bmp280Average-set = hlevel (ℤ_discrete, ℕ_discrete)

totals-perm : (ms ns : List Meas) → Permᴰ ms ns → totals ms ≡ totals ns
totals-perm ms ns p = λ i. record {
  temp_sum = temperatures-perm p i;
  pres_sum = pressures-perm p i;
  meas_num = length-perm p i;
}

-- The sums of a bag.
bag_totals : Bag → Bmp280Average
bag_totals = Quot.lift Bmp280Average-set totals totals-perm

-- The mean that sums stand for.
abbrev mean_of : Bmp280Average → Meas
mean_of a = record { pressure = a.pres_sum / a.meas_num; temperature = div_ℤ a.temp_sum a.meas_num }

-- What the module writes and keeps is a function of the bag of the measurements.
run-bag_totals :
    (ms : List Meas) (m : Meas)
    → AreUsual (m ∷ ms)
    → length ms < 4095
    → let bag : Bag = Quot.mk (m ∷ ms) in run ms m ≡ some (mean_of (bag_totals bag), bag_totals bag)
unfolding bag_totals
run-bag_totals ms m u h = run-mean ms m u h

-- So after a reset and up to 4095 measurements, with pressures up to 2^20 Pa and temperatures up
-- to 2^19 hundredths of a degree either way, the averages and the sums are the same for the same
-- measurements in every other order.
pub run-perm :
    (ms : List Meas) (m : Meas) (ns : List Meas) (n : Meas)
    → Permᴰ (m ∷ ms) (n ∷ ns)
    → AreUsual (m ∷ ms)
    → length ms < 4095
    → run ms m ≡ run ns n
run-perm ms m ns n p u h =
    let few : length ns < 4095 = omega (arith, length-perm p) in
    run-bag_totals ms m u h
    ∙ ap (λ b. some (mean_of (bag_totals b), bag_totals b)) (Quot.sound p)
    ∙ sym (run-bag_totals ns n (AreUsual-perm p u) few)
