-- ===== src/DnsSenderThread/Schedule.antt =====
-- src/dns_sender_thread.cpp: how `runWithRateLimit` spreads the queries over the time slices.
use native.Mathlib.Nat.{
  le-div_iff_mul-le, div-le_of_le-mul, div-add-mod, mod-lt, mul_comm, mul-div-le,
}
use dnsmeter.Base.{
  ℕ, zero, suc, ◌+◌, ◌-◌, ◌*◌, ◌/◌, ◌%◌, ◌≤◌, ◌<◌, ◌≡◌, ◌⊎◌, inl, inr, refl, ap, List, [], ◌∷◌,
  arith, sum, All,
}
use dnsmeter.DnsSenderThread.Loops.{queries_per_timeslice}

-- The queries of each of `left` slices.
abbrev pub schedule : ℕ → ℕ → List ℕ
schedule zero rest = []
schedule (suc left) rest =
    let n = queries_per_timeslice rest (suc left) in n ∷ schedule left (rest - n)

pub queries_per_timeslice-le : (rest left : ℕ) → queries_per_timeslice rest (suc left) ≤ rest
unfolding queries_per_timeslice
queries_per_timeslice-le rest left = ground (arith, mul-div-le rest (suc left))

-- The last slice takes what is left.
queries_per_timeslice-one : (rest : ℕ) → queries_per_timeslice rest 1 ≡ rest
unfolding queries_per_timeslice
queries_per_timeslice-one rest = refl

-- Over one or more slices every query is sent.
pub sum-schedule : (left rest : ℕ) → sum (schedule (suc left) rest) ≡ rest
sum-schedule zero rest = omega (arith, queries_per_timeslice-one rest)
sum-schedule (suc left) rest =
    let n = queries_per_timeslice rest (suc (suc left)) in
    omega (arith, queries_per_timeslice-le rest (suc left), sum-schedule left (rest - n))

-- A quotient of a number between two multiples is one of the two factors.
quotient-between :
    (rest left a : ℕ)
    → suc left * a ≤ rest
    → rest ≤ suc left * (a + 1)
    → (rest / suc left ≡ a) ⊎ (rest / suc left ≡ a + 1)
quotient-between rest left a low high =
    let above : a ≤ rest / suc left =
      (le-div_iff_mul-le {k = suc left} {x = a} {y = rest} (omega arith)).1
        (omega (arith, mul_comm a (suc left), low)) in
    let below : rest / suc left ≤ a + 1 = div-le_of_le-mul (suc left) high in
    ground (arith, above, below)

-- A share that is one of the factors leaves a rest between the multiples.
bounds_keep :
    (rest left a n : ℕ)
    → suc left * a ≤ rest
    → rest ≤ suc left * (a + 1)
    → (n ≡ a) ⊎ (n ≡ a + 1)
    → suc left * n ≤ rest
    → rest ≤ suc left * n + left
    → (left * a ≤ rest - n) × (rest - n ≤ left * (a + 1))
bounds_keep rest left a n low high (inl e) below above =
    let f = ap (λ t. left * t) e in (omega (arith, f), omega (arith, f))
bounds_keep rest left a n low high (inr e) below above =
    let f = ap (λ t. left * t) e in (omega (arith, f), omega (arith, f))

-- The share that the code takes: of the last slice what is left, and else the quotient.
quotient_bounds :
    (rest left a : ℕ)
    → suc left * a ≤ rest
    → rest ≤ suc left * (a + 1)
    → let n = queries_per_timeslice rest (suc left) in
      ((a ≤ n) × (n ≤ a + 1)) × (left * a ≤ rest - n) × (rest - n ≤ left * (a + 1))
unfolding queries_per_timeslice
quotient_bounds rest zero a low high =
    ((omega (arith, low, high), omega (arith, low, high)), omega arith, omega arith)
quotient_bounds rest (suc left) a low high =
    let n = rest / suc (suc left) in
    let q = quotient-between rest (suc left) a low high in
    let d = div-add-mod rest (suc (suc left)) in
    let r : rest % suc (suc left) < suc (suc left) = mod-lt rest (omega arith) in
    let (low', high') =
      bounds_keep rest (suc left) a n low high q (omega (arith, d)) (omega (arith, d, r)) in
    let share : queries_per_timeslice rest (suc (suc left)) ≡ n = ground arith in
    rw share ((ground (arith, q), ground (arith, q)), low', high')

spread :
    (left rest a : ℕ)
    → left * a ≤ rest
    → rest ≤ left * (a + 1)
    → All (λ n. (a ≤ n) × (n ≤ a + 1)) (schedule left rest)
spread zero rest a low high = tt
spread (suc left) rest a low high =
    let (here, low', high') = quotient_bounds rest left a low high in
    (here, spread left (rest - queries_per_timeslice rest (suc left)) a low' high')

-- The queries are spread evenly: of two slices neither sends more than one query more than the other, and
-- each sends the average, rounded down or up.
pub schedule-spread :
    (left rest : ℕ)
    → All (λ n. (rest / suc left ≤ n) × (n ≤ rest / suc left + 1)) (schedule (suc left) rest)
schedule-spread left rest =
    spread (suc left) rest (rest / suc left) (mul-div-le rest (suc left))
      (omega (arith, div-add-mod rest (suc left), mod-lt rest {m = suc left} (omega arith)))
