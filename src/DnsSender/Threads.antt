-- ===== src/DnsSender/Threads.antt =====
-- src/dns_sender.cpp: how `run` shares a rate among the threads.
use dnsmeter.Base.{
  ℕ, ◌*◌, ◌/◌, ◌≤◌, ◌≡◌, ◌⊎◌, inl, inr, refl, false, List, [], ◌∷◌, map, arith, length, sum, ltb,
  ◌==◌, Bool-cases,
}
use dnsmeter.Exceptions.{ok, throw, invalid_arguments}
use dnsmeter.DnsSenderThread.{DnsSenderThread, Ratio, set_timeslice}
use dnsmeter.DnsSender.{calc_timeslice, set_rates, configure}

abbrev pub with_rate : ℕ → Ratio → DnsSenderThread → DnsSenderThread
with_rate rate ms t = record t { queryrate = rate; timeslice = ms }

pub set_rates-ok :
    (rate : ℕ) (ms : Ratio) (ts : List DnsSenderThread)
    → 1 ≤ ms.num
    → ms.num ≤ 1000 * ms.den
    → set_rates rate ms ts ≡ ok (map (with_rate rate ms) ts)
unfolding set_rates set_timeslice
set_rates-ok rate ms [] pos short = refl
set_rates-ok rate ms (t ∷ ts) pos short =
    let some_time : (ms.num == 0) ≡ false = ground arith in
    let fits : ltb (1000 * ms.den) ms.num ≡ false = ground arith in
    rw (some_time, fits, set_rates-ok rate ms ts pos short) refl

pub sum-with_rate :
    (rate : ℕ) (ms : Ratio) (ts : List DnsSenderThread)
    → sum (map (λ (u : DnsSenderThread). u.queryrate) (map (with_rate rate ms) ts))
      ≡ length ts * rate
sum-with_rate rate ms [] = omega arith
sum-with_rate rate ms (t ∷ ts) = omega (arith, sum-with_rate rate ms ts)

-- A time slice that `setTimeslice` accepts: not 0, and a second at most.
abbrev pub IsSlice : Ratio → Type 0
IsSlice ms = (1 ≤ ms.num) × (ms.num ≤ 1000 * ms.den)

set_rates-throw :
    (rate : ℕ) (ms : Ratio) (t : DnsSenderThread) (ts : List DnsSenderThread)
    → ¬ IsSlice ms
    → set_rates rate ms (t ∷ ts) ≡ throw invalid_arguments
unfolding set_rates set_timeslice
set_rates-throw rate ms t ts refused = elim (Bool-cases (ms.num == 0)) [
  | inl zero_slice ↦ rw zero_slice refl
  | inr some_time ↦ elim (Bool-cases (ltb (1000 * ms.den) ms.num)) [
    | inl long ↦ rw (some_time, long) refl
    | inr short ↦ absurd (refused (ground arith, ground arith))
  ]
]

IsSlice-cases : (ms : Ratio) → IsSlice ms ⊎ (¬ IsSlice ms)
IsSlice-cases ms = elim (Bool-cases (ms.num == 0)) [
  | inl zero_slice ↦ inr (λ (pos, _). ground (arith, pos))
  | inr some_time ↦ elim (Bool-cases (ltb (1000 * ms.den) ms.num)) [
    | inl long ↦ inr (λ (_, short). ground (arith, short))
    | inr short ↦ inl (ground arith, ground arith)
  ]
]

-- The set-up of a rate with the time slice that `calcTimeslice` gives.
pub configure-cases :
    (slices : Ratio) (q : ℕ) (t : DnsSenderThread) (ts : List DnsSenderThread)
    → 1 ≤ q
    → let n = length (t ∷ ts) in
      let ms = calc_timeslice n q in
      (IsSlice ms × (configure n slices q (t ∷ ts) ≡ ok (ms, map (with_rate (q / n) ms) (t ∷ ts))))
      ⊎ ((¬ IsSlice ms) × (configure n slices q (t ∷ ts) ≡ throw invalid_arguments))
unfolding configure
configure-cases slices q t ts some_rate =
    let n = length (t ∷ ts) in
    let ms = calc_timeslice n q in
    let asked : (q == 0) ≡ false = ground arith in
    elim (IsSlice-cases ms) [
      | inl slice ↦ inl (slice, rw (asked, set_rates-ok (q / n) ms (t ∷ ts) slice.0 slice.1) refl)
      | inr refused ↦ inr (refused, rw (asked, set_rates-throw (q / n) ms t ts refused) refl)
    ]

-- A thread with its share of the rate and the time slice.
abbrev pub Shares : ℕ → Ratio → DnsSenderThread → Type 0
Shares rate ms u = (u.queryrate ≡ rate) × (u.timeslice ≡ ms)
