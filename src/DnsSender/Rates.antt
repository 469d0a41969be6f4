-- ===== src/DnsSender/Rates.antt =====
-- src/dns_sender.cpp: the rates that `getQueryRates` makes of a range.
use dnsmeter.Base.{
  ℕ, zero, suc, ◌+◌, ◌*◌, ◌^◌, ◌≤◌, ◌<◌, ◌≡◌, true, refl, List, [], ◌∷◌, none, some, arith, leb,
  u64,
}
use dnsmeter.DnsSender.{range_loop}

-- The numbers `i`, `i + step`, ..., `n` of them.
abbrev pub progression : ℕ → ℕ → ℕ → List ℕ
progression zero i step = []
progression (suc n) i step = i ∷ progression n (i + step) step

-- A range with a step of 1 or more gives the numbers from its first one on, at the distance of the step, up to
-- the last one that is not above its end; fuel for each and one more is enough. The end of the range has to
-- be far enough from 2 ^ 64.
pub range_loop-progression :
    (n fuel i last step : ℕ)
    → n + 1 < fuel
    → last + step < 2 ^ 64
    → i + n * step ≤ last
    → last < i + (n + 1) * step
    → range_loop fuel i last step ≡ some (progression (suc n) i step)
unfolding range_loop
range_loop-progression n zero i last step enough room low high = absurd (omega arith)
range_loop-progression n (suc zero) i last step enough room low high = absurd (omega arith)
range_loop-progression zero (suc (suc fuel)) i last step enough room low high =
    let next : u64 (i + step) ≡ i + step = omega arith in rw next (ground arith)
range_loop-progression (suc n) (suc (suc fuel)) i last step enough room low high =
    let next : u64 (i + step) ≡ i + step = omega arith in
    let more =
      range_loop-progression n (suc fuel) (i + step) last step (omega arith) room (omega arith)
        (omega arith) in
    let here : leb i last ≡ true = ground arith in rw (here, next, more) refl

-- A range with the step 0 that is not empty never ends.
range_loop-zero : (fuel i last : ℕ) → i ≤ last → last < 2 ^ 64 → range_loop fuel i last 0 ≡ none
unfolding range_loop
range_loop-zero zero i last le small = refl
range_loop-zero (suc fuel) i last le small = ground (arith, range_loop-zero fuel i last)
