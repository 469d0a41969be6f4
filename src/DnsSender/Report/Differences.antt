-- ===== src/DnsSender/Report/Differences.antt =====
-- src/dns_sender.cpp: what the lines of `showCurrentStats` add up to.
use dnsmeter.Base.{
  ℕ, ◌+◌, ◌*◌, ◌^◌, ◌<◌, ◌≡◌, ◌⊎◌, false, not, ◌&&◌, List, [], ◌∷◌, map, some, arith, sum, u64,
}
use dnsmeter.DnsSender.{Results, get_results}
use dnsmeter.DnsSender.Report.{Stats, stats_line, Poll, watch}

-- Hours, minutes and seconds make up the runtime, minutes and seconds below 60.
pub stats_line-IsTime :
    (runtime : ℕ) (diff : Results)
    → let l = stats_line runtime diff in
      (l.h * 3600 + l.m * 60 + l.s ≡ runtime) × (l.m < 60) × (l.s < 60)
unfolding stats_line
stats_line-IsTime runtime diff = omega arith

-- Lines that start from the results `prev` and end with `last`.
abbrev pub AddUp : Results → List Stats × Results → Type 0
AddUp prev (lines, last) =
    (u64 (prev.counter_send + sum (map (λ (l : Stats). l.queries_send) lines))
      ≡ u64 last.counter_send)
    × (u64 (prev.counter_received + sum (map (λ (l : Stats). l.queries_received) lines))
        ≡ u64 last.counter_received)

-- In one of the rounds the threads have ended, or the user has asked to stop.
abbrev pub Ends : List Poll → Type 0
Ends [] = ⊥
Ends (p ∷ ps) = ((p.running && not p.stop_flag) ≡ false) ⊎ Ends ps

-- The counters of a round fit 64 bits.
abbrev pub IsSmall : Results → Poll → Type 0
IsSmall result p =
    let r = get_results result p.pool.threads p.pool.receiver in
    (r.counter_send < 2 ^ 64) × (r.counter_received < 2 ^ 64)

-- What the loop shows, after the results `prev`.
abbrev pub Shows : ℕ → ℕ → Results → Results → List Poll → Type 0
Shows start report prev result ps =
    (lines : List Stats) × (last : Results) × (watch start report prev result ps
      ≡ some (lines, last))
    × AddUp prev (lines, last)
