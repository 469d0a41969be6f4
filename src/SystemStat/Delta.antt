-- ===== src/SystemStat/Delta.antt =====
-- src/system_stat.cpp: what `getDelta` gives of a counter that goes on.
use dnsmeter.Base.{ℕ, ◌+◌, ◌-◌, ◌^◌, ◌<◌, ◌≡◌, arith, leb, if◌then◌else◌, u64}
use dnsmeter.SystemStat.{Network, delta_with_overflow, get_delta, add_network}

-- Of a 64-bit counter that has gone on by `n` since its first sample, the difference is `n`, except that it is one
-- less where the counter has wrapped.
delta_with_overflow-wrap :
    (sample n : ℕ)
    → sample < 2 ^ 64
    → n < 2 ^ 64
    → delta_with_overflow sample (u64 (sample + n))
      ≡ (if leb (2 ^ 64) (sample + n) then n - 1 else n)
unfolding delta_with_overflow
delta_with_overflow-wrap sample n hs hn = ground arith

-- The difference of two samples is what was added to the counters in between, where none of them has wrapped.
pub get_delta-add_network :
    (a d : Network)
    → a.bytes + d.bytes < 2 ^ 64
    → a.packets + d.packets < 2 ^ 64
    → a.errs + d.errs < 2 ^ 64
    → a.drop + d.drop < 2 ^ 64
    → get_delta a (add_network a d) ≡ d
unfolding get_delta add_network delta_with_overflow
get_delta-add_network a d hb hp he hd = ground arith
