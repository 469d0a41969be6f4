-- ===== src/Query/Rtt.antt =====
-- The time stamps of src/query.cpp: what the difference of two of them measures.
use dnsmeter.Base.{ℕ, ◌+◌, ◌-◌, ◌*◌, ◌/◌, ◌%◌, ◌≤◌, ◌<◌, ◌≡◌, some, arith}
use dnsmeter.Query.{TimeVal, get_query_timestamp, elapsed, get_query_rtt}

-- The time in whole units of 1/10000 s.
abbrev pub ticks : TimeVal → ℕ
ticks t = t.tv_sec * 10000 + t.tv_usec / 100

abbrev pub IsTime : TimeVal → Type 0
IsTime t = t.tv_usec < 1000000

-- A time stamp is the time in units of 1/10000 s, modulo six seconds.
pub get_query_timestamp-ticks :
    (t : TimeVal) → IsTime t → get_query_timestamp (some t) ≡ ticks t % 60000
unfolding get_query_timestamp
get_query_timestamp-ticks t h = omega arith

elapsed-mod : (a b : ℕ) → a ≤ b → b < a + 60000 → elapsed (b % 60000) (a % 60000) ≡ b - a
unfolding elapsed
elapsed-mod a b h k = ground arith

elapsed-lt : (now start : ℕ) → now < 60000 → start < 60000 → elapsed now start < 60000
unfolding elapsed
elapsed-lt now start h k = ground arith

-- The round trip time of an answer that comes back within six seconds is the time that has passed
-- since its query was stamped, in units of 1/10000 s, also where the time stamp has wrapped.
pub get_query_rtt-get_query_timestamp :
    (sent received : TimeVal)
    → IsTime sent
    → IsTime received
    → ticks sent ≤ ticks received
    → ticks received < ticks sent + 60000
    → get_query_rtt (some received) (get_query_timestamp (some sent)) ≡ ticks received - ticks sent
unfolding get_query_rtt
get_query_rtt-get_query_timestamp sent received hs hr order near =
    rw (get_query_rtt, get_query_timestamp-ticks sent hs, get_query_timestamp-ticks received hr)
      (elapsed-mod (ticks sent) (ticks received) order near)

-- Whatever the clock says, an answer whose ID is a time stamp has a round trip time below six
-- seconds.
pub get_query_rtt-lt :
    (t : TimeVal) (start : ℕ) → IsTime t → start < 60000 → get_query_rtt (some t) start < 60000
unfolding get_query_rtt
get_query_rtt-lt t start h k =
    rw (get_query_timestamp-ticks t h) (elapsed-lt (ticks t % 60000) start (omega arith) k)
