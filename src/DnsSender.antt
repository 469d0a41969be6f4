-- ===== src/DnsSender.antt =====
-- src/dns_sender.cpp: the query rates of a session, how they are shared among the threads, and the results.
-- Milliseconds are fractions, and round trip times are in units of 1/10000 s.
pub mod Rates
pub mod Prepare
pub mod Params
pub mod Threads
pub mod Totals
pub mod Report
pub mod Main
mod Tests
use dnsmeter.Base.{
  single, ℤ, pos, ℕ, zero, suc, ◌+◌, ◌-◌, ◌*◌, ◌/◌, ◌%◌, ◌^◌, Bool, List, [], ◌∷◌, Option, none,
  some, ltb, leb, ◌==◌, if◌then◌else◌, sub64, u64,
}
use mathlib.Core.Option
use dnsmeter.Exceptions.{Result, ok, throw, ◌>>=◌}
use dnsmeter.RawSocketReceiver.{Counter}
use dnsmeter.DnsSenderThread.{DnsSenderThread, Ratio, set_timeslice}

-- The loop of `getQueryRates` over a range, on fuel; a rate is a 64-bit word.
unfoldable pub range_loop : ℕ → ℕ → ℕ → ℕ → Option (List ℕ)
range_loop zero i last step = none
range_loop (suc fuel) i last step =
    let more = range_loop fuel (u64 (i + step)) last step in
    if leb i last then Option.map (λ (l : List ℕ). i ∷ l) more else some []

-- `calcTimeslice`, on values of the type `float`: the milliseconds between two queries of a thread, at least a tenth.
unfoldable pub calc_timeslice : ℕ → ℕ → Ratio
calc_timeslice thread_count queryrate =
    let (rate, rate_den) = single queryrate 1 in
    let (threads, threads_den) = single thread_count 1 in
    let (pause, pause_den) = single (1000 * rate_den) rate in
    let (slice, slice_den) = single (pause * threads) (pause_den * threads_den) in
    let (tenth, tenth_den) = single 1 10 in
    if ltb (slice * tenth_den) (tenth * slice_den)
    then record { num = tenth; den = tenth_den }
    else record { num = slice; den = slice_den }

-- The loop of `run` over the threads: `setQueryRate` and `setTimeslice`.
unfoldable pub set_rates : ℕ → Ratio → List DnsSenderThread → Result (List DnsSenderThread)
set_rates rate timeslice [] = ok []
set_rates rate timeslice (t ∷ ts) = do
  u ← set_timeslice (record t { queryrate = rate }) timeslice
  us ← set_rates rate timeslice ts
  ok (u ∷ us)

-- `run` up to the start of the threads. `timeslices` is that of the run before, or 1 ms. The result has the
-- new one, and the threads.
unfoldable pub configure :
    ℕ → Ratio → ℕ → List DnsSenderThread → Result (Ratio × List DnsSenderThread)
configure thread_count timeslices queryrate ts =
    let slices = if queryrate == 0 then timeslices else calc_timeslice thread_count queryrate in
    do us ← set_rates (queryrate / thread_count) slices ts; ok (slices, us)

-- `DNSSender::Results`; `rtt_avg` is a dividend and a divisor.
pub record Results : Type 0 where
  pub queryrate : ℤ
  pub counter_send : ℕ
  pub counter_received : ℕ
  pub bytes_send : ℕ
  pub bytes_received : ℕ
  pub counter_errors : ℕ
  pub packages_lost : ℕ
  pub counter_0bytes : ℕ
  pub counter_errorcodes : ℕ → ℕ
  pub rtt_total : ℤ
  pub rtt_avg : ℤ × ℕ
  pub rtt_min : ℤ
  pub rtt_max : ℤ
  pub rcodes : ℕ → ℕ
  pub truncated : ℕ

-- `Results::Results`. The numbers behind the 255 and 16 entries of its arrays are those of the memory.
abbrev pub new_results : (ℕ → ℕ) × (ℕ → ℕ) → Results
new_results (errorcodes, codes) = record {
  queryrate = pos 0;
  counter_send = 0;
  counter_received = 0;
  bytes_send = 0;
  bytes_received = 0;
  counter_errors = 0;
  packages_lost = 0;
  counter_0bytes = 0;
  counter_errorcodes = λ i. if ltb i 255 then 0 else errorcodes i;
  rtt_total = pos 0;
  rtt_avg = (pos 0, 1);
  rtt_min = pos 0;
  rtt_max = pos 0;
  rcodes = λ i. if ltb i 16 then 0 else codes i;
  truncated = 0;
}

-- `Results::clear`, of arrays of 255 and 16 entries.
unfoldable pub clear : Results → Results
clear r = record {
  queryrate = pos 0;
  counter_send = 0;
  counter_received = 0;
  bytes_send = 0;
  bytes_received = 0;
  counter_errors = 0;
  packages_lost = 0;
  counter_0bytes = 0;
  counter_errorcodes = λ i. if ltb i 255 then 0 else r.counter_errorcodes i;
  rtt_total = pos 0;
  rtt_avg = (pos 0, 1);
  rtt_min = pos 0;
  rtt_max = pos 0;
  rcodes = λ i. if ltb i 16 then 0 else r.rcodes i;
  truncated = 0;
}

-- The body of the loop of `getResults` over the threads.
unfoldable pub add_thread : Results → DnsSenderThread → Results
add_thread r t = record r {
  counter_send = r.counter_send + t.counter_packets_send;
  bytes_send = r.bytes_send + t.counter_bytes_send;
  counter_errors = r.counter_errors + t.errors;
  counter_0bytes = r.counter_0bytes + t.counter_0bytes;
  counter_errorcodes = λ i.
      if ltb i 255 then r.counter_errorcodes i + t.counter_errorcodes i else r.counter_errorcodes i;
}

unfoldable pub add_threads : Results → List DnsSenderThread → Results
add_threads r [] = r
add_threads r (t ∷ ts) = add_threads (add_thread r t) ts

-- The counters of the receiver, where there is one.
unfoldable pub add_receiver : Results → Option Counter → Results
add_receiver r none = r
add_receiver r (some c) = record r {
  counter_received = c.num_pkgs;
  bytes_received = c.bytes_rcv;
  rtt_total = pos c.rtt_total;
  rtt_avg = if c.num_pkgs == 0 then (pos 0, 1) else (pos c.rtt_total, c.num_pkgs);
  rtt_min = pos c.rtt_min;
  rtt_max = pos c.rtt_max;
  rcodes = λ i. if ltb i 16 then c.rcodes i else r.rcodes i;
  truncated = c.truncated;
}

unfoldable pub count_lost : Results → Results
count_lost r = record r {
  packages_lost =
      if ltb r.counter_send r.counter_received then 0 else sub64 r.counter_send r.counter_received;
}

unfoldable pub get_results : Results → List DnsSenderThread → Option Counter → Results
get_results r ts receiver = count_lost (add_receiver (add_threads (clear r) ts) receiver)
