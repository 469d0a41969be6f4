-- ===== src/DnsSender/Totals.antt =====
-- src/dns_sender.cpp: what `getResults` gives of the threads and the receiver.
use dnsmeter.Base.{
  if◌then◌else◌, ◌==◌, pos, ℕ, ◌+◌, ◌-◌, ◌^◌, ◌<◌, ◌≡◌, refl, List, [], ◌∷◌, map, some, arith, sum,
}
use dnsmeter.RawSocketReceiver.{Counter}
use dnsmeter.DnsSenderThread.{DnsSenderThread}
use dnsmeter.DnsSender.{
  Results, clear, add_thread, add_threads, add_receiver, count_lost, get_results,
}

-- The threads' share of the results.
pub record IsSum (r : Results) (ts : List DnsSenderThread) (r' : Results) : Type 0 where
  pub sent :
      r'.counter_send
      ≡ r.counter_send + sum (map (λ (t : DnsSenderThread). t.counter_packets_send) ts)
  pub bytes :
      r'.bytes_send ≡ r.bytes_send + sum (map (λ (t : DnsSenderThread). t.counter_bytes_send) ts)
  pub errors :
      r'.counter_errors ≡ r.counter_errors + sum (map (λ (t : DnsSenderThread). t.errors) ts)
  pub empty :
      r'.counter_0bytes
      ≡ r.counter_0bytes + sum (map (λ (t : DnsSenderThread). t.counter_0bytes) ts)
  pub received : r'.counter_received ≡ r.counter_received

pub add_threads-IsSum : (ts : List DnsSenderThread) (r : Results) → IsSum r ts (add_threads r ts)
unfolding add_threads add_thread
add_threads-IsSum [] r = record {
  sent = omega arith;
  bytes = omega arith;
  errors = omega arith;
  empty = omega arith;
  received = refl;
}
add_threads-IsSum (t ∷ ts) r =
    let s = add_threads-IsSum ts (add_thread r t) in
    record {
      sent = omega (arith, s.sent);
      bytes = omega (arith, s.bytes);
      errors = omega (arith, s.errors);
      empty = omega (arith, s.empty);
      received = s.received;
    }

add_threads-counter_errorcodes :
    (ts : List DnsSenderThread) (r : Results) (i : ℕ)
    → i < 255
    → (add_threads r ts).counter_errorcodes i
      ≡ r.counter_errorcodes i + sum (map (λ (t : DnsSenderThread). t.counter_errorcodes i) ts)
unfolding add_threads add_thread
add_threads-counter_errorcodes [] r i h = omega arith
add_threads-counter_errorcodes (t ∷ ts) r i h =
    ground (arith, add_threads-counter_errorcodes ts (add_thread r t) i h)

-- The results, whatever they held before: the sums over the threads, all counters of the receiver, and as lost the
-- queries without an answer, or 0 where there are more answers than queries.
pub record IsResult (ts : List DnsSenderThread) (c : Counter) (r : Results) : Type 0 where
  pub queryrate : r.queryrate ≡ pos 0
  pub sent : r.counter_send ≡ sum (map (λ (t : DnsSenderThread). t.counter_packets_send) ts)
  pub bytes : r.bytes_send ≡ sum (map (λ (t : DnsSenderThread). t.counter_bytes_send) ts)
  pub errors : r.counter_errors ≡ sum (map (λ (t : DnsSenderThread). t.errors) ts)
  pub empty : r.counter_0bytes ≡ sum (map (λ (t : DnsSenderThread). t.counter_0bytes) ts)
  pub received : r.counter_received ≡ c.num_pkgs
  pub lost : r.packages_lost ≡ r.counter_send - r.counter_received
  pub truncated : r.truncated ≡ c.truncated
  pub received_bytes : r.bytes_received ≡ c.bytes_rcv
  pub rtt_total : r.rtt_total ≡ pos c.rtt_total
  pub rtt_average :
      r.rtt_avg ≡ (if c.num_pkgs == 0 then (pos 0, 1) else (pos c.rtt_total, c.num_pkgs))
  pub rtt_shortest : r.rtt_min ≡ pos c.rtt_min
  pub rtt_longest : r.rtt_max ≡ pos c.rtt_max
  pub codes : (i : ℕ) → i < 16 → r.rcodes i ≡ c.rcodes i
  pub error_codes :
      (i : ℕ)
      → i < 255
      → r.counter_errorcodes i ≡ sum (map (λ (t : DnsSenderThread). t.counter_errorcodes i) ts)

add_threads-queryrate :
    (ts : List DnsSenderThread) (r : Results) → (add_threads r ts).queryrate ≡ r.queryrate
unfolding add_threads add_thread
add_threads-queryrate [] r = refl
add_threads-queryrate (t ∷ ts) r = add_threads-queryrate ts (add_thread r t)

-- `getResults` gives the sums of the threads' counters and the receiver's counters, and as lost the queries
-- without an answer, or 0 where there are more answers than queries, whatever the results held before; the
-- query rate that they held is cleared. The number of queries has to fit 64 bits.
pub get_results-IsResult :
    (r : Results) (ts : List DnsSenderThread) (c : Counter)
    → sum (map (λ (t : DnsSenderThread). t.counter_packets_send) ts) < 2 ^ 64
    → IsResult ts c (get_results r ts (some c))
unfolding get_results count_lost add_receiver clear
get_results-IsResult r ts c small =
    let s = add_threads-IsSum ts (clear r) in
    record {
      queryrate = add_threads-queryrate ts (clear r);
      sent = omega (arith, s.sent);
      bytes = omega (arith, s.bytes);
      errors = omega (arith, s.errors);
      empty = omega (arith, s.empty);
      received = refl;
      lost = ground (arith, s.sent);
      truncated = refl;
      received_bytes = refl;
      rtt_total = refl;
      rtt_average = refl;
      rtt_shortest = refl;
      rtt_longest = refl;
      codes = λ i h. ground (arith, h);
      error_codes = λ i h. ground (arith, h, add_threads-counter_errorcodes ts (clear r) i h);
    }
