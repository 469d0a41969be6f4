-- ===== src/DnsSenderThread/Whole.antt =====
-- src/dns_sender_thread.cpp: what a whole run has sent and counted.
use native.Mathlib.Nat.{add-zero}
use mathlib.Core.Option.{some-injective}
use dnsmeter.Base.{
  ℕ, zero, suc, ◌+◌, ◌*◌, ◌%◌, ◌≤◌, ◌<◌, ◌≡◌, refl, ap, sym, subst, ◌∙◌, map, Bool, true, List, [],
  ◌∷◌, some, arith, length, get_elem?, All, inl, inr, Bool-cases, Option-cases, ltb, Memory,
  IsBytes,
}
use dnsmeter.Exceptions.{ok}
use dnsmeter.Pplib.{ByteArray}
use dnsmeter.Packet.Sequence.{next, source}
use dnsmeter.PayloadFile.{PayloadFile}
use dnsmeter.PayloadFile.RoundRobin.{get_query-turn}
use dnsmeter.DnsSenderThread.{DnsSenderThread, Attempt, send_query, start_run}
use dnsmeter.DnsSenderThread.Counters.{attempts, send_packet-first}
use dnsmeter.DnsSenderThread.Loops.{total_timeslices, wait_for_timeout}
use dnsmeter.DnsSenderThread.Pace.{Calm, Reaches, slice_of, run_with_rate_limit-IsEven}
use dnsmeter.DnsSenderThread.Ends.{IsOver, wait_for_timeout-IsOver}
use dnsmeter.DnsSenderThread.Sending.{
  Sending, after, send_one, send_queries, Timing, wait_after, send_all, run_thread,
}
use dnsmeter.DnsSenderThread.Run.{send_with_rate_limit-send_queries}
use dnsmeter.DnsSenderThread.Ready.{IsLoadable, IsReady, send_query-IsReady}

-- There is an attempt for each of `n` calls of `sendPacket`.
abbrev pub Supplied : ℕ → List (List Attempt) → Type 0
Supplied zero calls = Unit
Supplied (suc n) [] = ⊥
Supplied (suc n) ([] ∷ calls) = ⊥
Supplied (suc n) ((a ∷ later) ∷ calls) = Supplied n calls

-- The payload stands at turn `k`, and its queries fit.
pub record IsPayload (pcap : Bool) (k : ℕ) (f : PayloadFile) : Type 0 where
  pub some_query : 0 < length f.querycache
  pub turn : f.it ≡ k % length f.querycache
  pub loadable : All (IsLoadable pcap) f.querycache

pub get_elem?-All :
    (P : ByteArray → Type 0) (qs : List ByteArray) (i : ℕ) (q : ByteArray)
    → All P qs
    → get_elem? qs i ≡ some q
    → P q
get_elem?-All P [] i q all e = cc
get_elem?-All P (x ∷ qs) zero q (p, all) e = subst P (some-injective x q e) p
get_elem?-All P (x ∷ qs) (suc i) q (p, all) e = get_elem?-All P qs i q all e

-- One call.
send_one-IsReady :
    (heap : Memory) (bytes : IsBytes heap) (t : DnsSenderThread) (f : PayloadFile) (k : ℕ)
    (a : Attempt) (more : List Attempt) (calls : List (List Attempt))
    → IsReady heap t
    → IsPayload t.payload_is_pcap k f
    → (u : DnsSenderThread) × (g : PayloadFile) × (send_one
          (record { thread = t; payload = f; calls = (a ∷ more) ∷ calls })
        ≡ some (ok tt, record { thread = u; payload = g; calls = calls }))
      × IsReady heap u
      × IsPayload u.payload_is_pcap (k + 1) g
      × (attempts u ≡ attempts t + 1)
      × (u.timeout ≡ t.timeout)
unfolding send_one
send_one-IsReady heap bytes t f k a more calls ready p =
    let (q, found, called) = get_query-turn f k p.some_query p.turn in
    let l =
      get_elem?-All (IsLoadable t.payload_is_pcap) f.querycache (k % length f.querycache) q
        p.loadable found in
    let (returns, ready', once, pcap, timeout) = send_query-IsReady heap bytes t a q ready l in
    let u = (send_query t a q).1 in
    let g = record f { it = (k + 1) % length f.querycache } in
    let sent = send_packet-first a more t f g q called in
    (
      u,
      g,
      rw (sent, send_one) (rw returns refl),
      ready',
      record {
        some_query = p.some_query;
        turn = refl;
        loadable = subst (λ (b : Bool). All (IsLoadable b) f.querycache) (sym pcap) p.loadable;
      },
      once,
      timeout,
    )

-- `n` calls: each counts one packet.
pub send_queries-IsReady :
    (n : ℕ) (heap : Memory) (bytes : IsBytes heap) (t : DnsSenderThread) (f : PayloadFile) (k : ℕ)
    (calls : List (List Attempt))
    → IsReady heap t
    → IsPayload t.payload_is_pcap k f
    → Supplied n calls
    → (s : Sending) × (send_queries n (record { thread = t; payload = f; calls = calls })
        ≡ some (ok tt, s))
      × IsReady heap s.thread
      × (attempts s.thread ≡ attempts t + n)
      × (s.payload.it ≡ (k + n) % length s.payload.querycache)
      × (s.thread.timeout ≡ t.timeout)
unfolding send_queries
send_queries-IsReady zero heap bytes t f k calls ready p supplied = (
  record { thread = t; payload = f; calls = calls },
  refl,
  ready,
  omega arith,
  p.turn ∙ ap (λ (i : ℕ). i % length f.querycache) (sym (add-zero k)),
  refl,
)
send_queries-IsReady (suc n) heap bytes t f k [] ready p supplied = elim supplied [ ]
send_queries-IsReady (suc n) heap bytes t f k ([] ∷ calls) ready p supplied = elim supplied [ ]
send_queries-IsReady (suc n) heap bytes t f k ((a ∷ more) ∷ calls) ready p supplied =
    let (u, g, sent, ready', p', once, same) =
      send_one-IsReady heap bytes t f k a more calls ready p in
    let (s, rest, last, counted, turn, timeout) =
      send_queries-IsReady n heap bytes u g (k + 1) calls ready' p' supplied in
    (
      s,
      rw sent rest,
      last,
      omega (arith, counted, once),
      turn ∙ ap (λ (i : ℕ). i % length s.payload.querycache) (omega arith),
      timeout ∙ same,
    )

pub start_run-IsReady :
    (heap : Memory) (t : DnsSenderThread) → IsReady heap t → IsReady heap (start_run t)
unfolding start_run
start_run-IsReady heap t ready = record {
  reached = elim (Bool-cases t.spoofing_enabled) [
    | inl b ↦ simp b ready.reached
    | inr b ↦ simp b (next ready.reached (source t.sourceip.addr 0x4567))
  ];
  buffer = ready.buffer;
  destined = ready.destined;
}

waited :
    (w : Timing) (s : Sending) (timeout : ℕ)
    → s.thread.timeout ≡ timeout
    → Reaches (w.wait_start + timeout * 1000000000) (map (λ (l : ℕ × Bool). l.0) w.waiting)
    → wait_after w s ≡ some (ok tt, s)
unfolding wait_after IsOver
waited w s timeout same h =
    let h' : Reaches (w.wait_start + s.thread.timeout * 1000000000)
        (map (λ (l : ℕ × Bool). l.0) w.waiting) =
      rw same h in
    let over = wait_for_timeout-IsOver s.thread w.wait_start w.waiting h' in
    elim (Option-cases (wait_for_timeout s.thread w.wait_start w.waiting)) [
      | inl e ↦ absurd (subst (IsOver (w.wait_start + s.thread.timeout * 1000000000)) e over)
      | inr (r, e) ↦ rw (e, wait_after) refl
    ]

-- The loop and the wait, from any counters.
started :
    (fuel : ℕ) (w : Timing) (heap : Memory) (bytes : IsBytes heap) (t : DnsSenderThread)
    (f : PayloadFile) (k : ℕ) (calls : List (List Attempt))
    → IsReady heap t
    → IsPayload t.payload_is_pcap k f
    → 0 < t.queryrate
    → 1 ≤ total_timeslices t
    → Calm (slice_of t) (w.start + t.runtime * 1000000000) (total_timeslices t) w.now w.moments
    → Supplied (t.runtime * t.queryrate) calls
    → Reaches (w.wait_start + t.timeout * 1000000000) (map (λ (l : ℕ × Bool). l.0) w.waiting)
    → (s : Sending) × (after
          (send_all fuel w (record { thread = t; payload = f; calls = calls }))
          (wait_after w)
        ≡ some (ok tt, s))
      × IsReady heap s.thread
      × (attempts s.thread ≡ attempts t + t.runtime * t.queryrate)
unfolding send_all
started fuel w heap bytes t f k calls ready p rate one calm supplied waits =
    let (ns, sends, even) = run_with_rate_limit-IsEven t w.now w.start w.moments one calm in
    let (s, sent, ready', counted, _, timeout) =
      send_queries-IsReady (t.runtime * t.queryrate) heap bytes t f k calls ready p supplied in
    let limited : ltb 0 t.queryrate ≡ true = ground arith in
    let loop =
      send_with_rate_limit-send_queries w.now w.start w.moments
        (record { thread = t; payload = f; calls = calls }) ns sends in
    (
      s,
      rw (limited, loop, even.all_sent, sent) (waited w s t.timeout timeout waits),
      ready',
      counted,
    )

-- A rate-limited run of a thread that is ready, on a payload whose queries fit, returns, where the clock passes the end
-- of each slice and of the timeout, and nobody asks to stop early. It has counted, as sent, as sent in part or
-- as an error, exactly the rate times the runtime, and its thread is ready for another run.
pub run_thread-attempts :
    (fuel : ℕ) (w : Timing) (heap : Memory) (bytes : IsBytes heap) (t : DnsSenderThread)
    (f : PayloadFile) (k : ℕ) (calls : List (List Attempt))
    → IsReady heap t
    → IsPayload t.payload_is_pcap k f
    → 0 < t.queryrate
    → 1 ≤ total_timeslices t
    → Calm (slice_of t) (w.start + t.runtime * 1000000000) (total_timeslices t) w.now w.moments
    → Supplied (t.runtime * t.queryrate) calls
    → Reaches (w.wait_start + t.timeout * 1000000000) (map (λ (l : ℕ × Bool). l.0) w.waiting)
    → (u : DnsSenderThread) × (run_thread fuel w t (some f) calls ≡ some (ok tt, u))
      × IsReady heap u
      × (attempts u ≡ t.runtime * t.queryrate)
unfolding run_thread start_run total_timeslices
run_thread-attempts fuel w heap bytes t f k calls ready p rate one calm supplied waits =
    let (s, ran, ready', counted) =
      started fuel w heap bytes (start_run t) f k calls (start_run-IsReady heap t ready) p rate one
        calm supplied waits in
    (s.thread, rw (ran, run_thread) refl, ready', omega (arith, counted))
