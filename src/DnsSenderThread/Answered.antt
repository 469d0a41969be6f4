-- ===== src/DnsSenderThread/Answered.antt =====
-- src/dns_sender_thread.cpp: which counters a round of `sendPacket` changes, by the answer of the kernel.
use dnsmeter.Base.{
  ℕ, ◌+◌, ◌≡◌, refl, Bool, true, false, ◌&&◌, ◌||◌, arith, ltb, ◌==◌, if◌then◌else◌, inl, inr,
}
use dnsmeter.Exceptions.{Result, Result-cases, ok, throw}
use dnsmeter.Pplib.{ByteArray}
use dnsmeter.Packet.{Packet, size, set_payload}
use dnsmeter.RawSocketSender.{send}
use dnsmeter.DnsSenderThread.{
  DnsSenderThread, Attempt, Sendto, returned, failed, load_query, prepare, count_answer,
  send_prepared, send_query,
}

-- The kernel has taken the whole packet.
abbrev pub is_whole : Sendto → Packet → Bool
is_whole (returned n) p = ltb 0 n && n == size p
is_whole (failed errno) p = false

abbrev pub is_failed : Sendto → Bool
is_failed (returned n) = false
is_failed (failed errno) = true

abbrev pub is_errno : Sendto → ℕ → Bool
is_errno (returned n) i = false
is_errno (failed errno) i = errno == i && ltb i 255

-- The counters of `t'` are those of `t` with the answer `s` of the kernel: a whole packet is counted as sent, with
-- its size, a failed one as an error, with its code below 255, and any other as one of 0 bytes.
pub record IsAnswered (t : DnsSenderThread) (s : Sendto) (t' : DnsSenderThread) : Type 0 where
  pub whole :
      t'.counter_packets_send ≡ t.counter_packets_send + (if is_whole s t'.pkt then 1 else 0)
  pub bytes :
      t'.counter_bytes_send ≡ t.counter_bytes_send + (if is_whole s t'.pkt then size t'.pkt else 0)
  pub failures : t'.errors ≡ t.errors + (if is_failed s then 1 else 0)
  pub rest :
      t'.counter_0bytes ≡ t.counter_0bytes + (if is_whole s t'.pkt || is_failed s then 0 else 1)
  pub codes :
      (i : ℕ) → t'.counter_errorcodes i ≡ t.counter_errorcodes i + (if is_errno s i then 1 else 0)

-- The counters are the same.
pub record IsUncounted (t t' : DnsSenderThread) : Type 0 where
  pub sent : t'.counter_packets_send ≡ t.counter_packets_send
  pub bytes : t'.counter_bytes_send ≡ t.counter_bytes_send
  pub failures : t'.errors ≡ t.errors
  pub rest : t'.counter_0bytes ≡ t.counter_0bytes
  pub codes : (i : ℕ) → t'.counter_errorcodes i ≡ t.counter_errorcodes i

abbrev pub Answered : DnsSenderThread → Sendto → Result (Unit {0}) × DnsSenderThread → Type 0
Answered t s (ok _, t') = IsAnswered t s t'
Answered t s (throw e, t') = IsUncounted t t'

count_answer-Answered : (t : DnsSenderThread) (s : Sendto) → Answered t s (ok tt, count_answer t s)
unfolding count_answer
count_answer-Answered t (returned n) = record {
  whole = ground arith;
  bytes = ground arith;
  failures = ground arith;
  rest = ground arith;
  codes = λ i. ground arith;
}
count_answer-Answered t (failed errno) = record {
  whole = omega arith;
  bytes = omega arith;
  failures = omega arith;
  rest = omega arith;
  codes = λ i. ground arith;
}

prepared-IsUncounted :
    (t : DnsSenderThread) (a : Attempt) (q : ByteArray) (pkt : Packet)
    → IsUncounted t (prepare (load_query t q).1 a q pkt)
unfolding prepare load_query
prepared-IsUncounted t a q pkt = record {
  sent = ground arith;
  bytes = ground arith;
  failures = ground arith;
  rest = ground arith;
  codes = λ i. ground arith;
}

load_query-IsUncounted : (t : DnsSenderThread) (q : ByteArray) → IsUncounted t (load_query t q).1
unfolding load_query
load_query-IsUncounted t q = record {
  sent = ground arith;
  bytes = ground arith;
  failures = ground arith;
  rest = ground arith;
  codes = λ i. ground arith;
}

IsUncounted-Answered :
    (t u : DnsSenderThread) (s : Sendto) (r : Result (Unit {0}) × DnsSenderThread)
    → IsUncounted t u
    → Answered u s r
    → Answered t s r
IsUncounted-Answered t u s (ok _, t') same c = record {
  whole = omega (arith, c.whole, same.sent);
  bytes = omega (arith, c.bytes, same.bytes);
  failures = omega (arith, c.failures, same.failures);
  rest = omega (arith, c.rest, same.rest);
  codes = λ i. omega (arith, c.codes i, same.codes i);
}
IsUncounted-Answered t u s (throw e, t') same c = record {
  sent = omega (arith, c.sent, same.sent);
  bytes = omega (arith, c.bytes, same.bytes);
  failures = omega (arith, c.failures, same.failures);
  rest = omega (arith, c.rest, same.rest);
  codes = λ i. omega (arith, c.codes i, same.codes i);
}

send_prepared-Answered :
    (t : DnsSenderThread) (a : Attempt) → Answered t a.answer (send_prepared t a)
unfolding send_prepared
send_prepared-Answered t a = elim (Result-cases (send t.socket t.pkt)) [
  | inl (handed, e) ↦
      rw (e, send_prepared)
        (IsUncounted-Answered t (record t { pkt = handed }) a.answer
          (ok tt, count_answer (record t { pkt = handed }) a.answer)
          (record { sent = refl; bytes = refl; failures = refl; rest = refl; codes = λ i. refl })
          (count_answer-Answered (record t { pkt = handed }) a.answer))
  | inr (x, e) ↦
      rw (e, send_prepared)
        (record { sent = refl; bytes = refl; failures = refl; rest = refl; codes = λ i. refl })
]

-- A round that returns counts the answer of the kernel: as sent, with its bytes, the packet that the kernel has
-- taken whole, as an error, with its code if that is below 255, a call that has failed, and under the third counter
-- any other. A round that throws changes no counter.
pub send_query-Answered :
    (t : DnsSenderThread) (a : Attempt) (q : ByteArray) → Answered t a.answer (send_query t a q)
unfolding send_query
send_query-Answered t a q =
    let (n, loaded) = load_query t q in
    elim (Result-cases (set_payload loaded.pkt loaded.buffer 0 n)) [
      | inl (pkt, e) ↦
          rw (e, send_query)
            (IsUncounted-Answered t (prepare loaded a q pkt) a.answer
              (send_prepared (prepare loaded a q pkt) a) (prepared-IsUncounted t a q pkt)
              (send_prepared-Answered (prepare loaded a q pkt) a))
      | inr (x, e) ↦ rw (e, send_query) (load_query-IsUncounted t q)
    ]
