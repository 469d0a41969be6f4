-- ===== src/DnsSenderThread/Counters.antt =====
-- src/dns_sender_thread.cpp: the counters of a thread, over the rounds of `sendPacket`.
use dnsmeter.Base.{ℕ, ◌+◌, ◌≤◌, ◌≡◌, ◌⊎◌, refl, List, ◌∷◌, some, arith, inl, inr}
use dnsmeter.Exceptions.{
  Exception, Result, Result-cases, ok, throw, buffer_overflow, unknown_destination,
}
use dnsmeter.Pplib.{ByteArray}
use dnsmeter.Packet.{Packet, set_payload}
use dnsmeter.PayloadFile.{PayloadFile, get_query}
use dnsmeter.RawSocketSender.{send}
use dnsmeter.DnsSenderThread.{
  DnsSenderThread, Attempt, Sendto, returned, failed, load_query, prepare, count_answer,
  send_prepared, send_query, send_packet, catch,
}

-- The packets that the thread has tried to send.
abbrev pub attempts : DnsSenderThread → ℕ
attempts t = t.counter_packets_send + t.counter_0bytes + t.errors

-- The sum of the counters goes up by one in a round that returns, and stays in one that throws.
abbrev pub Counted : DnsSenderThread → Result (Unit {0}) × DnsSenderThread → Type 0
Counted t (ok _, t') =
    (attempts t' ≡ attempts t + 1)
    × (t.counter_packets_send ≤ t'.counter_packets_send)
    × (t.counter_0bytes ≤ t'.counter_0bytes)
    × (t.errors ≤ t'.errors)
Counted t (throw e, t') = attempts t' ≡ attempts t

-- The two exceptions that a round of `sendPacket` can end with.
abbrev pub Leaves : Result (Unit {0}) → Type 0
Leaves (ok _) = Unit
Leaves (throw e) = (e ≡ buffer_overflow) ⊎ (e ≡ unknown_destination)

count_answer-Counted : (t : DnsSenderThread) (a : Sendto) → Counted t (ok tt, count_answer t a)
unfolding count_answer
count_answer-Counted t (returned n) = ground arith
count_answer-Counted t (failed errno) = ground arith

abbrev SameCounters : DnsSenderThread → DnsSenderThread → Type 0
SameCounters t u =
    (u.counter_packets_send ≡ t.counter_packets_send)
    × (u.counter_0bytes ≡ t.counter_0bytes)
    × (u.errors ≡ t.errors)

load_query-SameCounters : (t : DnsSenderThread) (q : ByteArray) → SameCounters t (load_query t q).1
unfolding load_query
load_query-SameCounters t q = ground arith

prepared-SameCounters :
    (t : DnsSenderThread) (a : Attempt) (q : ByteArray) (pkt : Packet)
    → SameCounters t (prepare (load_query t q).1 a q pkt)
unfolding prepare
prepared-SameCounters t a q pkt = load_query-SameCounters t q

SameCounters-Counted :
    (t u : DnsSenderThread) (r : Result (Unit {0}) × DnsSenderThread)
    → SameCounters t u
    → Counted u r
    → Counted t r
SameCounters-Counted t u (ok _, t') same c = omega arith
SameCounters-Counted t u (throw e, t') same c = omega arith

send-throw :
    (t : DnsSenderThread) (e : Exception) → send t.socket t.pkt ≡ throw e → e ≡ unknown_destination
unfolding send
send-throw t e h = ground arith

set_payload-buffer_overflow :
    (p : Packet) (m : ℕ → ℕ) (n : ℕ) (e : Exception)
    → set_payload p m 0 n ≡ throw e
    → e ≡ buffer_overflow
unfolding set_payload
set_payload-buffer_overflow p m n e h = ground arith

send_prepared-Counted : (t : DnsSenderThread) (a : Attempt) → Counted t (send_prepared t a)
unfolding send_prepared
send_prepared-Counted t a = elim (Result-cases (send t.socket t.pkt)) [
  | inl (handed, e) ↦
      rw (e, send_prepared) (count_answer-Counted (record t { pkt = handed }) a.answer)
  | inr (x, e) ↦ rw (e, send_prepared) refl
]

send_prepared-Leaves : (t : DnsSenderThread) (a : Attempt) → Leaves (send_prepared t a).0
unfolding send_prepared
send_prepared-Leaves t a = elim (Result-cases (send t.socket t.pkt)) [
  | inl (handed, e) ↦ rw (e, send_prepared) tt
  | inr (x, e) ↦ rw (e, send_prepared) (inr (send-throw t x e))
]

-- A round returns, or throws `BufferOverflow` or `UnknownDestination`.
pub send_query-Leaves :
    (t : DnsSenderThread) (a : Attempt) (q : ByteArray) → Leaves (send_query t a q).0
unfolding send_query
send_query-Leaves t a q =
    let (n, loaded) = load_query t q in
    elim (Result-cases (set_payload loaded.pkt loaded.buffer 0 n)) [
      | inl (pkt, e) ↦ rw (e, send_query) (send_prepared-Leaves (prepare loaded a q pkt) a)
      | inr (x, e) ↦
          rw (e, send_query) (inl (set_payload-buffer_overflow loaded.pkt loaded.buffer n x e))
    ]

-- Each round counts one packet, under one of the three counters, if it returns, and none if it throws.
pub send_query-Counted :
    (t : DnsSenderThread) (a : Attempt) (q : ByteArray) → Counted t (send_query t a q)
unfolding send_query
send_query-Counted t a q =
    let (n, loaded) = load_query t q in
    elim (Result-cases (set_payload loaded.pkt loaded.buffer 0 n)) [
      | inl (pkt, e) ↦
          rw (e, send_query)
            (SameCounters-Counted t (prepare loaded a q pkt)
              (send_prepared (prepare loaded a q pkt) a) (prepared-SameCounters t a q pkt)
              (send_prepared-Counted (prepare loaded a q pkt) a))
      | inr (x, e) ↦
          rw (e, send_query)
            (SameCounters-Counted t loaded (throw x, loaded) (load_query-SameCounters t q) refl)
    ]

catch-Leaves {ℓ} :
    {A : Type ℓ} (r : Result (Unit {0})) (again leave : A) → Leaves r → catch r again leave ≡ leave
unfolding catch
catch-Leaves (ok u) again leave h = refl
catch-Leaves (throw e) again leave (inl h) = rw h refl
catch-Leaves (throw e) again leave (inr h) = rw h refl

-- `sendPacket` on a payload with queries ends in its first round: no round throws one of the exceptions that
-- lead to another.
pub send_packet-first :
    (a : Attempt) (later : List Attempt) (t : DnsSenderThread) (f g : PayloadFile) (q : ByteArray)
    → get_query f ≡ some (q, g)
    → let (r, t') = send_query t a q in send_packet (a ∷ later) t f ≡ some (r, t', g)
unfolding send_packet
send_packet-first a later t f g q h =
    let (r, t') = send_query t a q in
    rw (h, send_packet) (catch-Leaves r _ _ (send_query-Leaves t a q))
