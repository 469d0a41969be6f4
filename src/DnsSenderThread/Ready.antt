-- ===== src/DnsSenderThread/Ready.antt =====
-- src/dns_sender_thread.cpp: a thread that is ready to send, and that `sendPacket` keeps it so.
use dnsmeter.Base.{
  ◌+◌, ◌-◌, ◌^◌, ◌≤◌, ◌<◌, ◌≡◌, ◌≢◌, refl, ap, sym, ◌∙◌, Bool, true, false, arith, subst,
  Bool-cases, inl, inr, Memory, IsBytes,
}
use dnsmeter.Exceptions.{Result, Result-cases, ok, throw}
use dnsmeter.Pplib.{ByteArray}
use dnsmeter.Query.{add_dnssec_to_query}
use dnsmeter.Packet.{Packet, new_packet, set_payload}
use dnsmeter.Packet.Sequence.{Reach}
use dnsmeter.RawSocketSender.{RawSocketSender, send}
use dnsmeter.DnsSenderThread.Counters.{attempts, Counted, send_query-Counted}
use dnsmeter.DnsSenderThread.Sent.{send_query-IsSent}
use dnsmeter.DnsSenderThread.{
  DnsSenderThread, Attempt, Sendto, returned, failed, load_query, prepare, count_answer,
  send_prepared, send_query,
}

-- A query that fits the packet: of a capture the headers are there, and of a text there is room for the
-- EDNS0 record.
unfoldable pub IsLoadable : Bool → ByteArray → Type 0
IsLoadable true q = IsBytes q.bytes × (42 ≤ q.size) × (q.size ≤ 4096)
IsLoadable false q = IsBytes q.bytes × (q.size + 11 ≤ 4068)

-- The thread has a destination and a buffer of bytes, and its packet has come about by calls on a new one.
pub record IsReady (heap : Memory) (t : DnsSenderThread) : Type 0 where
  pub reached : Reach (new_packet heap) t.pkt
  pub buffer : IsBytes t.buffer
  pub destined : t.socket.s_addr ≢ 2 ^ 32 - 1

captured :
    (t : DnsSenderThread) (q : ByteArray)
    → IsBytes t.buffer
    → t.payload_is_pcap ≡ true
    → IsLoadable true q
    → IsBytes (load_query t q).1.buffer × ((load_query t q).0 ≤ 4068)
unfolding load_query IsLoadable
captured t q b pcap (bytes, low, high) = (λ i. ground (arith, b i, bytes (42 + i)), ground arith)

compiled :
    (t : DnsSenderThread) (q : ByteArray)
    → IsBytes t.buffer
    → t.payload_is_pcap ≡ false
    → IsLoadable false q
    → IsBytes (load_query t q).1.buffer × ((load_query t q).0 ≤ 4068)
unfolding load_query IsLoadable add_dnssec_to_query
compiled t q b text (bytes, high) = (λ i. ground (arith, b i, bytes i, b 3, bytes 3), ground arith)

pub load_query-IsLoadable :
    (t : DnsSenderThread) (q : ByteArray)
    → IsBytes t.buffer
    → IsLoadable t.payload_is_pcap q
    → IsBytes (load_query t q).1.buffer × ((load_query t q).0 ≤ 4068)
load_query-IsLoadable t q b l = elim (Bool-cases t.payload_is_pcap) [
  | inl pcap ↦ captured t q b pcap (subst (λ (p : Bool). IsLoadable p q) pcap l)
  | inr text ↦ compiled t q b text (subst (λ (p : Bool). IsLoadable p q) text l)
]

-- What a round leaves as it is.
pub record Keeps (t u : DnsSenderThread) : Type 0 where
  pub socket : u.socket ≡ t.socket
  pub pcap : u.payload_is_pcap ≡ t.payload_is_pcap
  pub timeout : u.timeout ≡ t.timeout
  pub queryrate : u.queryrate ≡ t.queryrate
  pub runtime : u.runtime ≡ t.runtime

load_query-Keeps : (t : DnsSenderThread) (q : ByteArray) → Keeps t (load_query t q).1
unfolding load_query
load_query-Keeps t q = record {
  socket = ground arith;
  pcap = ground arith;
  timeout = ground arith;
  queryrate = ground arith;
  runtime = ground arith;
}

count_answer-Keeps :
    (t : DnsSenderThread) (s : Sendto)
    → Keeps t (count_answer t s) × ((count_answer t s).buffer ≡ t.buffer)
unfolding count_answer
count_answer-Keeps t (returned n) = (
  record {
    socket = ground arith;
    pcap = ground arith;
    timeout = ground arith;
    queryrate = ground arith;
    runtime = ground arith;
  },
  ground arith,
)
count_answer-Keeps t (failed errno) =
    (record { socket = refl; pcap = refl; timeout = refl; queryrate = refl; runtime = refl }, refl)

send_prepared-Keeps :
    (t : DnsSenderThread) (a : Attempt)
    → Keeps t (send_prepared t a).1 × ((send_prepared t a).1.buffer ≡ t.buffer)
unfolding send_prepared
send_prepared-Keeps t a = elim (Result-cases (send t.socket t.pkt)) [
  | inl (handed, e) ↦
      let (k, b) = count_answer-Keeps (record t { pkt = handed }) a.answer in
      rw (e, send_prepared)
        (
          record {
            socket = k.socket;
            pcap = k.pcap;
            timeout = k.timeout;
            queryrate = k.queryrate;
            runtime = k.runtime;
          },
          b,
        )
  | inr (x, e) ↦
      rw (e, send_prepared)
        (
          record { socket = refl; pcap = refl; timeout = refl; queryrate = refl; runtime = refl },
          refl,
        )
]

Keeps-trans : {t u v : DnsSenderThread} → Keeps t u → Keeps u v → Keeps t v
Keeps-trans k l = record {
  socket = l.socket ∙ k.socket;
  pcap = l.pcap ∙ k.pcap;
  timeout = l.timeout ∙ k.timeout;
  queryrate = l.queryrate ∙ k.queryrate;
  runtime = l.runtime ∙ k.runtime;
}

prepared-Keeps :
    (t : DnsSenderThread) (a : Attempt) (q : ByteArray) (pkt : Packet) {u : DnsSenderThread}
    → Keeps (prepare (load_query t q).1 a q pkt) u
    → Keeps (load_query t q).1 u
unfolding prepare
prepared-Keeps t a q pkt k = record {
  socket = k.socket;
  pcap = k.pcap;
  timeout = k.timeout;
  queryrate = k.queryrate;
  runtime = k.runtime;
}

pub send_query-Keeps :
    (t : DnsSenderThread) (a : Attempt) (q : ByteArray)
    → Keeps t (send_query t a q).1 × ((send_query t a q).1.buffer ≡ (load_query t q).1.buffer)
unfolding send_query prepare
send_query-Keeps t a q =
    let (n, loaded) = load_query t q in
    elim (Result-cases (set_payload loaded.pkt loaded.buffer 0 n)) [
      | inl (pkt, e) ↦
          let (k, b) = send_prepared-Keeps (prepare loaded a q pkt) a in
          rw (e, send_query) (Keeps-trans (load_query-Keeps t q) (prepared-Keeps t a q pkt k), b)
      | inr (x, e) ↦ rw (e, send_query) (load_query-Keeps t q, refl)
    ]

tried_once :
    (t : DnsSenderThread) (r : Result (Unit {0}) × DnsSenderThread)
    → Counted t r
    → r.0 ≡ ok tt
    → attempts r.1 ≡ attempts t + 1
tried_once t (ok _, u) c e = c.0
tried_once t (throw x, u) c e = cc

-- A round on a ready thread with a query that fits returns, counts one packet, and leaves the thread ready.
pub send_query-IsReady :
    (heap : Memory) (bytes : IsBytes heap) (t : DnsSenderThread) (a : Attempt) (q : ByteArray)
    → IsReady heap t
    → IsLoadable t.payload_is_pcap q
    → let (r, u) = send_query t a q in
      (r ≡ ok tt)
      × IsReady heap u
      × (attempts u ≡ attempts t + 1)
      × (u.payload_is_pcap ≡ t.payload_is_pcap)
      × (u.timeout ≡ t.timeout)
send_query-IsReady heap bytes t a q ready l =
    let (b, small) = load_query-IsLoadable t q ready.buffer l in
    let (returns, _, reached) =
      send_query-IsSent heap bytes t a q ready.reached b small ready.destined in
    let (k, same) = send_query-Keeps t a q in
    (
      returns,
      record {
        reached = reached;
        buffer = λ i. subst (λ (m : Memory). m i < 256) (sym same) (b i);
        destined = λ e. ready.destined (ap (λ (s : RawSocketSender). s.s_addr) (sym k.socket) ∙ e);
      },
      tried_once t (send_query t a q) (send_query-Counted t a q) returns,
      k.pcap,
      k.timeout,
    )
