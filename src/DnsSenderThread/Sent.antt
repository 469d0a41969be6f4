-- ===== src/DnsSenderThread/Sent.antt =====
-- src/dns_sender_thread.cpp: the packet that a round of `sendPacket` hands to the socket.
use native.Mathlib.Nat.{zero-add}
use dnsmeter.Base.{
  ℕ, ◌+◌, ◌%◌, ◌^◌, ◌≤◌, ◌<◌, ◌-◌, ◌≡◌, ◌≢◌, ◌∙◌, refl, sym, ap, false, Bool-cases, inl, inr, arith,
  net16, net32, Memory, IsBytes,
}
use dnsmeter.Exceptions.{ok}
use dnsmeter.Pplib.{ByteArray}
use dnsmeter.Query.{get_query_timestamp}
use dnsmeter.Packet.{
  Packet, new_packet, set_payload, set_dns_id, random_source_ip, random_source_port,
  use_source_from_pcap, ptr, update_checksums, set_lengths,
}
use dnsmeter.Packet.Fields.{IsValid, Carries, with_payload, set_payload-Carries}
use dnsmeter.Packet.Valid.{IsChecksummed}
use dnsmeter.Packet.Sequence.{
  Reach, next, source_ip, source_port, from_pcap, dns_id, payload, sent, ptr-Reach, Reach-IsValid,
}
use dnsmeter.RawSocketSender.{RawSocketSender, send}
use dnsmeter.DnsSenderThread.{
  DnsSenderThread, Attempt, Sendto, returned, failed, load_query, choose_source, prepare,
  send_query, send_prepared, count_answer,
}

-- The calls of a round on the packet with its payload are calls of the sequences of `Packet.Sequence`.
choose_source-Reach :
    (t : DnsSenderThread) (a : Attempt) (q : ByteArray) {p r : Packet}
    → r.chksum_valid ≡ false
    → Reach p r
    → Reach p (choose_source t a q r)
unfolding choose_source
choose_source-Reach t a q {r} stale reached = elim (Bool-cases t.spoofing_enabled) [
  | inl spoofing ↦ elim (Bool-cases t.spoofing_from_pcap) [
    | inl pcap ↦ simp (spoofing, pcap) (next reached (from_pcap q.bytes stale))
    | inr net ↦
        simp (spoofing, net)
          (next (next reached (source_ip a.rand_ip t.spoofing_net_start t.spoofing_net_size))
            (source_port a.rand_port))
  ]
  | inr plain ↦ simp plain (next reached (source_port a.rand_port))
]

-- What the calls after `setPayload` leave alone: the destination, and the payload but its first two bytes.
record Keeps (p q : Packet) : Type 0 where
  address : net32 q.buffer 16 ≡ net32 p.buffer 16
  port : net16 q.buffer 22 ≡ net16 p.buffer 22
  rest : (i : ℕ) → 30 ≤ i → q.buffer i ≡ p.buffer i
  size : q.payload_size ≡ p.payload_size

prepared-Keeps :
    (t : DnsSenderThread) (a : Attempt) (q : ByteArray) (p : Packet)
    → Keeps p (ptr (prepare t a q p).pkt)
unfolding ptr prepare choose_source set_dns_id random_source_ip random_source_port
    use_source_from_pcap update_checksums
prepared-Keeps t a q p = record {
  address = ground arith;
  port = ground arith;
  rest = λ i h. ground arith;
  size = ground arith;
}

prepared-id :
    (t : DnsSenderThread) (a : Attempt) (q : ByteArray) (p : Packet)
    → net16 (ptr (prepare t a q p).pkt).buffer 28 ≡ get_query_timestamp a.clock % 2 ^ 16
unfolding ptr prepare set_dns_id update_checksums
prepared-id t a q p = ground arith

-- The packet `p` that is handed to the socket for `n` bytes `from` of the query: a valid IPv4 UDP packet to
-- the thread's destination with valid checksums, which carries the query under the time stamp as its ID.
pub record IsSent (t : DnsSenderThread) (a : Attempt) (from : Memory) (n : ℕ) (p : Packet)
    : Type 0 where
  pub valid : IsValid p
  pub checksummed : IsChecksummed p
  pub size : p.payload_size ≡ n
  pub id : net16 p.buffer 28 ≡ get_query_timestamp a.clock % 2 ^ 16
  pub carried : (i : ℕ) → 2 ≤ i → i < n → p.buffer (28 + i) ≡ from i
  pub address : net32 p.buffer 16 ≡ net32 t.pkt.buffer 16
  pub port : net16 p.buffer 22 ≡ net16 t.pkt.buffer 22

count_answer-pkt : (t : DnsSenderThread) (s : Sendto) → (count_answer t s).pkt ≡ t.pkt
unfolding count_answer
count_answer-pkt t (returned n) = ground arith
count_answer-pkt t (failed errno) = refl

send_prepared-pkt :
    (t : DnsSenderThread) (a : Attempt)
    → t.socket.s_addr ≢ 2 ^ 32 - 1
    → ((send_prepared t a).0 ≡ ok tt) × ((send_prepared t a).1.pkt ≡ ptr t.pkt)
unfolding send_prepared send
send_prepared-pkt t a destined =
    let sends : send t.socket t.pkt ≡ ok (ptr t.pkt) = ground arith in
    rw (sends, send_prepared) (refl, count_answer-pkt (record t { pkt = ptr t.pkt }) a.answer)

module _ (heap : Memory) (bytes : IsBytes heap) (t : DnsSenderThread) (a : Attempt)
    (q : ByteArray) where
  abbrev loaded : DnsSenderThread
  loaded = (load_query t q).1

  load_query-pkt : loaded.pkt ≡ t.pkt
  unfolding load_query
  load_query-pkt = ground arith

  load_query-socket : loaded.socket ≡ t.socket
  unfolding load_query
  load_query-socket = ground arith

  destination_kept :
      (m : Memory) (n : ℕ)
      → let w = with_payload loaded.pkt m 0 n in
        (net32 w.buffer 16 ≡ net32 t.pkt.buffer 16) × (net16 w.buffer 22 ≡ net16 t.pkt.buffer 22)
  unfolding set_lengths
  destination_kept m n = (
    ap (λ (p : Packet). net32 p.buffer 16) load_query-pkt,
    ap (λ (p : Packet). net16 p.buffer 22) load_query-pkt,
  )

  abbrev handed : ℕ → Packet
  handed n = ptr (prepare loaded a q (with_payload loaded.pkt loaded.buffer 0 n)).pkt

  -- With its payload, its source and its ID, the packet has come about by calls on a new packet.
  prepared-Reach :
      (n : ℕ)
      → Reach (new_packet heap) t.pkt
      → IsBytes loaded.buffer
      → n ≤ 4068
      → let w = with_payload loaded.pkt loaded.buffer 0 n in
        Reach (new_packet heap) (prepare loaded a q w).pkt
        × (set_payload loaded.pkt loaded.buffer 0 n ≡ ok w)
        × Carries loaded.pkt loaded.buffer 0 n w
  unfolding prepare
  prepared-Reach n reached b small =
      let start : Reach (new_packet heap) loaded.pkt = rw load_query-pkt reached in
      let (made, carries) =
        set_payload-Carries loaded.pkt (Reach-IsValid heap bytes start) loaded.buffer 0 n b small in
      let with_source =
        choose_source-Reach loaded a q {r = with_payload loaded.pkt loaded.buffer 0 n} carries.stale
          (next start (payload loaded.buffer 0 n b (omega (arith, small)) made)) in
      (next with_source (dns_id (get_query_timestamp a.clock)), made, carries)

  handed-IsSent :
      (n : ℕ)
      → Reach (new_packet heap) t.pkt
      → IsBytes loaded.buffer
      → n ≤ 4068
      → IsSent t a loaded.buffer n (handed n)
  handed-IsSent n reached b small =
      let (prepared, made, carries) = prepared-Reach n reached b small in
      let w = with_payload loaded.pkt loaded.buffer 0 n in
      let (valid, checksummed) = ptr-Reach heap bytes (prepare loaded a q w).pkt prepared in
      let keeps = prepared-Keeps loaded a q w in
      record {
        valid = valid;
        checksummed = checksummed;
        size = keeps.size;
        id = prepared-id loaded a q w;
        carried = λ i two below.
            keeps.rest (28 + i) (omega arith)
            ∙ carries.carried i below
            ∙ ap loaded.buffer (zero-add i);
        address = keeps.address ∙ (destination_kept loaded.buffer n).0;
        port = keeps.port ∙ (destination_kept loaded.buffer n).1;
      }

  prepare-socket :
      (p : Packet)
      → (prepare loaded a q p).socket.s_addr ≡ 2 ^ 32 - 1
      → t.socket.s_addr ≡ 2 ^ 32 - 1
  unfolding prepare
  prepare-socket p e = ap (λ (s : RawSocketSender). s.s_addr) (sym load_query-socket) ∙ e

  -- A round of `sendPacket` with a query of up to 4068 bytes returns, if the socket has a destination. It
  -- has handed to the socket a valid packet with valid checksums to that destination, which carries
  -- the query from the buffer, under the time stamp of the moment as its ID. The packet is ready for the
  -- next round.
  pub send_query-IsSent :
      Reach (new_packet heap) t.pkt
      → IsBytes loaded.buffer
      → (load_query t q).0 ≤ 4068
      → t.socket.s_addr ≢ 2 ^ 32 - 1
      → let (r, after) = send_query t a q in
        (r ≡ ok tt)
        × IsSent t a loaded.buffer (load_query t q).0 after.pkt
        × Reach (new_packet heap) after.pkt
  unfolding send_query
  send_query-IsSent reached b small destined =
      let n = (load_query t q).0 in
      let (prepared, made, _) = prepared-Reach n reached b small in
      let w = with_payload loaded.pkt loaded.buffer 0 n in
      let (ends, same) =
        send_prepared-pkt (prepare loaded a q w) a (λ e. destined (prepare-socket w e)) in
      rw (made, send_query)
        (ends, rw same (handed-IsSent n reached b small), rw same (next prepared sent))
