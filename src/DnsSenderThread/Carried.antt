-- ===== src/DnsSenderThread/Carried.antt =====
-- src/dns_sender_thread.cpp: the query in the packet that a round of `sendPacket` hands to the socket.
use dnsmeter.Base.{
  ℕ, ◌+◌, ◌-◌, ◌%◌, ◌^◌, ◌≤◌, ◌<◌, ◌≡◌, ◌≢◌, ◌∙◌, refl, ap, sym, Bool, true, false, arith, net16,
  net32, htonl, htons, Memory, IsBytes,
}
use dnsmeter.Exceptions.{ok}
use dnsmeter.Pplib.{ByteArray}
use dnsmeter.Query.{add_dnssec_to_query, get_query_timestamp}
use dnsmeter.Packet.{Packet}
use dnsmeter.Packet.Fields.{IsValid}
use dnsmeter.Packet.Valid.{IsChecksummed}
use dnsmeter.RawSocketSender.{RawSocketSender}
use dnsmeter.DnsSenderThread.{DnsSenderThread, Attempt, load_query, send_query}
use dnsmeter.DnsSenderThread.Load.{load_query-pcap}
use dnsmeter.DnsSenderThread.Sent.{IsSent, send_query-IsSent}
use dnsmeter.DnsSenderThread.Ready.{
  IsLoadable, IsReady, load_query-IsLoadable, send_query-Keeps, send_query-IsReady,
}

-- The packet carries the query: of a capture what stands behind the headers, and of a text the query but for its
-- ID and the flags and the count of additional records, which the EDNS0 record changes. Of a text it may be eleven
-- bytes longer, for this record.
unfoldable pub Bears : Bool → ByteArray → Packet → Type 0
Bears true q p =
    (p.payload_size ≡ q.size - 42)
    × ((i : ℕ) → 2 ≤ i → i < q.size - 42 → p.buffer (28 + i) ≡ q.bytes (42 + i))
Bears false q p =
    (q.size ≤ p.payload_size)
    × (p.payload_size ≤ q.size + 11)
    × ((i : ℕ) → 2 ≤ i → i < q.size → i ≢ 3 → i ≢ 10 → i ≢ 11 → p.buffer (28 + i) ≡ q.bytes i)

load_query-size-pcap :
    (t : DnsSenderThread) (q : ByteArray)
    → t.payload_is_pcap ≡ true
    → 42 ≤ q.size
    → q.size ≤ 4096
    → (load_query t q).0 ≡ q.size - 42
unfolding load_query
load_query-size-pcap t q kind low high = ground arith

load_query-size-text :
    (t : DnsSenderThread) (q : ByteArray)
    → t.payload_is_pcap ≡ false
    → (q.size ≤ (load_query t q).0) × ((load_query t q).0 ≤ q.size + 11)
unfolding load_query add_dnssec_to_query
load_query-size-text t q kind = ground arith

load_query-bytes :
    (t : DnsSenderThread) (q : ByteArray) (i : ℕ)
    → t.payload_is_pcap ≡ false
    → i < q.size
    → i ≢ 3
    → i ≢ 10
    → i ≢ 11
    → (load_query t q).1.buffer i ≡ q.bytes i
unfolding load_query add_dnssec_to_query
load_query-bytes t q i text below n3 n10 n11 = ground arith

pub IsSent-Bears :
    (pcap : Bool) (t : DnsSenderThread) (a : Attempt) (q : ByteArray) (p : Packet)
    → t.payload_is_pcap ≡ pcap
    → IsLoadable pcap q
    → IsSent t a (load_query t q).1.buffer (load_query t q).0 p
    → Bears pcap q p
unfolding IsLoadable Bears
IsSent-Bears true t a q p kind (_, low, high) sent =
    let same = load_query-size-pcap t q kind low high in
    (
      sent.size ∙ same,
      λ i two below.
          sent.carried i two (omega (arith, same, below))
          ∙ (load_query-pcap t q i kind low (omega arith) below).1,
    )
IsSent-Bears false t a q p kind (_, high) sent =
    let (more, less) = load_query-size-text t q kind in
    (
      omega (arith, sent.size, more),
      omega (arith, sent.size, less),
      λ i two below n3 n10 n11.
          sent.carried i two (omega (arith, more)) ∙ load_query-bytes t q i kind below n3 n10 n11,
    )

-- The packet and the socket have the same destination.
pub record IsDestined (t : DnsSenderThread) : Type 0 where
  pub address : net32 t.pkt.buffer 16 ≡ htonl t.socket.s_addr
  pub port : net16 t.pkt.buffer 22 ≡ htons t.socket.sin_port

-- A packet that a thread has handed to the socket for a query.
pub record IsCarrier (t : DnsSenderThread) (a : Attempt) (q : ByteArray) (p : Packet) : Type 0 where
  pub valid : IsValid p
  pub checksummed : IsChecksummed p
  pub id : net16 p.buffer 28 ≡ get_query_timestamp a.clock % 2 ^ 16
  pub address : net32 p.buffer 16 ≡ htonl t.socket.s_addr
  pub port : net16 p.buffer 22 ≡ htons t.socket.sin_port
  pub carried : Bears t.payload_is_pcap q p

-- A round of `sendPacket` with a query that fits returns. It has handed to the socket a valid packet with valid
-- checksums for the destination of the socket, with the time stamp of the moment as the ID of its query. The packet
-- carries the bytes of the query: of a capture all behind the headers and the ID, of a text all but the ID, the flags
-- at 3 and the count at 10. The thread is ready for the next round.
pub send_query-IsCarrier :
    (heap : Memory) (bytes : IsBytes heap) (t : DnsSenderThread) (a : Attempt) (q : ByteArray)
    → IsReady heap t
    → IsDestined t
    → IsLoadable t.payload_is_pcap q
    → let (r, u) = send_query t a q in
      (r ≡ ok tt) × IsCarrier t a q u.pkt × IsReady heap u × IsDestined u
send_query-IsCarrier heap bytes t a q ready destined l =
    let (b, small) = load_query-IsLoadable t q ready.buffer l in
    let (returns, sent, _) =
      send_query-IsSent heap bytes t a q ready.reached b small ready.destined in
    let (_, ready', _, _, _) = send_query-IsReady heap bytes t a q ready l in
    let (keeps, _) = send_query-Keeps t a q in
    let socket = sym keeps.socket in
    (
      returns,
      record {
        valid = sent.valid;
        checksummed = sent.checksummed;
        id = sent.id;
        address = sent.address ∙ destined.address;
        port = sent.port ∙ destined.port;
        carried = IsSent-Bears t.payload_is_pcap t a q _ refl l sent;
      },
      ready',
      record {
        address =
            sent.address ∙ destined.address ∙ ap (λ (s : RawSocketSender). htonl s.s_addr) socket;
        port = sent.port ∙ destined.port ∙ ap (λ (s : RawSocketSender). htons s.sin_port) socket;
      },
    )
