-- ===== src/DnsSenderThread.antt =====
-- src/dns_sender_thread.cpp, src/dns_sender_thread.h: the state of a sender thread, and `sendPacket`.
-- The payload file is shared by the threads and passed along; time, randomness and the answers of the
-- kernel come with each attempt.
pub mod Counters
pub mod Answered
pub mod Dnssec
pub mod Load
pub mod Sent
pub mod Loops
pub mod Schedule
pub mod Pace
pub mod Ends
pub mod Settings
pub mod Sending
pub mod Run
pub mod Ready
pub mod Carried
pub mod Whole
mod Tests
use dnsmeter.Base.{
  ℕ, suc, ◌+◌, ◌-◌, ◌*◌, ◌^◌, Bool, true, false, ◌&&◌, List, [], ◌∷◌, Option, none, some, ltb, leb,
  ◌==◌, if◌then◌else◌, sub64, u32, u64, htonl, Memory, memcpy,
}
use dnsmeter.Exceptions.{
  Exception, Result, ok, throw, unknown_rr_type, invalid_dns_query, invalid_arguments,
}
use dnsmeter.Pplib.{ByteArray}
use dnsmeter.Query.{TimeVal, get_query_timestamp, add_dnssec_to_query}
use dnsmeter.Packet.{
  Packet, new_packet, set_source, set_payload, set_dns_id, random_source_ip, random_source_port,
  use_source_from_pcap, size,
}
use dnsmeter.Packet
use dnsmeter.PayloadFile.{PayloadFile, get_query}
use dnsmeter.RawSocketSender.{RawSocketSender, IpAddress, new_raw_socket_sender, send}
use dnsmeter.RawSocketSender

-- A positive fraction, for the times that the source keeps as floating point numbers.
pub record Ratio : Type 0 where
  pub num : ℕ
  pub den : ℕ

pub record DnsSenderThread : Type 0 where
  pub socket : RawSocketSender
  pub pkt : Packet
  pub sourceip : IpAddress
  pub buffer : Memory
  pub queryrate : ℕ
  pub counter_packets_send : ℕ
  pub errors : ℕ
  pub counter_0bytes : ℕ
  pub counter_bytes_send : ℕ
  pub counter_errorcodes : ℕ → ℕ
  pub spoofing_net_start : ℕ
  pub spoofing_net_size : ℕ
  pub runtime : ℕ
  pub timeout : ℕ
  pub dnssec_rate : ℕ
  pub dnsseccounter : ℕ
  -- in milliseconds
  pub timeslice : Ratio
  pub spoofing_enabled : Bool
  pub payload_is_pcap : Bool
  pub spoofing_from_pcap : Bool

-- The constructor. `heap` is the block of the packet, and `malloced` that of the buffer.
abbrev pub new_dns_sender_thread : Memory → Memory → DnsSenderThread
new_dns_sender_thread heap malloced = record {
  socket = new_raw_socket_sender;
  pkt = new_packet heap;
  sourceip = record { is_ipv4 = false; addr = 0 };
  buffer = malloced;
  queryrate = 0;
  counter_packets_send = 0;
  errors = 0;
  counter_0bytes = 0;
  counter_bytes_send = 0;
  counter_errorcodes = λ _. 0;
  spoofing_net_start = 0;
  spoofing_net_size = 0;
  runtime = 10;
  timeout = 5;
  dnssec_rate = 0;
  dnsseccounter = 0;
  timeslice = record { num = 0; den = 1 };
  spoofing_enabled = false;
  payload_is_pcap = false;
  spoofing_from_pcap = false;
}

unfoldable pub set_destination : DnsSenderThread → IpAddress → ℕ → Result DnsSenderThread
set_destination t ip port = elim (RawSocketSender.set_destination t.socket ip port) [
  | ok s ↦ ok (record t { socket = s; pkt = Packet.set_destination t.pkt ip.addr port })
  | throw e ↦ throw e
]

-- `setTimeslice`, on a fraction of milliseconds.
unfoldable pub set_timeslice : DnsSenderThread → Ratio → Result DnsSenderThread
set_timeslice t ms =
    if ms.num == 0
    then throw invalid_arguments
    else if ltb (1000 * ms.den) ms.num
    then throw invalid_arguments
    else ok (record t { timeslice = ms })

-- `setSourceNet`. `first` is `*(in_addr_t*)net.first().addr()`.
unfoldable pub set_source_net : DnsSenderThread → ℕ → ℕ → DnsSenderThread
set_source_net t first prefixlen = record t {
  spoofing_enabled = true;
  spoofing_net_start = htonl first;
  spoofing_net_size = u32 (2 ^ (32 - prefixlen));
}

abbrev pub set_source_pcap : DnsSenderThread → DnsSenderThread
set_source_pcap t = record t { spoofing_enabled = true; spoofing_from_pcap = true }

-- `PCAP_HEADER_SIZE`
abbrev pub pcap_header_size : ℕ
pcap_header_size = 14 + 20 + 8

-- What one round of `sendPacket` meets: the results of `rand`, the clock, and the answer of the kernel.
pub data Sendto : Type 0 where
  returned : ℕ → Sendto
  failed : ℕ → Sendto

pub record Attempt : Type 0 where
  pub rand_ip : ℕ → ℕ → ℕ
  pub rand_port : ℕ → ℕ → ℕ
  pub clock : Option TimeVal
  pub answer : Sendto

-- The query of the payload goes to the buffer, with the EDNS0 record for a share of `DnssecRate` percent of
-- the queries of a text. The result is `query_size`.
unfoldable pub load_query : DnsSenderThread → ByteArray → ℕ × DnsSenderThread
load_query t bap =
    if t.payload_is_pcap
    then (let query_size = sub64 bap.size pcap_header_size in
        (query_size, record t { buffer = memcpy t.buffer 0 bap.bytes pcap_header_size query_size }))
    else (let buffer = memcpy t.buffer 0 bap.bytes 0 bap.size in
        let dnsseccounter = t.dnsseccounter + t.dnssec_rate in
        let (query_size, extended) = add_dnssec_to_query buffer 0 4096 bap.size 4096 in
        if leb 100 dnsseccounter
        then (query_size, record t { buffer = extended; dnsseccounter = dnsseccounter - 100 })
        else (bap.size, record t { buffer = buffer; dnsseccounter = dnsseccounter }))

unfoldable pub choose_source : DnsSenderThread → Attempt → ByteArray → Packet → Packet
choose_source t a bap pkt =
    if t.spoofing_enabled
    then (if t.spoofing_from_pcap
        then use_source_from_pcap pkt bap.bytes
        else random_source_port a.rand_port
            (random_source_ip a.rand_ip pkt t.spoofing_net_start t.spoofing_net_size))
    else random_source_port a.rand_port pkt

-- `a[i]++`
abbrev pub increment : (ℕ → ℕ) → ℕ → ℕ → ℕ
increment a k i = if i == k then a i + 1 else a i

-- The counters after `send` on the packet `t.pkt`.
unfoldable pub count_answer : DnsSenderThread → Sendto → DnsSenderThread
count_answer t (returned n) =
    if ltb 0 n && n == size t.pkt
    then record t {
      counter_packets_send = t.counter_packets_send + 1;
      counter_bytes_send = t.counter_bytes_send + size t.pkt;
    }
    else record t { counter_0bytes = t.counter_0bytes + 1 }
count_answer t (failed errno) = record t {
  counter_errorcodes =
      if ltb errno 255 then increment t.counter_errorcodes errno else t.counter_errorcodes;
  errors = t.errors + 1;
}

-- The end of a round, from `Socket.send` on. `done` is the `return`.
unfoldable pub send_prepared : DnsSenderThread → Attempt → Result (Unit {0}) × DnsSenderThread
send_prepared t a = elim (send t.socket t.pkt) [
  | ok handed ↦ (ok tt, count_answer (record t { pkt = handed }) a.answer)
  | throw e ↦ (throw e, t)
]

-- The source address and the ID of the packet with its payload.
unfoldable pub prepare : DnsSenderThread → Attempt → ByteArray → Packet → DnsSenderThread
prepare t a bap pkt = record t {
  pkt = set_dns_id (choose_source t a bap pkt) (get_query_timestamp a.clock);
}

-- A round with the query `bap`.
unfoldable pub send_query :
    DnsSenderThread → Attempt → ByteArray → Result (Unit {0}) × DnsSenderThread
send_query t a bap =
    let (query_size, t) = load_query t bap in
    elim (set_payload t.pkt t.buffer 0 query_size) [
      | ok pkt ↦ send_prepared (prepare t a bap pkt) a
      | throw e ↦ (throw e, t)
    ]

-- The two handlers of `sendPacket`: the exceptions that lead to another round.
unfoldable pub catch {ℓ} : {A : Type ℓ} → Result (Unit {0}) → A → A → A
catch (throw unknown_rr_type) again leave = again
catch (throw invalid_dns_query) again leave = again
catch _ again leave = leave

-- `sendPacket`: `none` means that the cache of the payload is empty, which is undefined behaviour, or that
-- no attempt is left.
unfoldable pub send_packet :
    List Attempt
    → DnsSenderThread
    → PayloadFile
    → Option (Result (Unit {0}) × DnsSenderThread × PayloadFile)
unfolding catch
send_packet [] t f = none
send_packet (a ∷ later) t f = elim (get_query f) [
  | none ↦ none
  | some (bap, g) ↦
      let (r, t') = send_query t a bap in catch r (send_packet later t' g) (some (r, t', g))
]

-- The counters and the source of a thread at the start of `run`.
unfoldable pub start_run : DnsSenderThread → DnsSenderThread
start_run t = record t {
  pkt = if t.spoofing_enabled then t.pkt else set_source t.pkt t.sourceip.addr 0x4567;
  dnsseccounter = 0;
  counter_packets_send = 0;
  counter_bytes_send = 0;
  counter_0bytes = 0;
  errors = 0;
  counter_errorcodes = λ i. if ltb i 255 then 0 else t.counter_errorcodes i;
}
