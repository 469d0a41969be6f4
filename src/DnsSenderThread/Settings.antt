-- ===== src/DnsSenderThread/Settings.antt =====
-- src/dns_sender_thread.cpp: the methods that set up a thread, and those that read its counters.
use dnsmeter.Base.{ℕ, ◌+◌, ◌-◌, ◌^◌, ◌≡◌, ap, false, ltb, if◌then◌else◌, arith, u32, htonl, store32}
use dnsmeter.Packet.{Packet, random_source_ip, random_source_ip_net}
use dnsmeter.PayloadFile.{PayloadFile}
use dnsmeter.RawSocketSender.{IpAddress}
use dnsmeter.DnsSenderThread.{DnsSenderThread, set_source_net}

-- `setPayload`. The file itself is passed along with each call of `send_packet`.
abbrev pub set_payload : DnsSenderThread → PayloadFile → DnsSenderThread
set_payload t payload = record t { payload_is_pcap = payload.payload_is_pcap }

abbrev pub set_runtime : DnsSenderThread → ℕ → DnsSenderThread
set_runtime t seconds = record t { runtime = seconds }

abbrev pub set_timeout : DnsSenderThread → ℕ → DnsSenderThread
set_timeout t seconds = record t { timeout = seconds }

abbrev pub set_dnssec_rate : DnsSenderThread → ℕ → DnsSenderThread
set_dnssec_rate t rate = record t { dnssec_rate = rate }

abbrev pub set_query_rate : DnsSenderThread → ℕ → DnsSenderThread
set_query_rate t qps = record t { queryrate = qps }

abbrev pub set_source_ip : DnsSenderThread → IpAddress → DnsSenderThread
set_source_ip t ip = record t { sourceip = ip; spoofing_enabled = false }

-- `getCounterErrorCode`, of an error that is not negative.
abbrev pub get_counter_error_code : DnsSenderThread → ℕ → ℕ
get_counter_error_code t err = if ltb err 255 then t.counter_errorcodes err else 0

-- The network that `setSourceNet` keeps as its start and its size, in 32 bits, gives the packets of
-- `sendPacket` the addresses that the network itself would give, also where the size wraps to 0.
set_source_net-random_source_ip :
    (rand : ℕ → ℕ → ℕ) (t : DnsSenderThread) (p : Packet) (first prefixlen : ℕ)
    → let u = set_source_net t first prefixlen in
      random_source_ip rand p u.spoofing_net_start u.spoofing_net_size
      ≡ random_source_ip_net rand p first prefixlen
unfolding set_source_net random_source_ip random_source_ip_net
set_source_net-random_source_ip rand t p first prefixlen =
    let size = 2 ^ (32 - prefixlen) in
    let same : u32 (htonl first + u32 size + 2 ^ 32 - 1) ≡ u32 (htonl first + size + 2 ^ 32 - 1) =
      omega arith in
    ap
      (λ (last : ℕ). record p {
        buffer = store32 p.buffer 12 (htonl (rand (htonl first) last));
        chksum_valid = false;
      })
      same
