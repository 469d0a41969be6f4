-- ===== src/DnsSenderThread/Load.antt =====
-- src/dns_sender_thread.cpp: which bytes of the payload `sendPacket` copies to its buffer.
use dnsmeter.Base.{ℕ, ◌+◌, ◌-◌, ◌^◌, ◌≤◌, ◌<◌, ◌≡◌, ◌≢◌, true, false, arith}
use dnsmeter.Pplib.{ByteArray}
use dnsmeter.Query.{add_dnssec_to_query}
use dnsmeter.DnsSenderThread.{DnsSenderThread, load_query}

module _ (t : DnsSenderThread) (q : ByteArray) where
  -- Of a text the query itself is copied; the EDNS0 record changes only the byte with the flag AD and the
  -- count of additional records.
  pub load_query-text :
      (i : ℕ)
      → t.payload_is_pcap ≡ false
      → 12 ≤ q.size
      → i < q.size
      → i ≢ 3
      → i ≢ 10
      → i ≢ 11
      → (load_query t q).1.buffer i ≡ q.bytes i
  unfolding load_query add_dnssec_to_query
  load_query-text i text size below n3 n10 n11 = ground arith

  -- Of a capture of 42 bytes or more the bytes behind the 42 bytes of headers are copied.
  pub load_query-pcap :
      (i : ℕ)
      → t.payload_is_pcap ≡ true
      → 42 ≤ q.size
      → q.size < 2 ^ 64
      → i < q.size - 42
      → ((load_query t q).0 ≡ q.size - 42) × ((load_query t q).1.buffer i ≡ q.bytes (42 + i))
  unfolding load_query
  load_query-pcap i pcap size fits below = ground arith

  -- A captured packet of fewer than 42 bytes gives a size near 2^64, and the copy runs over the end of the
  -- buffer of 4096 bytes.
  pub load_query_short :
      t.payload_is_pcap ≡ true
      → q.size < 42
      → ((load_query t q).0 ≡ 2 ^ 64 - (42 - q.size))
        × ((load_query t q).1.buffer 4096 ≡ q.bytes 4138)
  unfolding load_query
  load_query_short pcap short = ground arith
