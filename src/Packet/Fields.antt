-- ===== src/Packet/Fields.antt =====
-- src/packet.cpp: the invariant of a packet, and that every operation keeps it.
use native.Mathlib.Nat.{mod-eq_of_lt}
use dnsmeter.Base.{
  ℕ, ◌+◌, ◌-◌, ◌^◌, ◌≤◌, ◌<◌, ◌≡◌, ◌≢◌, refl, false, arith, net16, memcpy, Memory, IsBytes,
}
use dnsmeter.Exceptions.{ok, throw, buffer_overflow}
use dnsmeter.Packet.{
  Packet, new_packet, set_source, set_destination, set_ip_id, set_dns_id, set_payload, set_lengths,
  random_source_port, random_source_ip, use_source_from_pcap, update_checksums, ptr, size,
}

-- The header and the lengths of an IPv4 packet without options that carries a UDP datagram.
pub record IsValid (p : Packet) : Type 0 where
  pub bytes : IsBytes p.buffer
  pub small : p.payload_size ≤ 4068
  pub version : p.buffer 0 ≡ 0x45
  pub protocol : p.buffer 9 ≡ 17
  pub total_length : net16 p.buffer 2 ≡ 28 + p.payload_size
  pub udp_length : net16 p.buffer 24 ≡ 8 + p.payload_size

pub new_packet-IsValid : (heap : Memory) → IsBytes heap → IsValid (new_packet heap)
unfolding new_packet
new_packet-IsValid heap h = record {
  bytes = λ i. ground (arith, h i);
  small = omega arith;
  version = refl;
  protocol = refl;
  total_length = refl;
  udp_length = refl;
}

-- The constant fields and the lengths are the same in both packets.
record SameHeader (p q : Packet) : Type 0 where
  size : q.payload_size ≡ p.payload_size
  version : q.buffer 0 ≡ p.buffer 0
  total_length : net16 q.buffer 2 ≡ net16 p.buffer 2
  protocol : q.buffer 9 ≡ p.buffer 9
  udp_length : net16 q.buffer 24 ≡ net16 p.buffer 24

SameHeader-IsValid : {p q : Packet} → IsBytes q.buffer → SameHeader p q → IsValid p → IsValid q
SameHeader-IsValid bytes same v = record {
  bytes = bytes;
  small = omega arith;
  version = omega arith;
  protocol = omega arith;
  total_length = omega arith;
  udp_length = omega arith;
}

-- The packet that `setPayload` makes of a payload that fits.
abbrev pub with_payload : Packet → Memory → ℕ → ℕ → Packet
with_payload p payload from n = record {
  buffer = set_lengths (memcpy p.buffer 28 payload from n) n;
  payload_size = n;
  chksum_valid = false;
}

pub record Carries (p : Packet) (payload : Memory) (from n : ℕ) (q : Packet) : Type 0 where
  pub valid : IsValid q
  pub size : q.payload_size ≡ n
  pub stale : q.chksum_valid ≡ false
  pub carried : (i : ℕ) → i < n → q.buffer (28 + i) ≡ payload (from + i)
  pub kept : (i : ℕ) → i < 28 → i ≢ 2 → i ≢ 3 → i ≢ 24 → i ≢ 25 → q.buffer i ≡ p.buffer i

module _ (p : Packet) (v : IsValid p) where
  pub set_source-IsValid : (ip port : ℕ) → IsValid (set_source p ip port)
  unfolding set_source
  set_source-IsValid ip port = SameHeader-IsValid (λ i. ground (arith, v.bytes i)) (ground arith) v

  pub set_destination-IsValid : (ip port : ℕ) → IsValid (set_destination p ip port)
  unfolding set_destination
  set_destination-IsValid ip port =
      SameHeader-IsValid (λ i. ground (arith, v.bytes i)) (ground arith) v

  pub set_ip_id-IsValid : (id : ℕ) → IsValid (set_ip_id p id)
  unfolding set_ip_id
  set_ip_id-IsValid id = SameHeader-IsValid (λ i. ground (arith, v.bytes i)) (ground arith) v

  pub set_dns_id-IsValid : (id : ℕ) → IsValid (set_dns_id p id)
  unfolding set_dns_id
  set_dns_id-IsValid id = SameHeader-IsValid (λ i. ground (arith, v.bytes i)) (ground arith) v

  pub random_source_port-IsValid : (rand : ℕ → ℕ → ℕ) → IsValid (random_source_port rand p)
  unfolding random_source_port
  random_source_port-IsValid rand =
      SameHeader-IsValid (λ i. ground (arith, v.bytes i)) (ground arith) v

  pub random_source_ip-IsValid :
      (rand : ℕ → ℕ → ℕ) (start size : ℕ) → IsValid (random_source_ip rand p start size)
  unfolding random_source_ip
  random_source_ip-IsValid rand start size =
      SameHeader-IsValid (λ i. ground (arith, v.bytes i)) (ground arith) v

  pub use_source_from_pcap-IsValid : (pkt : Memory) → IsValid (use_source_from_pcap p pkt)
  unfolding use_source_from_pcap
  use_source_from_pcap-IsValid pkt =
      SameHeader-IsValid (λ i. ground (arith, v.bytes i)) (ground arith) v

  pub update_checksums-IsValid : IsValid (update_checksums p)
  unfolding update_checksums
  update_checksums-IsValid = SameHeader-IsValid (λ i. ground (arith, v.bytes i)) (ground arith) v

  pub ptr-IsValid : IsValid (ptr p)
  unfolding ptr
  ptr-IsValid = ground (arith, update_checksums-IsValid)

  -- `setPayload` takes a payload of up to 4068 bytes: the packet then carries these bytes, the lengths
  -- of both headers fit them, the other bytes of the headers are kept, and the checksums are to be
  -- computed again.
  pub set_payload-Carries :
      (payload : Memory) (from n : ℕ)
      → IsBytes payload
      → n ≤ 4068
      → (set_payload p payload from n ≡ ok (with_payload p payload from n))
        × Carries p payload from n (with_payload p payload from n)
  unfolding set_payload
  set_payload-Carries payload from n b small = (
    ground (arith, mod-eq_of_lt {n = n} {m = 2 ^ 32}),
    record {
      valid = record {
        bytes = λ i. ground (arith, v.bytes i, b (from + (i - 28)));
        small = small;
        version = v.version;
        protocol = v.protocol;
        total_length = omega arith;
        udp_length = omega arith;
      };
      size = refl;
      stale = refl;
      carried = λ i h. ground arith;
      kept = λ i h h2 h3 h24 h25. ground arith;
    },
  )

  -- A larger one, of less than 2^64 - 28 bytes, raises `BufferOverflow`.
  pub set_payload-throw :
      (payload : Memory) (from n : ℕ)
      → 4068 < n
      → n < 2 ^ 64 - 28
      → set_payload p payload from n ≡ throw buffer_overflow
  unfolding set_payload
  set_payload-throw payload from n large fits = ground arith

  -- The size that is handed to `sendto` is the total length that the IP header states, and lies
  -- within the buffer.
  pub size-total_length : (size p ≡ net16 p.buffer 2) × (size p ≤ 4096)
  unfolding size
  size-total_length = ground (arith, v.total_length)
