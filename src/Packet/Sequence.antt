-- ===== src/Packet/Sequence.antt =====
-- src/packet.cpp: sequences of operations on a packet, and what `ptr` hands to the socket.
use dnsmeter.Base.{
  ℕ, ◌+◌, ◌-◌, ◌^◌, ◌<◌, htonl, ◌%◌, ◌≤◌, ◌≡◌, ◌≢◌, refl, subst, true, false, Bool-cases, inl, inr,
  arith, net16, Memory, IsBytes,
}
use dnsmeter.Exceptions.{ok}
use dnsmeter.Packet.{
  Packet, new_packet, set_source, set_destination, set_ip_id, set_dns_id, set_payload,
  random_source_port, random_source_ip, random_source_ip_net, use_source_from_pcap, ptr,
}
use dnsmeter.Packet.Fields.{
  IsValid, new_packet-IsValid, set_source-IsValid, set_destination-IsValid, set_ip_id-IsValid,
  set_dns_id-IsValid, random_source_port-IsValid, random_source_ip-IsValid,
  use_source_from_pcap-IsValid, ptr-IsValid, set_payload-Carries,
}
use dnsmeter.Packet.Valid.{IsChecksummed, IpChecks, update_checksums-IsChecksummed}

-- A call on a packet. `useSourceFromPcap` is made only while the checksums are to be computed anew, and
-- `setPayload` for a size near which the size in 64 bits does not wrap. `setPayloadDNSQuery`, which nothing calls,
-- is not among them.
pub data Step (p : Packet) : Packet → Type 0 where
  source : (ip port : ℕ) → Step p (set_source p ip port)
  destination : (ip port : ℕ) → Step p (set_destination p ip port)
  ip_id : (id : ℕ) → Step p (set_ip_id p id)
  dns_id : (id : ℕ) → Step p (set_dns_id p id)
  source_port : (rand : ℕ → ℕ → ℕ) → Step p (random_source_port rand p)
  source_ip : (rand : ℕ → ℕ → ℕ) (start size : ℕ) → Step p (random_source_ip rand p start size)
  source_net :
      (rand : ℕ → ℕ → ℕ) (first prefixlen : ℕ)
      → Step p (random_source_ip_net rand p first prefixlen)
  from_pcap : (pkt : Memory) → p.chksum_valid ≡ false → Step p (use_source_from_pcap p pkt)
  payload :
      {q : Packet} (bytes : Memory) (from n : ℕ)
      → IsBytes bytes
      → n + 28 < 2 ^ 64
      → set_payload p bytes from n ≡ ok q
      → Step p q
  sent : Step p (ptr p)

pub data Reach (p : Packet) : Packet → Type 0 where
  here : Reach p p
  next : {q r : Packet} → Reach p q → Step q r → Reach p r

-- The packet is valid, and a valid checksum is only claimed where it holds.
record IsSound (p : Packet) : Type 0 where
  valid : IsValid p
  fresh : p.chksum_valid ≡ true → IsChecksummed p

stale-IsSound : {p : Packet} → IsValid p → p.chksum_valid ≡ false → IsSound p
stale-IsSound v stale = record { valid = v; fresh = λ claimed. cc }

-- `ptr` of a sound packet has valid checksums.
ptr-IsChecksummed : (p : Packet) → IsSound p → IsChecksummed (ptr p)
unfolding ptr
ptr-IsChecksummed p s = elim (Bool-cases p.chksum_valid) [
  | inl claimed ↦ simp claimed (s.fresh claimed)
  | inr stale ↦ simp stale (update_checksums-IsChecksummed p s.valid)
]

source_net-IsSound :
    {p : Packet} (rand : ℕ → ℕ → ℕ) (first prefixlen : ℕ)
    → IsSound p
    → IsSound (random_source_ip_net rand p first prefixlen)
unfolding random_source_ip_net random_source_ip
source_net-IsSound {p} rand first prefixlen s =
    stale-IsSound (random_source_ip-IsValid p s.valid rand (htonl first) (2 ^ (32 - prefixlen)))
      refl

-- `setPayload` accepts what fits behind the headers.
pub set_payload-small :
    (p : Packet) {q : Packet} (bytes : Memory) (from n : ℕ)
    → n + 28 < 2 ^ 64
    → set_payload p bytes from n ≡ ok q
    → n ≤ 4068
unfolding set_payload
set_payload-small p bytes from n fits made = ground (arith, made)

Step-IsSound : {p q : Packet} → Step p q → IsSound p → IsSound q
Step-IsSound {p = p} (source ip port) s =
    stale-IsSound (set_source-IsValid p s.valid ip port) (unfold set_source in refl)
Step-IsSound {p = p} (destination ip port) s =
    stale-IsSound (set_destination-IsValid p s.valid ip port) (unfold set_destination in refl)
Step-IsSound {p = p} (ip_id id) s =
    stale-IsSound (set_ip_id-IsValid p s.valid id) (unfold set_ip_id in refl)
Step-IsSound {p = p} (dns_id id) s =
    stale-IsSound (set_dns_id-IsValid p s.valid id) (unfold set_dns_id in refl)
Step-IsSound {p = p} (source_port rand) s =
    stale-IsSound (random_source_port-IsValid p s.valid rand) (unfold random_source_port in refl)
Step-IsSound {p = p} (source_ip rand start size) s =
    stale-IsSound (random_source_ip-IsValid p s.valid rand start size)
      (unfold random_source_ip in refl)
Step-IsSound {p = p} (source_net rand first prefixlen) s = source_net-IsSound rand first prefixlen s
Step-IsSound {p = p} (from_pcap pkt stale) s =
    stale-IsSound (use_source_from_pcap-IsValid p s.valid pkt)
      (unfold use_source_from_pcap in stale)
Step-IsSound {p = p} (payload bytes from n b fits made) s =
    let small = set_payload-small p bytes from n fits made in
    let (makes, carries) = set_payload-Carries p s.valid bytes from n b small in
    subst IsSound (cc (makes, made)) (stale-IsSound carries.valid carries.stale)
Step-IsSound {p = p} sent s = record {
  valid = ptr-IsValid p s.valid;
  fresh = λ _. ptr-IsChecksummed p s;
}

Reach-IsSound : {p q : Packet} → Reach p q → IsSound p → IsSound q
Reach-IsSound here s = s
Reach-IsSound (next r step) s = Step-IsSound step (Reach-IsSound r s)

new_packet-IsSound : (heap : Memory) → IsBytes heap → IsSound (new_packet heap)
new_packet-IsSound heap bytes =
    stale-IsSound (new_packet-IsValid heap bytes) (unfold new_packet in refl)

pub Reach-IsValid :
    (heap : Memory) {p : Packet} → IsBytes heap → Reach (new_packet heap) p → IsValid p
Reach-IsValid heap bytes r = let s = Reach-IsSound r (new_packet-IsSound heap bytes) in s.valid

-- Whatever calls of the setters, `setPayload`, the random sources, `useSourceFromPcap` and `ptr` are made on a new
-- packet, in any order and number, `useSourceFromPcap` only while the checksums are marked as stale and
-- `setPayload` only for sizes below `2 ^ 64 - 28`: the packet that `ptr` hands to the socket has the header and the
-- lengths of an IPv4 UDP packet, and valid checksums in both headers.
pub ptr-Reach :
    (heap : Memory)
    → IsBytes heap
    → (p : Packet) → Reach (new_packet heap) p
    → IsValid (ptr p) × IsChecksummed (ptr p)
ptr-Reach heap bytes p r =
    let s = Reach-IsSound r (new_packet-IsSound heap bytes) in
    (ptr-IsValid p s.valid, ptr-IsChecksummed p s)

ptr_claimed : (p : Packet) → p.chksum_valid ≡ true → ptr p ≡ p
unfolding ptr
ptr_claimed p claimed = ground arith

source_changed :
    (p : Packet) (pkt : Memory)
    → IsBytes pkt
    → IpChecks p.buffer
    → (net16 pkt 26 + net16 pkt 28) % 65535 ≢ (net16 p.buffer 12 + net16 p.buffer 14) % 65535
    → ¬ IpChecks (use_source_from_pcap p pkt).buffer
unfolding use_source_from_pcap
source_changed p pkt captured holds differ wrong =
    differ (omega (arith, captured 26, captured 27, captured 28, captured 29))

-- `useSourceFromPcap` does not mark the checksums as stale: if they were marked as valid, and hold,
-- then after it the checksum of the IP header that is sent is wrong for every new source address
-- that differs from the old one modulo 65535, as one's complement sums do.
pub use_source_from_pcap_stale :
    (p : Packet) (pkt : Memory)
    → IsBytes pkt
    → p.chksum_valid ≡ true
    → IpChecks p.buffer
    → (net16 pkt 26 + net16 pkt 28) % 65535 ≢ (net16 p.buffer 12 + net16 p.buffer 14) % 65535
    → ¬ IpChecks (ptr (use_source_from_pcap p pkt)).buffer
use_source_from_pcap_stale p pkt captured claimed holds differ wrong =
    source_changed p pkt captured holds differ (
      subst (λ (q : Packet). IpChecks q.buffer)
        (ptr_claimed (use_source_from_pcap p pkt) (unfold use_source_from_pcap in claimed)) wrong)
