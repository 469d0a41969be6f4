-- ===== src/Packet/Valid.antt =====
-- src/packet.cpp: the checksums that `updateChecksums` stores, by the definition of RFC 791, RFC 768
-- and RFC 1071, over words in network order.
use dnsmeter.Base.{
  ℕ, ◌+◌, ◌*◌, ◌%◌, ◌^◌, ◌≤◌, ◌<◌, ◌≡◌, ◌∙◌, refl, arith, net16, load16, store16, Memory, IsBytes,
}
use dnsmeter.Checksum.{word_sum, fold_complement, in_cksum}
use dnsmeter.Checksum.Laws.{
  net_sum, word_sum-congr, word_sum-pad, word_sum-le, word_sum-add, net_sum-add, word_sum-net_sum,
  fold_complement_lem,
}
use dnsmeter.Packet.{Packet, checksum_buffer, udp_cksum, update_checksums}
use dnsmeter.Packet.Fields.{IsValid}

-- The words of the IP header add up to zero in one's complement arithmetic.
abbrev pub IpChecks : Memory → Type 0
IpChecks m = net_sum m 0 20 % 65535 ≡ 0

-- So do those of the pseudo header (addresses, protocol 17, length) and of the datagram of `n` bytes
-- payload.
abbrev pub UdpChecks : Memory → ℕ → Type 0
UdpChecks m n = (net_sum m 12 8 + 17 + (8 + n) + net_sum m 20 (8 + n)) % 65535 ≡ 0

module _ (m : Memory) (bytes : IsBytes m) where
  store_ip_sum :
      (c : ℕ)
      → m 10 ≡ 0
      → m 11 ≡ 0
      → c < 2 ^ 16
      → word_sum (store16 m 10 c) 0 20 0 ≡ word_sum m 0 20 0 + c
  unfolding word_sum
  store_ip_sum c low high small = omega arith

  -- With a zero checksum field, the checksum of the header completes it.
  ip_checks :
      m 10 ≡ 0
      → m 11 ≡ 0
      → let after = store16 m 10 (in_cksum m 0 20) in IpChecks after × (in_cksum after 0 20 ≡ 0)
  unfolding in_cksum
  ip_checks low high =
      let before = word_sum m 0 20 0 in
      let sum = fold_complement before in
      let after = store16 m 10 sum in
      let (multiple, checked, small) = fold_complement_lem before below in
      let (h, swapped) = word_sum-net_sum after 0 20 in
      let added : word_sum after 0 20 0 ≡ before + sum = store_ip_sum sum low high small in
      (omega arith, rw added checked)
    where
      below : word_sum m 0 20 0 < 2 ^ 31
      below = omega (arith, word_sum-le m 0 20 bytes)

  head_sum :
      (n : ℕ)
      → word_sum (checksum_buffer m n) 0 20 0
        ≡ word_sum m 12 8 0 + 256 * m 9 + load16 m 24 + word_sum m 20 8 0
  unfolding word_sum checksum_buffer
  head_sum n = omega (
    arith,
    bytes 9,
    bytes 12,
    bytes 13,
    bytes 14,
    bytes 15,
    bytes 16,
    bytes 17,
    bytes 18,
    bytes 19,
    bytes 24,
    bytes 25,
  )

  buffer-payload : (n i : ℕ) → i < n → checksum_buffer m n (20 + i) ≡ m (28 + i)
  unfolding checksum_buffer
  buffer-payload n i h = ground arith

  buffer-behind : (n : ℕ) → checksum_buffer m n (20 + n) ≡ 0
  unfolding checksum_buffer
  buffer-behind n = ground arith

  payload_sum : (n : ℕ) → word_sum (checksum_buffer m n) 20 (n + n % 2) 0 ≡ word_sum m 28 n 0
  payload_sum n =
      word_sum-pad (checksum_buffer m n) 20 n (buffer-behind n)
      ∙ word_sum-congr (checksum_buffer m n) m 20 28 n (buffer-payload n)

  -- What `udp_cksum` adds up.
  udp_sum :
      (n : ℕ)
      → word_sum (checksum_buffer m n) 0 (12 + 8 + n + n % 2) 0
        ≡ word_sum m 12 8 0 + 256 * m 9 + load16 m 24 + word_sum m 20 8 0 + word_sum m 28 n 0
  udp_sum n =
      let split : 12 + 8 + n + n % 2 ≡ 2 * 10 + (n + n % 2) = omega arith in
      rw split (
        omega
          (arith, word_sum-add (checksum_buffer m n) 0 10 (n + n % 2), head_sum n, payload_sum n))

  udp_sum-lt :
      (n : ℕ)
      → n ≤ 4068
      → word_sum m 12 8 0 + 256 * m 9 + load16 m 24 + word_sum m 20 8 0 + word_sum m 28 n 0 < 2 ^ 31
  udp_sum-lt n fits = omega (
    arith,
    word_sum-le m 12 8 bytes,
    word_sum-le m 20 8 bytes,
    word_sum-le m 28 n bytes,
    bytes 9,
    bytes 24,
    bytes 25,
  )

  store_udp_sum :
      (c n : ℕ)
      → m 26 ≡ 0
      → m 27 ≡ 0
      → c < 2 ^ 16
      → let after = store16 m 26 c in
        (word_sum after 20 8 0 ≡ word_sum m 20 8 0 + c)
        × (word_sum after 12 8 0 ≡ word_sum m 12 8 0)
        × (word_sum after 28 n 0 ≡ word_sum m 28 n 0)
  store_udp_sum c n low high small = (
    unfold word_sum in omega arith,
    unfold word_sum in refl,
    word_sum-congr (store16 m 26 c) m 28 28 n (λ i h. ground arith),
  )

  -- With a zero checksum field, `udp_cksum` completes the datagram.
  udp_checks :
      (n : ℕ)
      → n ≤ 4068
      → m 9 ≡ 17
      → net16 m 24 ≡ 8 + n
      → m 26 ≡ 0
      → m 27 ≡ 0
      → UdpChecks (store16 m 26 (udp_cksum m n)) n
  unfolding udp_cksum in_cksum
  udp_checks n fits protocol length low high =
      let before = word_sum (checksum_buffer m n) 0 (12 + 8 + n + n % 2) 0 in
      let sum = fold_complement before in
      let after = store16 m 26 sum in
      let (multiple, checked, small) = fold_complement_lem before below in
      let (kept, addresses, payload) = store_udp_sum sum n low high small in
      let (h1, e1) = word_sum-net_sum after 12 8 in
      let (h2, e2) = word_sum-net_sum after 20 8 in
      let (h3, e3) = word_sum-net_sum after 28 n in
      rw (net_sum-add after 20 4 n) (omega (arith, udp_sum n))
    where
      below : word_sum (checksum_buffer m n) 0 (12 + 8 + n + n % 2) 0 < 2 ^ 31
      below = rw (udp_sum n) (udp_sum-lt n fits)

-- Both checksums of the packet hold, also as a receiver on the same host computes them.
pub record IsChecksummed (p : Packet) : Type 0 where
  pub ip : IpChecks p.buffer
  pub ip_received : in_cksum p.buffer 0 20 ≡ 0
  pub udp : UdpChecks p.buffer p.payload_size

udp_store-ip :
    (m : Memory) (c : ℕ)
    → IpChecks m × (in_cksum m 0 20 ≡ 0)
    → IpChecks (store16 m 26 c) × (in_cksum (store16 m 26 c) 0 20 ≡ 0)
unfolding in_cksum word_sum
udp_store-ip m c h = h

IsBytes-store16 : (m : Memory) (a v : ℕ) → IsBytes m → IsBytes (store16 m a v)
IsBytes-store16 m a v h i = ground (arith, h i)

pub update_checksums-IsChecksummed : (p : Packet) → IsValid p → IsChecksummed (update_checksums p)
unfolding update_checksums
update_checksums-IsChecksummed p v = record {
  ip = headers.0;
  ip_received = headers.1;
  udp = udp_checks cleared cleared-bytes p.payload_size v.small v.protocol v.udp_length refl refl;
}
  where
    zeroed : Memory
    zeroed = store16 p.buffer 10 0

    summed : Memory
    summed = store16 zeroed 10 (in_cksum zeroed 0 20)

    cleared : Memory
    cleared = store16 summed 26 0

    zeroed-bytes : IsBytes zeroed
    zeroed-bytes = IsBytes-store16 p.buffer 10 0 v.bytes

    cleared-bytes : IsBytes cleared
    cleared-bytes =
        IsBytes-store16 summed 26 0 (IsBytes-store16 zeroed 10 (in_cksum zeroed 0 20) zeroed-bytes)

    headers :
        IpChecks (store16 cleared 26 (udp_cksum cleared p.payload_size))
        × (in_cksum (store16 cleared 26 (udp_cksum cleared p.payload_size)) 0 20 ≡ 0)
    headers =
        udp_store-ip cleared (udp_cksum cleared p.payload_size)
          (udp_store-ip summed 0 (ip_checks zeroed zeroed-bytes refl refl))
