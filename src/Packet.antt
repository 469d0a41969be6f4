-- ===== src/Packet.antt =====
-- src/packet.cpp, src/packet.h: the IP and UDP packet in its buffer of 4096 bytes. The memory of a
-- packet goes on behind the buffer, so that a write past the end is seen. `ip` is the address in
-- `in_addr_t`, as the host loads it.
pub mod Valid
pub mod Fields
pub mod Sequence
pub mod Bounds
mod Tests
use Prim.Native.String.{String}
use dnsmeter.Base.{
  ℕ, ◌+◌, ◌-◌, ◌*◌, ◌/◌, ◌%◌, ◌^◌, Bool, true, false, ltb, if◌then◌else◌, u16, u32, u64, htons,
  htonl, Memory, store8, store16, store32, load16, load32, memcpy, memset,
}
use dnsmeter.Exceptions.{Result, ok, throw, buffer_overflow, ◌>>=◌}
use dnsmeter.Pplib.{Strings, Resolver}
use dnsmeter.Checksum.{in_cksum}
use dnsmeter.Query.{make_query}

-- `sizeof(struct ip)` and `sizeof(struct udphdr)`; `HDRSZ` is `ISZ + USZ` with no brackets.
abbrev pub isz : ℕ
isz = 20

abbrev pub usz : ℕ
usz = 8

abbrev pub maxpacketsize : ℕ
maxpacketsize = 4096

pub record Packet : Type 0 where
  pub buffer : Memory
  -- the bits of an `int`
  pub payload_size : ℕ
  pub chksum_valid : Bool

-- Of a negative `int`, the `size_t`.
abbrev pub to_size_t : ℕ → ℕ
to_size_t n = if ltb n (2 ^ 31) then n else n + 2 ^ 64 - 2 ^ 32

-- `cbuf` of `udp_cksum`, filled from the packet in `m`: the pseudo header, the UDP header and the
-- payload.
unfoldable pub checksum_buffer : Memory → ℕ → Memory
checksum_buffer m payload_size =
    let c = memset (λ _. 0) 0 0 maxpacketsize in
    let c = store32 c 0 (load32 m 12) in
    let c = store32 c 4 (load32 m 16) in
    let c = store8 c 8 0 in
    let c = store8 c 9 (m 9) in
    let c = store16 c 10 (load16 m 24) in
    let c = memcpy c 12 m isz usz in memcpy c 20 m (isz + usz) payload_size

unfoldable pub udp_cksum : Memory → ℕ → ℕ
udp_cksum m payload_size =
    in_cksum (checksum_buffer m payload_size) 0 (12 + usz + payload_size + payload_size % 2)

-- The stores of `iphdr->ip_len` and `udp->uh_ulen`.
unfoldable pub set_lengths : Memory → ℕ → Memory
set_lengths m payload_size =
    let m = store16 m 2 (htons (isz + usz + payload_size)) in
    store16 m 24 (htons (usz + payload_size))

-- The constructor, on a block of memory that `calloc` gives.
unfoldable pub new_packet : Memory → Packet
new_packet heap =
    let m = memset heap 0 0 maxpacketsize in
    let m = store8 m 0 (4 * 16 + isz / 4) in
    let m = store8 m 1 0 in
    let m = store16 m 6 0 in
    let m = store8 m 8 64 in
    let m = store8 m 9 17 in
    let m = store16 m 10 0 in
    let m = store16 m 4 0 in
    let m = store32 m 12 0 in
    let m = store32 m 16 0 in
    let m = store16 m 2 (htons (isz + usz + 0)) in
    let m = store16 m 10 (in_cksum m 0 isz) in
    let m = store16 m 24 (htons (usz + 0)) in
    record { buffer = m; payload_size = 0; chksum_valid = false }

unfoldable pub set_source : Packet → ℕ → ℕ → Packet
set_source p ip port =
    let m = store32 p.buffer 12 ip in
    record p { buffer = store16 m isz (htons port); chksum_valid = false }

-- `rand a b` is the result of `ppl7::rand(a, b)`.
unfoldable pub random_source_port : (ℕ → ℕ → ℕ) → Packet → Packet
random_source_port rand p = record p {
  buffer = store16 p.buffer isz (htons (rand 1024 65535));
  chksum_valid = false;
}

-- `randomSourceIP(start, size)`
unfoldable pub random_source_ip : (ℕ → ℕ → ℕ) → Packet → ℕ → ℕ → Packet
random_source_ip rand p start size =
    let address = rand start (u32 (start + size + 2 ^ 32 - 1)) in
    record p { buffer = store32 p.buffer 12 (htonl address); chksum_valid = false }

-- `randomSourceIP(net)`. `first` is `*(in_addr_t*)net.first().addr()`.
unfoldable pub random_source_ip_net : (ℕ → ℕ → ℕ) → Packet → ℕ → ℕ → Packet
random_source_ip_net rand p first prefixlen =
    let start = htonl first in
    let size = 2 ^ (32 - prefixlen) in
    let address = rand start (u32 (start + size + 2 ^ 32 - 1)) in
    record p { buffer = store32 p.buffer 12 (htonl address); chksum_valid = false }

-- The captured packet begins at address 0 of `pkt`. `chksum_valid` is left as it is.
unfoldable pub use_source_from_pcap : Packet → Memory → Packet
use_source_from_pcap p pkt =
    let m = store32 p.buffer 12 (load32 pkt (14 + 12)) in
    record p { buffer = store16 m isz (load16 pkt (14 + isz)) }

unfoldable pub set_destination : Packet → ℕ → ℕ → Packet
set_destination p ip port =
    let m = store32 p.buffer 16 ip in
    record p { buffer = store16 m (isz + 2) (htons port); chksum_valid = false }

unfoldable pub set_ip_id : Packet → ℕ → Packet
set_ip_id p id = record p { buffer = store16 p.buffer 4 (htons id); chksum_valid = false }

unfoldable pub set_dns_id : Packet → ℕ → Packet
set_dns_id p id = record p {
  buffer = store16 p.buffer (isz + usz) (htons id);
  chksum_valid = false;
}

-- `setPayload(payload + from, size)`
unfoldable pub set_payload : Packet → Memory → ℕ → ℕ → Result Packet
unfolding set_lengths
set_payload p payload from size =
    if ltb maxpacketsize (u64 (size + isz + usz))
    then throw buffer_overflow
    else ok (record {
      buffer = set_lengths (memcpy p.buffer (isz + usz) payload from size) (u32 size);
      payload_size = u32 size;
      chksum_valid = false;
    })

-- The room that is passed on is `buffersize - ISZ + USZ`.
unfoldable pub set_payload_dns_query : Strings → Resolver → Packet → String → Bool → Result Packet
unfolding set_lengths
set_payload_dns_query strings mkquery p query dnssec =
    make_query strings mkquery query p.buffer (isz + usz) (maxpacketsize - isz + usz) dnssec 4096
    >>= λ (size, m).
        ok (record { buffer = set_lengths m size; payload_size = size; chksum_valid = false })

unfoldable pub update_checksums : Packet → Packet
update_checksums p =
    let m = store16 p.buffer 10 0 in
    let m = store16 m 10 (in_cksum m 0 isz) in
    let m = store16 m 26 0 in
    let m = store16 m 26 (udp_cksum m p.payload_size) in
    record p { buffer = m; chksum_valid = true }

-- `Packet::size`
unfoldable pub size : Packet → ℕ
size p = u64 (isz + usz + to_size_t p.payload_size)

-- `Packet::ptr`: the packet as it is handed to the socket.
unfoldable pub ptr : Packet → Packet
ptr p = if p.chksum_valid then p else update_checksums p
