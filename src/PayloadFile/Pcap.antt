-- ===== src/PayloadFile/Pcap.antt =====
-- src/payload_file.cpp: what `loadAndCompilePcapFile` keeps of a capture, and how a capture is told
-- from a text.
use mathlib.Core.List.{append-nil, append_assoc}
use native.Mathlib.Nat.{zero-add, add-zero}
use dnsmeter.Base.{
  ◌+◌, ◌/◌, ◌%◌, ◌≤◌, ◌≡◌, ◌∙◌, ◌↔◌, refl, true, List, [], ◌∷◌, ◌++◌, none, some, arith, sym,
  length, ◌==◌, if◌then◌else◌, net16, net32, load32, IsBytes, Bool-cases, inl, inr,
}
use dnsmeter.Exceptions.{throw, ok, invalid_query_file}
use dnsmeter.Pplib.{ByteArray, byte_array, Captured}
use dnsmeter.PayloadFile.{
  PayloadFile, is_query_packet, push_query, push_packets, load_and_compile_pcap_file, detect_pcap,
}

-- An Ethernet frame of at most 4096 captured bytes with an IPv4 packet, whose transport header, taken to
-- stand behind 20 bytes, has destination port 53, and whose DNS header is that of a standard query.
pub record IsDnsQuery (c : Captured) : Type 0 where
  pub captured : c.caplen ≤ 4096
  pub ethernet_type : net16 c.pkt 12 ≡ 0x0800
  pub version : c.pkt 14 / 16 ≡ 4
  pub port : net16 c.pkt 36 ≡ 53
  pub query : c.pkt 44 / 128 ≡ 0
  pub opcode : c.pkt 44 / 8 % 16 ≡ 0

-- The loader keeps a captured packet exactly if it is a DNS query in this sense.
pub is_query_packet-IsDnsQuery :
    (c : Captured) → IsBytes c.pkt → (is_query_packet c ≡ true) ↔ IsDnsQuery c
unfolding is_query_packet
is_query_packet-IsDnsQuery c h = ground (arith, h 12, h 13, h 36, h 37)

-- The packets that pass, in order.
abbrev pub kept : List Captured → List ByteArray
kept [] = []
kept (c ∷ cs) = if is_query_packet c then byte_array c.pkt c.caplen ∷ kept cs else kept cs

-- The queries `qs` are the packets among `cs` that are DNS queries, in order.
pub data Selects : List Captured → List ByteArray → Type 0 where
  over : Selects [] []
  keeps :
      {c : Captured} {cs : List Captured} {qs : List ByteArray}
      → IsDnsQuery c
      → Selects cs qs
      → Selects (c ∷ cs) (byte_array c.pkt c.caplen ∷ qs)
  skips :
      {c : Captured} {cs : List Captured} {qs : List ByteArray}
      → (IsDnsQuery c → ⊥)
      → Selects cs qs
      → Selects (c ∷ cs) qs

-- A file with these queries more.
abbrev pub extend : PayloadFile → List ByteArray → PayloadFile
extend f qs = record f {
  querycache = f.querycache ++ qs;
  valid_lines_in_query_file = f.valid_lines_in_query_file + length qs;
}

pub extend-nil : (f : PayloadFile) → extend f [] ≡ f
extend-nil f = simp (append-nil, add-zero)

pub extend-push :
    (f : PayloadFile) (q : ByteArray) (qs : List ByteArray)
    → extend (push_query f q) qs ≡ extend f (q ∷ qs)
unfolding push_query
extend-push f q qs = simp append_assoc (ground arith)

push_packets-extend :
    (cs : List Captured) (f : PayloadFile) → push_packets cs f ≡ extend f (kept cs)
unfolding push_packets
push_packets-extend [] f = sym (extend-nil f)
push_packets-extend (c ∷ cs) f = elim (Bool-cases (is_query_packet c)) [
  | inl keep ↦ rw keep (
      push_packets-extend cs (push_query f (byte_array c.pkt c.caplen))
      ∙ extend-push f (byte_array c.pkt c.caplen) (kept cs))
  | inr skip ↦ rw skip (push_packets-extend cs f)
]

pub load_and_compile_pcap_file-kept :
    (packets : List Captured) (f : PayloadFile)
    → (load_and_compile_pcap_file none f ≡ throw invalid_query_file)
      × (load_and_compile_pcap_file (some packets) f ≡ (
          if length (kept packets) == 0
          then throw invalid_query_file
          else ok (record f {
            payload_is_pcap = true;
            valid_lines_in_query_file = length (kept packets);
            querycache = f.querycache ++ kept packets;
          })))
unfolding load_and_compile_pcap_file
load_and_compile_pcap_file-kept packets f = (refl, rw push_packets-extend (rw zero-add))

-- A capture is detected in either byte order of the file and of the host.
pub detect_pcap-byte_order :
    (file : ByteArray)
    → IsBytes file.bytes
    → detect_pcap (λ m. load32 m 0) file ≡ detect_pcap (λ m. net32 m 0) file
unfolding detect_pcap
detect_pcap-byte_order file h = ground (arith, h 0, h 1, h 2, h 3)
