-- ===== src/RawSocketReceiver.antt =====
-- src/raw_socket_receiver.cpp, src/raw_socket_receiver.h: the filter of the answers, and the counters. The
-- frames that `recvfrom` gives and the clock come with each call. Round trip times are in units of
-- 1/10000 s, by which `getQueryRTT` divides.
pub mod Filter
pub mod Totals
pub mod Bpf
pub mod Buffers
pub mod Program
mod Machine
pub mod Resources
mod Tests
use dnsmeter.Base.{
  ℕ, ◌+◌, ◌-◌, ◌/◌, ◌%◌, ◌≤◌, ◌<◌, Bool, true, false, ◌&&◌, ◌||◌, List, [], ◌∷◌, Option, none, some,
  ltb, ◌==◌, if◌then◌else◌, htons, Memory, load16, load32, memcpy, sub64,
}
use dnsmeter.Pplib.{ByteArray}
use dnsmeter.Query.{TimeVal, get_query_rtt}
use dnsmeter.RawSocketSender.{IpAddress}

-- `RawSocketReceiver::Counter`
pub record Counter : Type 0 where
  pub num_pkgs : ℕ
  pub bytes_rcv : ℕ
  pub rcodes : ℕ → ℕ
  pub truncated : ℕ
  pub rtt_total : ℕ
  pub rtt_min : ℕ
  pub rtt_max : ℕ

-- `Counter::clear`. The loop leaves the last of the 16 entries of `rcodes` as it is.
unfoldable pub clear : Counter → Counter
clear c = record {
  num_pkgs = 0;
  bytes_rcv = 0;
  rcodes = λ i. if ltb i 15 then 0 else c.rcodes i;
  truncated = 0;
  rtt_total = 0;
  rtt_min = 0;
  rtt_max = 0;
}

pub record RawSocketReceiver : Type 0 where
  pub source_ip : IpAddress
  pub source_port : ℕ
  pub buffer : Memory
  pub buflen : ℕ

-- The constructor, where the socket opens. `malloced` is the block of the buffer.
abbrev pub new_raw_socket_receiver : Memory → RawSocketReceiver
new_raw_socket_receiver malloced = record {
  source_ip = record { is_ipv4 = true; addr = 0 };
  source_port = 0;
  buffer = malloced;
  buflen = 4096;
}

-- `setSource`, without the packet filter that it installs on FreeBSD.
unfoldable pub set_source : RawSocketReceiver → IpAddress → ℕ → RawSocketReceiver
set_source r ip port = record r { source_ip = ip; source_port = htons port }

-- The response code and the bit `tc` of the DNS header of the frame at address `at`.
abbrev pub rcode : Memory → ℕ → ℕ
rcode m at = m (at + 45) % 16

abbrev pub tc : Memory → ℕ → Bool
tc m at = m (at + 44) / 2 % 2 == 1

-- `count_packet`, of the frame at address `at`.
unfoldable pub count_packet : Counter → Option TimeVal → Memory → ℕ → ℕ → Counter
count_packet c clock m at size =
    let rd = get_query_rtt clock (htons (load16 m (at + 42))) in
    record {
      num_pkgs = c.num_pkgs + 1;
      bytes_rcv = c.bytes_rcv + size;
      rcodes =
          if ltb (rcode m at) 16
          then (λ i. if i == rcode m at then c.rcodes i + 1 else c.rcodes i)
          else c.rcodes;
      truncated = if tc m at then c.truncated + 1 else c.truncated;
      rtt_total = c.rtt_total + rd;
      rtt_min = if ltb rd c.rtt_min || c.rtt_min == 0 then rd else c.rtt_min;
      rtt_max = if ltb c.rtt_max rd then rd else c.rtt_max;
    }

-- The buffer after `recvfrom`, and what it returns; `none` is a failure.
unfoldable pub recvfrom : RawSocketReceiver → Option ByteArray → RawSocketReceiver × Option ℕ
recvfrom r none = (r, none)
recvfrom r (some f) =
    let n = if ltb r.buflen f.size then r.buflen else f.size in
    (record r { buffer = memcpy r.buffer 0 f.bytes 0 n }, some n)

-- The tests of `receive` on a buffer with `bufused` bytes.
unfoldable pub is_answer : RawSocketReceiver → ℕ → Bool
is_answer r bufused =
    if ltb bufused 34
    then false
    else load16 r.buffer 12 == htons 0x0800
      && r.buffer 14 / 16 == 4
      && load32 r.buffer 26 == r.source_ip.addr
      && load16 r.buffer 34 == r.source_port

-- `receive`, as it is compiled for Linux.
unfoldable pub receive :
    RawSocketReceiver → Option ByteArray → Option TimeVal → Counter → RawSocketReceiver × Counter
receive r arrived clock c =
    let (r', used) = recvfrom r arrived in
    elim used [
      | none ↦ (r', c)
      | some bufused ↦
          (r', if is_answer r' bufused then count_packet c clock r'.buffer 0 bufused else c)
    ]

-- `read_buffer` of FreeBSD. The fields of a `struct bpf_hdr` and `BPF_WORDALIGN` are parameters. There is a
-- reading of the clock for each packet; `none` means that they have run out.
module _ (bh_caplen bh_hdrlen bh_datalen : Memory → ℕ → ℕ) (bpf_wordalign : ℕ → ℕ) where
  unfoldable pub read_buffer : List (Option TimeVal) → Memory → ℕ → ℕ → ℕ → Counter → Option Counter
  read_buffer [] m ptr done size c =
      if ltb done size
      then (if bh_caplen m ptr == 0 || bh_hdrlen m ptr == 0 then some c else none)
      else some c
  read_buffer (clock ∷ clocks) m ptr done size c =
      let chunk_size = bpf_wordalign (bh_caplen m ptr + bh_hdrlen m ptr) in
      let counted =
        count_packet c clock m (ptr + bh_hdrlen m ptr) (sub64 chunk_size (bh_datalen m ptr)) in
      let more = read_buffer clocks m (ptr + chunk_size) (done + chunk_size) size counted in
      if ltb done size
      then (if bh_caplen m ptr == 0 || bh_hdrlen m ptr == 0 then some c else more)
      else some c
