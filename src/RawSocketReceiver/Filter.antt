-- ===== src/RawSocketReceiver/Filter.antt =====
-- src/raw_socket_receiver.cpp: which frames `receive` counts.
use dnsmeter.Base.{
  ℕ, ◌/◌, ◌≤◌, ◌<◌, ◌≡◌, ◌⊎◌, inl, inr, ◌∙◌, refl, ap, Bool-cases, some, none, Option, arith, ltb,
  memcpy, ◌↔◌, if◌then◌else◌, load32, net16, IsBytes, Memory, true, false,
}
use dnsmeter.Pplib.{ByteArray}
use dnsmeter.Query.{TimeVal}
use dnsmeter.RawSocketSender.{IpAddress}
use dnsmeter.RawSocketReceiver.{
  RawSocketReceiver, Counter, set_source, count_packet, recvfrom, is_answer, receive,
}

-- An Ethernet frame with an IPv4 packet from the given address and, behind 20 bytes of IP header, port.
pub record IsFrom (ip : IpAddress) (port : ℕ) (f : ByteArray) : Type 0 where
  pub ethernet_type : net16 f.bytes 12 ≡ 0x0800
  pub version : f.bytes 14 / 16 ≡ 4
  pub address : load32 f.bytes 26 ≡ ip.addr
  pub source_port : net16 f.bytes 34 ≡ port

-- The frame stands in the buffer.
abbrev Stands : RawSocketReceiver → ByteArray → Type 0
Stands r f = (i : ℕ) → i < f.size → r.buffer i ≡ f.bytes i

received :
    (r : RawSocketReceiver) (f : ByteArray)
    → f.size ≤ r.buflen
    → (b : Memory) × (recvfrom r (some f) ≡ (record r { buffer = b }, some f.size))
      × Stands (record r { buffer = b }) f
unfolding recvfrom
received r f fits =
    let whole : ltb r.buflen f.size ≡ false = ground arith in
    (memcpy r.buffer 0 f.bytes 0 f.size, rw whole, λ i h. ground arith)

is_answer-IsFrom :
    (r : RawSocketReceiver) (ip : IpAddress) (port : ℕ) (f : ByteArray)
    → port < 65536
    → IsBytes f.bytes
    → 36 ≤ f.size
    → Stands (set_source r ip port) f
    → (is_answer (set_source r ip port) f.size ≡ true) ↔ IsFrom ip port f
unfolding is_answer set_source
is_answer-IsFrom r ip port f hp hb big s =
    ground (arith, hb 12, hb 13, hb 34, hb 35, s 12, s 13, s 14, s 26, s 27, s 28, s 29, s 34, s 35)

count_packet-Stands :
    (c : Counter) (clock : Option TimeVal) (r : RawSocketReceiver) (f : ByteArray)
    → 46 ≤ f.size
    → Stands r f
    → count_packet c clock r.buffer 0 f.size ≡ count_packet c clock f.bytes 0 f.size
unfolding count_packet
count_packet-Stands c clock r f big s =
    simp (s 42 (omega arith), s 43 (omega arith), s 44 (omega arith), s 45 (omega arith))

-- `receive` after `recvfrom`.
counted : Counter → Option TimeVal → RawSocketReceiver × Option ℕ → RawSocketReceiver × Counter
counted c clock (r, none) = (r, c)
counted c clock (r, some n) = (r, if is_answer r n then count_packet c clock r.buffer 0 n else c)

receive-counted :
    (r : RawSocketReceiver) (arrived : Option ByteArray) (clock : Option TimeVal) (c : Counter)
    → receive r arrived clock c ≡ counted c clock (recvfrom r arrived)
unfolding receive recvfrom counted
receive-counted r none clock c = refl
receive-counted r (some f) clock c = refl

-- A failure of `recvfrom` changes no counter, and a frame is counted if it passes the tests.
pub receive-none :
    (r : RawSocketReceiver) (arrived : Option ByteArray) (clock : Option TimeVal) (c : Counter)
    → (recvfrom r arrived).1 ≡ none
    → receive r arrived clock c ≡ ((recvfrom r arrived).0, c)
unfolding counted
receive-none r arrived clock c e =
    receive-counted r arrived clock c
    ∙ ap (λ (o : Option ℕ). counted c clock ((recvfrom r arrived).0, o)) e

pub receive-some :
    (r : RawSocketReceiver) (arrived : Option ByteArray) (clock : Option TimeVal) (c : Counter)
    {n : ℕ}
    → (recvfrom r arrived).1 ≡ some n
    → receive r arrived clock c ≡ (
      (recvfrom r arrived).0,
      if is_answer (recvfrom r arrived).0 n
          then count_packet c clock (recvfrom r arrived).0.buffer 0 n
          else c,
    )
unfolding counted
receive-some r arrived clock c e =
    receive-counted r arrived clock c
    ∙ ap (λ (o : Option ℕ). counted c clock ((recvfrom r arrived).0, o)) e

-- A frame of at least 54 bytes, which hold the headers up to the DNS header, that fits the buffer is counted, with
-- its size, exactly if it comes from the address and the port that were set; any other leaves the counters as they
-- are.
pub receive-IsFrom :
    (r : RawSocketReceiver) (ip : IpAddress) (port : ℕ) (f : ByteArray) (clock : Option TimeVal)
    (c : Counter)
    → port < 65536
    → IsBytes f.bytes
    → 54 ≤ f.size
    → f.size ≤ r.buflen
    → let (r', c') = receive (set_source r ip port) (some f) clock c in
      (IsFrom ip port f × (c' ≡ count_packet c clock f.bytes 0 f.size))
      ⊎ ((IsFrom ip port f → ⊥) × (c' ≡ c))
unfolding set_source counted
receive-IsFrom r ip port f clock c hp hb big fits =
    let (b, e, s) = received (set_source r ip port) f fits in
    let same = is_answer-IsFrom (record r { buffer = b }) ip port f hp hb (omega arith) s in
    rw (receive-counted (set_source r ip port) (some f) clock c ∙ ap (counted c clock) e)
      (elim (Bool-cases (is_answer (set_source (record r { buffer = b }) ip port) f.size)) [
        | inl a ↦ rw a (
            inl (same.0 a, count_packet-Stands c clock (record r { buffer = b }) f (omega arith) s))
        | inr a ↦ rw a (inr ((λ from. cc (same.1 from)), refl))
      ])
