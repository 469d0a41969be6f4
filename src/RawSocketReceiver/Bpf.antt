-- ===== src/RawSocketReceiver/Bpf.antt =====
-- src/raw_socket_receiver.cpp: what `read_buffer` counts of a packet filter's buffer on FreeBSD.
use dnsmeter.Base.{
  ℕ, ◌+◌, ◌^◌, ◌≤◌, ◌<◌, ◌≡◌, ap, subst, List, [], ◌∷◌, map, Option, some, arith, length, sum, All,
  Memory, sub64,
}
use dnsmeter.Query.{TimeVal}
use dnsmeter.RawSocketReceiver.{Counter, count_packet, read_buffer}

module _ (bh_caplen bh_hdrlen bh_datalen : Memory → ℕ → ℕ) (bpf_wordalign : ℕ → ℕ) where
  abbrev pub chunk_size : Memory → ℕ → ℕ
  chunk_size m ptr = bpf_wordalign (bh_caplen m ptr + bh_hdrlen m ptr)

  -- The chunks of a buffer from `ptr` on, of which `done` bytes out of `size` are read: the addresses of their
  -- headers, up to the end of the buffer.
  abbrev pub Chunks : Memory → ℕ → ℕ → ℕ → List ℕ → Type 0
  Chunks m ptr done size [] = size ≤ done
  Chunks m ptr done size (p ∷ ps) =
      (p ≡ ptr)
      × (done < size)
      × ((0 < bh_caplen m ptr) × (0 < bh_hdrlen m ptr))
      × Chunks m (ptr + chunk_size m ptr) (done + chunk_size m ptr) size ps

  -- The documented behaviour of the packet filter and of `BPF_WORDALIGN`, where packets are captured whole:
  -- the length of a chunk is that of header and packet, rounded up to a multiple of 8 at most.
  abbrev pub IsWhole : Memory → ℕ → Type 0
  IsWhole m ptr =
      (bh_datalen m ptr ≡ bh_caplen m ptr)
      × (bh_caplen m ptr + bh_hdrlen m ptr ≤ chunk_size m ptr)
      × (chunk_size m ptr < bh_caplen m ptr + bh_hdrlen m ptr + 8)
      × (chunk_size m ptr < 2 ^ 64)

  header_and_padding :
      (m : Memory) (ptr : ℕ)
      → IsWhole m ptr
      → let n = sub64 (chunk_size m ptr) (bh_datalen m ptr) in
        (bh_hdrlen m ptr ≤ n) × (n ≤ bh_hdrlen m ptr + 7)
  header_and_padding m ptr w = ground arith

  -- The packets of the chunks are counted, and the loop ends at the end of the buffer, where there is a
  -- reading of the clock for each. Where packets are captured whole, what is counted for each as its bytes
  -- is the length of the packet filter's header with the padding, whatever the length of the packet.
  pub read_buffer-Chunks :
      (clocks : List (Option TimeVal)) (m : Memory) (ptr done size : ℕ) (ptrs : List ℕ)
      (c : Counter)
      → Chunks m ptr done size ptrs
      → All (IsWhole m) ptrs
      → length ptrs ≤ length clocks
      → (c' : Counter) × (read_buffer bh_caplen bh_hdrlen bh_datalen bpf_wordalign clocks m ptr done
            size c
          ≡ some c')
        × (c'.num_pkgs ≡ c.num_pkgs + length ptrs)
        × (c.bytes_rcv + sum (map (bh_hdrlen m) ptrs) ≤ c'.bytes_rcv)
        × (c'.bytes_rcv ≤ c.bytes_rcv + sum (map (λ p. bh_hdrlen m p + 7) ptrs))
  unfolding read_buffer count_packet
  read_buffer-Chunks [] m ptr done size [] c chunks whole enough =
      (c, ground arith, omega arith, omega arith, omega arith)
  read_buffer-Chunks (_ ∷ _) m ptr done size [] c chunks whole enough =
      (c, ground arith, omega arith, omega arith, omega arith)
  read_buffer-Chunks [] m ptr done size (p ∷ ps) c chunks whole enough = absurd (omega arith)
  read_buffer-Chunks (clock ∷ clocks) m ptr done size (p ∷ ps) c (here, more, full, chunks)
        (w, whole) enough =
      let n = chunk_size m ptr in
      let counted = count_packet c clock m (ptr + bh_hdrlen m ptr) (sub64 n (bh_datalen m ptr)) in
      let (c', e, pkgs, low, high) =
        read_buffer-Chunks clocks m (ptr + n) (done + n) size ps counted chunks whole
          (omega arith) in
      let (above, below) = header_and_padding m ptr (subst (IsWhole m) here w) in
      let same = ap (bh_hdrlen m) here in
      (
        c',
        ground (arith, e),
        omega (arith, pkgs),
        omega (arith, low, above, same),
        omega (arith, high, below, same),
      )
