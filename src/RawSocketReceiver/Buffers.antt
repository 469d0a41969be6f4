-- ===== src/RawSocketReceiver/Buffers.antt =====
-- src/raw_socket_receiver.cpp: `receive` as it is compiled for FreeBSD, on the buffers that it shares with the kernel.
use dnsmeter.Base.{
  ℕ, ◌≡◌, refl, subst, Bool, false, not, List, Option, none, some, arith, ltb, ◌==◌, if◌then◌else◌,
  Memory, sub64, Bool-cases, Option-cases, inl, inr,
}
use dnsmeter.Query.{TimeVal}
use dnsmeter.RawSocketReceiver.{Counter, read_buffer}

-- A buffer with its `struct bpf_zbuf_header` at the start.
pub record Zbuf : Type 0 where
  pub bzh_user_gen : ℕ
  pub bzh_kernel_gen : ℕ
  pub bzh_kernel_len : ℕ
  pub memory : Memory

unfoldable pub buffer_acknowledge : Zbuf → Zbuf
buffer_acknowledge z = record z { bzh_user_gen = z.bzh_kernel_gen }

-- The kernel has filled the buffer.
unfoldable pub buffer_check : Zbuf → Bool
buffer_check z = not (z.bzh_user_gen == z.bzh_kernel_gen)

-- The fields of a `struct bpf_hdr`, `BPF_WORDALIGN` and the size of the header of a buffer are parameters.
module _ (bh_caplen bh_hdrlen bh_datalen : Memory → ℕ → ℕ) (bpf_wordalign : ℕ → ℕ)
    (sizeof_header : ℕ) where
  unfoldable pub read_zbuffer : List (Option TimeVal) → Zbuf → Counter → Option (Zbuf × Counter)
  read_zbuffer clocks z c =
      elim (read_buffer bh_caplen bh_hdrlen bh_datalen bpf_wordalign clocks z.memory sizeof_header 0
        (sub64 z.bzh_kernel_len sizeof_header) c) [
          | none ↦ none
          | some c' ↦ some (buffer_acknowledge z, c')
        ]

  -- One of the two tests of `receive`.
  unfoldable pub check_zbuffer : List (Option TimeVal) → Zbuf → Counter → Option (Zbuf × Counter)
  check_zbuffer clocks z c =
      let filled = read_zbuffer clocks z c in if buffer_check z then filled else some (z, c)

  -- `receive` with zero copy, on both buffers, with readings of the clock for each.
  unfoldable pub receive_zero_copy :
      List (Option TimeVal)
      → List (Option TimeVal)
      → Zbuf
      → Zbuf
      → Counter
      → Option (Zbuf × Zbuf × Counter)
  receive_zero_copy clocks_a clocks_b a b c = elim (check_zbuffer clocks_a a c) [
    | none ↦ none
    | some (a', c') ↦ elim (check_zbuffer clocks_b b c') [
      | none ↦ none
      | some (b', c'') ↦ some (a', b', c'')
    ]
  ]

  -- `receive` without it. `bufused` is what `read` has put into the buffer, and `none` where it fails.
  unfoldable pub receive_buffered :
      List (Option TimeVal) → Memory → Option ℕ → Counter → Option Counter
  receive_buffered clocks m none c = some c
  receive_buffered clocks m (some bufused) c =
      let counted =
        read_buffer bh_caplen bh_hdrlen bh_datalen bpf_wordalign clocks m 0 0 bufused c in
      if ltb bufused 34 then some c else counted

  -- A buffer that is given back to the kernel, in what a test gives.
  unfoldable Returned : Option (Zbuf × Counter) → Type 0
  Returned none = Unit
  Returned (some (z, c)) = buffer_check z ≡ false

  unfoldable BothReturned : Option (Zbuf × Zbuf × Counter) → Type 0
  BothReturned none = Unit
  BothReturned (some (a, b, c)) = (buffer_check a ≡ false) × (buffer_check b ≡ false)

  acknowledged : (z : Zbuf) → buffer_check (buffer_acknowledge z) ≡ false
  unfolding buffer_check buffer_acknowledge
  acknowledged z = ground arith

  check_zbuffer-Returned :
      (clocks : List (Option TimeVal)) (z : Zbuf) (c : Counter)
      → Returned (check_zbuffer clocks z c)
  unfolding check_zbuffer read_zbuffer Returned
  check_zbuffer-Returned clocks z c = elim (Bool-cases (buffer_check z)) [
    | inr empty ↦ rw (empty, check_zbuffer) (rw empty refl)
    | inl filled ↦
        elim (Option-cases (
          read_buffer bh_caplen bh_hdrlen bh_datalen bpf_wordalign clocks z.memory sizeof_header 0
            (sub64 z.bzh_kernel_len sizeof_header) c)) [
              | inl e ↦ rw (filled, e, check_zbuffer, read_zbuffer) tt
              | inr (c', e) ↦ rw (filled, e, check_zbuffer, read_zbuffer) (acknowledged z)
            ]
  ]

  first_of :
      (o : Option (Zbuf × Counter)) (z : Zbuf) (c : Counter)
      → Returned o
      → o ≡ some (z, c)
      → buffer_check z ≡ false
  unfolding Returned
  first_of o z c returned e = subst Returned e returned

  receive_zero_copy-BothReturned :
      (clocks_a clocks_b : List (Option TimeVal)) (a b : Zbuf) (c : Counter)
      → BothReturned (receive_zero_copy clocks_a clocks_b a b c)
  unfolding receive_zero_copy BothReturned
  receive_zero_copy-BothReturned clocks_a clocks_b a b c =
      elim (Option-cases (check_zbuffer clocks_a a c)) [
        | inl e ↦ rw (e, receive_zero_copy) tt
        | inr ((a', c'), e) ↦ elim (Option-cases (check_zbuffer clocks_b b c')) [
          | inl g ↦ rw (e, g, receive_zero_copy) tt
          | inr ((b', c''), g) ↦
              rw (e, g, receive_zero_copy)
                (
                  first_of (check_zbuffer clocks_a a c) a' c' (check_zbuffer-Returned clocks_a a c)
                      e,
                  first_of (check_zbuffer clocks_b b c') b' c''
                      (check_zbuffer-Returned clocks_b b c') g,
                )
        ]
      ]

  -- `receive` with zero copy gives both buffers back to the kernel, so that no packet is counted twice: a second one,
  -- before the kernel has filled a buffer again, changes nothing.
  pub receive_zero_copy-once :
      (clocks_a clocks_b again_a again_b : List (Option TimeVal)) (a b : Zbuf) (c : Counter)
      (a' b' : Zbuf) (c' : Counter)
      → receive_zero_copy clocks_a clocks_b a b c ≡ some (a', b', c')
      → (buffer_check a' ≡ false)
        × (buffer_check b' ≡ false)
        × (receive_zero_copy again_a again_b a' b' c' ≡ some (a', b', c'))
  unfolding receive_zero_copy check_zbuffer BothReturned
  receive_zero_copy-once clocks_a clocks_b again_a again_b a b c a' b' c' e =
      let (first, second) =
        subst BothReturned e (receive_zero_copy-BothReturned clocks_a clocks_b a b c) in
      (first, second, rw (first, second, receive_zero_copy, check_zbuffer) refl)
