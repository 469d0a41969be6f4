-- ===== src/RawSocketReceiver/Resources.antt =====
-- src/raw_socket_receiver.cpp: the constructor and the destructor, as compiled for Linux and for FreeBSD, with what
-- they ask of the system.
pub mod Linux
pub mod ZeroCopy
pub mod FreeBsd
use dnsmeter.Base.{ℕ, zero, suc, ◌+◌, ◌-◌, Bool, true, false, Option, none, some, if◌then◌else◌}
use dnsmeter.Exceptions.{
  Exception, Result, ok, throw, out_of_memory, system_call_failed,
  failed_to_initialize_packetfilter,
}
use dnsmeter.System.{
  World, Act, return, fail, ◌>>=◌, ◌>>◌, try_catch, free, close, ask, malloc, open_descriptor,
}

-- `buffer`, `sd`, and where `useZeroCopyBuffer` is set the blocks `bz_bufa` and `bz_bufb`.
pub record Handles : Type 0 where
  pub buffer : ℕ
  pub sd : ℕ
  pub zero_copy : Option (ℕ × ℕ)

-- `throwExceptionFromErrno` where a call is refused.
abbrev pub require : Bool → Act (Unit {0})
require true = return tt
require false = fail system_call_failed

unfoldable pub delete_buffers : Option (ℕ × ℕ) → Act (Unit {0})
delete_buffers none = return tt
delete_buffers (some (bz_bufa, bz_bufb)) = free bz_bufa >> free bz_bufb

-- The destructor.
unfoldable pub delete_receiver : Handles → Act (Unit {0})
delete_receiver r = close r.sd >> delete_buffers r.zero_copy >> free r.buffer

module _ (answers : ℕ → Bool) where
  -- The constructor on Linux.
  unfoldable pub non_blocking : ℕ → ℕ → Bool → Act Handles
  non_blocking buffer sd true = return (record { buffer = buffer; sd = sd; zero_copy = none })
  non_blocking buffer sd false = close sd >> free buffer >> fail system_call_failed

  unfoldable pub open_socket : ℕ → Option ℕ → Act Handles
  open_socket buffer none = free buffer >> fail system_call_failed
  open_socket buffer (some sd) = ask answers >>= non_blocking buffer sd

  unfoldable pub with_buffer : Option ℕ → Act Handles
  with_buffer none = fail out_of_memory
  with_buffer (some buffer) = open_descriptor answers >>= open_socket buffer

  unfoldable pub new_receiver : Act Handles
  new_receiver = malloc answers >>= with_buffer

  unfoldable pub use_device : Act ℕ → Option ℕ → Act ℕ
  use_device next none = next
  use_device next (some sd) = return sd

  -- `open_bpf`, with `n` devices left.
  unfoldable pub open_bpf : ℕ → Act ℕ
  open_bpf zero = fail system_call_failed
  open_bpf (suc n) = open_descriptor answers >>= use_device (open_bpf n)

  -- `tryAllocZeroCopyBuffer`
  unfoldable pub set_zbuf : ℕ → ℕ → Bool → Act (Option (ℕ × ℕ))
  set_zbuf bz_bufa bz_bufb true = return (some (bz_bufa, bz_bufb))
  set_zbuf bz_bufa bz_bufb false = free bz_bufa >> free bz_bufb >> return none

  unfoldable pub alloc_second : ℕ → Option ℕ → Act (Option (ℕ × ℕ))
  alloc_second bz_bufa none = free bz_bufa >> fail out_of_memory
  alloc_second bz_bufa (some bz_bufb) = ask answers >>= set_zbuf bz_bufa bz_bufb

  unfoldable pub alloc_first : Option ℕ → Act (Option (ℕ × ℕ))
  alloc_first none = fail out_of_memory
  alloc_first (some bz_bufa) = malloc answers >>= alloc_second bz_bufa

  unfoldable pub try_alloc_zero_copy_buffer : Act (Option (ℕ × ℕ))
  try_alloc_zero_copy_buffer = malloc answers >>= alloc_first

  unfoldable pub or_give_up : Option (ℕ × ℕ) → Act (ℕ × ℕ)
  or_give_up (some zbuf) = return zbuf
  or_give_up none = fail failed_to_initialize_packetfilter

  -- The second attempt, with smaller buffers.
  unfoldable pub try_again : Option (ℕ × ℕ) → Act (ℕ × ℕ)
  try_again (some zbuf) = return zbuf
  try_again none = try_alloc_zero_copy_buffer >>= or_give_up

  unfoldable pub init_zero_copy_buffer : Act (ℕ × ℕ)
  init_zero_copy_buffer = do
    bufmode ← ask answers
    _ ← require bufmode
    tstype ← ask answers
    _ ← require tstype
    first ← try_alloc_zero_copy_buffer
    try_again first

  unfoldable pub init_buffered_mode : Act (Unit {0})
  init_buffered_mode = do
    bufmode ← ask answers
    _ ← require bufmode
    buflen ← ask answers
    require buflen

  unfoldable pub set_mode : Act (Unit {0})
  set_mode = do _ ← init_buffered_mode; unblocked ← ask answers; require unblocked

  -- The constructor on FreeBSD, from the second buffer on.
  unfoldable pub buffered : ℕ → Option ℕ → Act Handles
  buffered sd none = close sd >> fail out_of_memory
  buffered sd (some buffer) = do
    _ ← try_catch set_mode (λ e. free buffer >> close sd >> fail e)
    return (record { buffer = buffer; sd = sd; zero_copy = none })

  unfoldable pub choose_mode : ℕ → ℕ → Option (ℕ × ℕ) → Act Handles
  choose_mode sd buffer (some zbuf) =
      return (record { buffer = buffer; sd = sd; zero_copy = some zbuf })
  choose_mode sd buffer none = malloc answers >>= buffered sd

  -- The first `try` of the constructor on FreeBSD.
  unfoldable pub use_zero_copy : Act (Option (ℕ × ℕ))
  use_zero_copy = init_zero_copy_buffer >>= λ zbuf. return (some zbuf)

  unfoldable pub with_zbuf : ℕ → Option ℕ → Act Handles
  with_zbuf sd none = close sd >> fail out_of_memory
  with_zbuf sd (some buffer) = do
    zbuf ← try_catch use_zero_copy (λ _. free buffer >> return none)
    choose_mode sd buffer zbuf

  unfoldable pub new_bpf_receiver : Act Handles
  new_bpf_receiver = do sd ← open_bpf 255; buffer ← malloc answers; with_zbuf sd buffer

  -- `initInterface` on FreeBSD.
  unfoldable pub init_interface : Act (Unit {0})
  init_interface = do
    bound ← ask answers
    _ ← require bound
    promiscuous ← ask answers
    require promiscuous
