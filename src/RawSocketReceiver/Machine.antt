-- ===== src/RawSocketReceiver/Machine.antt =====
-- A machine that runs packet filter programs, for runs of the program of src/raw_socket_receiver.cpp, and what the
-- system may answer its constructors.
use mathlib.Core.Option.{some-injective}
use dnsmeter.Base.{
  ℕ, zero, suc, ◌+◌, ◌-◌, ◌≡◌, ◌⊎◌, ◌^◌, ap, fun_ext, refl, ◌∙◌, Bool, true, false, not, List, [],
  ◌∷◌, Option, none, some, arith, ◌==◌, if◌then◌else◌, get_elem?, net16, net32,
}
use dnsmeter.Pplib.{ByteArray}
use dnsmeter.Pplib.Samples.{ones, ones-IsBytes}
use dnsmeter.RawSocketSender.{IpAddress}
use dnsmeter.System.{World}
use dnsmeter.System.Held.{Leaves, Returns}
use dnsmeter.RawSocketReceiver.Program.{
  Insn, ld_h, ld_w, ld_b, jeq, ret, insns, IsMachine, IsUdpFrom, insns-IsUdpFrom,
}
use dnsmeter.RawSocketReceiver.Resources.{Handles, delete_receiver, new_receiver, new_bpf_receiver}
use dnsmeter.RawSocketReceiver.Resources.Linux.{IsOpen, Released, new_receiver-Leaves}
use dnsmeter.RawSocketReceiver.Resources.FreeBsd.{IsOpenBpf, new_bpf_receiver-Leaves}
use dnsmeter.Pplib.Samples.{zeros}
use dnsmeter.Query.{TimeVal}
use dnsmeter.RawSocketReceiver.{Counter, count_packet, read_buffer}
use dnsmeter.RawSocketReceiver.Buffers.{
  Zbuf, buffer_acknowledge, buffer_check, read_zbuffer, check_zbuffer, receive_zero_copy,
  receive_zero_copy-once,
}

-- One instruction; `next` goes on with the instruction so many places behind it.
abbrev step : Insn → ByteArray → (ℕ → ℕ → ℕ) → ℕ → ℕ
step (ld_h k) f next a = next 0 (net16 f.bytes k)
step (ld_w k) f next a = next 0 (net32 f.bytes k)
step (ld_b k) f next a = next 0 (f.bytes k)
step (jeq k jt jf) f next a = next (if a == k then jt else jf) a
step (ret k) f next a = k

abbrev exec : List Insn → ByteArray → ℕ → ℕ → ℕ
exec [] f pc a = 0
exec (i ∷ is) f zero a = step i f (exec is f) a
exec (i ∷ is) f (suc pc) a = exec is f pc a

-- An instruction does what `step` says, with the rest of the program behind it.
exec-step :
    (p : List Insn) (f : ByteArray) (pc a : ℕ) (i : Insn)
    → get_elem? p pc ≡ some i
    → exec p f pc a ≡ step i f (λ n b. exec p f (pc + 1 + n) b) a
exec-step [] f pc a i e = cc
exec-step (x ∷ is) f zero a i e =
    let later : (n : ℕ) → exec is f n ≡ exec (x ∷ is) f (0 + 1 + n) =
      λ n. let e : suc n ≡ 0 + 1 + n = omega arith in ap (exec (x ∷ is) f) e in
    ap (λ (j : Insn). step j f (exec is f) a) (some-injective x i e)
    ∙ ap (λ (g : ℕ → ℕ → ℕ). step i f g a) (fun_ext later)
exec-step (x ∷ is) f (suc pc) a i e =
    let later : (n : ℕ) → exec is f (pc + 1 + n) ≡ exec (x ∷ is) f (suc pc + 1 + n) =
      λ n. let e : suc (pc + 1 + n) ≡ suc pc + 1 + n = omega arith in ap (exec (x ∷ is) f) e in
    exec-step is f pc a i e ∙ ap (λ (g : ℕ → ℕ → ℕ). step i f g a) (fun_ext later)

-- The instruction after this one.
exec-next :
    (p : List Insn) (f : ByteArray) (pc a b : ℕ) → exec p f (pc + 1 + 0) b ≡ exec p f (pc + 1) b
exec-next p f pc a b = let e : pc + 1 + 0 ≡ pc + 1 = omega arith in ap (λ (n : ℕ). exec p f n b) e

exec-IsMachine : IsMachine exec
exec-IsMachine = record {
  load_h =
      λ p f pc a k e fits. exec-step p f pc a (ld_h k) e ∙ exec-next p f pc a (net16 f.bytes k);
  load_w =
      λ p f pc a k e fits. exec-step p f pc a (ld_w k) e ∙ exec-next p f pc a (net32 f.bytes k);
  load_b = λ p f pc a k e fits. exec-step p f pc a (ld_b k) e ∙ exec-next p f pc a (f.bytes k);
  jump = λ p f pc a k jt jf e. exec-step p f pc a (jeq k jt jf) e;
  return = λ p f pc a k e. exec-step p f pc a (ret k) e;
}

abbrev server : IpAddress
server = record { is_ipv4 = true; addr = 16777343 }

abbrev frame : ByteArray
frame = record { bytes = ones; size = 60 }

insns-IsUdpFrom_example :
    (IsUdpFrom server 53 frame × (exec (insns server 53) frame 0 0 ≡ 2 ^ 32 - 1))
    ⊎ ((IsUdpFrom server 53 frame → ⊥) × (exec (insns server 53) frame 0 0 ≡ 0))
insns-IsUdpFrom_example =
    insns-IsUdpFrom exec exec-IsMachine server 53 frame 0 (omega arith) ones-IsBytes (omega arith)

-- A program that holds something already.
abbrev before : World
before = record { blocks = 3 ∷ []; descriptors = 2 ∷ []; fresh = 7; calls = 0; misused = false }

-- The system refuses the third call: `fcntl` on Linux, `BIOCSETBUFMODE` on FreeBSD.
abbrev answers : ℕ → Bool
answers n = not (n == 2)

new_receiver-Leaves_example :
    Leaves before
      (λ (r : Handles) (v : World).
        IsOpen before r v × Returns (Released before) (delete_receiver r v))
      (new_receiver answers before)
new_receiver-Leaves_example = new_receiver-Leaves answers before

new_bpf_receiver-Leaves_example :
    Leaves before
      (λ (r : Handles) (v : World).
        IsOpenBpf before r v × Returns (Released before) (delete_receiver r v))
      (new_bpf_receiver answers before)
new_bpf_receiver-Leaves_example = new_bpf_receiver-Leaves answers before

-- One buffer holds a packet of 60 bytes behind a header of 18 bytes, and the other none.
abbrev filled : Zbuf
filled = record { bzh_user_gen = 0; bzh_kernel_gen = 1; bzh_kernel_len = 88; memory = zeros }

abbrev unfilled : Zbuf
unfilled = record { bzh_user_gen = 4; bzh_kernel_gen = 4; bzh_kernel_len = 88; memory = zeros }

abbrev none_yet : Counter
none_yet = record {
  num_pkgs = 0;
  bytes_rcv = 0;
  rcodes = zeros;
  truncated = 0;
  rtt_total = 0;
  rtt_min = 0;
  rtt_max = 0;
}

abbrev one_packet : Counter
one_packet = count_packet none_yet none zeros 26 20

abbrev receive_both : List (Option TimeVal) → Zbuf → Counter → Option (Zbuf × Zbuf × Counter)
receive_both clocks a c =
    receive_zero_copy (λ _ _. 60) (λ _ _. 18) (λ _ _. 60) (λ n. n + 2) 8 clocks [] a unfilled c

received :
    receive_both (none ∷ []) filled none_yet
    ≡ some (buffer_acknowledge filled, unfilled, one_packet)
unfolding receive_zero_copy check_zbuffer read_zbuffer read_buffer buffer_check
received = refl

receive_zero_copy-once_example :
    (buffer_check (buffer_acknowledge filled) ≡ false)
    × (buffer_check unfilled ≡ false)
    × (receive_both [] (buffer_acknowledge filled) one_packet
        ≡ some (buffer_acknowledge filled, unfilled, one_packet))
receive_zero_copy-once_example =
    receive_zero_copy-once (λ _ _. 60) (λ _ _. 18) (λ _ _. 60) (λ n. n + 2) 8 (none ∷ []) [] [] []
      filled unfilled none_yet (buffer_acknowledge filled) unfilled one_packet received
