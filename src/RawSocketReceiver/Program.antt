-- ===== src/RawSocketReceiver/Program.antt =====
-- src/raw_socket_receiver.cpp: the packet filter program that `setSource` installs on FreeBSD.
use dnsmeter.Base.{
  ℕ, ◌+◌, ◌-◌, ◌^◌, ◌≤◌, ◌<◌, ◌≡◌, ◌⊎◌, inl, inr, refl, ap, sym, ◌∙◌, Bool, Bool-cases, List, [],
  ◌∷◌, some, arith, ◌==◌, if◌then◌else◌, get_elem?, htonl, load32, net16, net32, IsBytes,
}
use dnsmeter.Exceptions.{Result, ok, throw, failed_to_initialize_packetfilter}
use dnsmeter.Pplib.{ByteArray}
use dnsmeter.RawSocketSender.{IpAddress}
use dnsmeter.RawSocketReceiver.{RawSocketReceiver, set_source}

-- `struct bpf_insn`, of the instructions that the program uses: `BPF_LD` of a halfword, a word or a byte at an
-- address of the packet, `BPF_JEQ` with the distances of its jumps, and `BPF_RET`.
pub data Insn : Type 0 where
  ld_h : ℕ → Insn
  ld_w : ℕ → Insn
  ld_b : ℕ → Insn
  jeq : ℕ → ℕ → ℕ → Insn
  ret : ℕ → Insn

-- The array `insns`.
abbrev pub insns : IpAddress → ℕ → List Insn
insns ip port =
    ld_h 12
    ∷ jeq 0x0800 0 7
    ∷ ld_w 26
    ∷ jeq (htonl ip.addr) 0 5
    ∷ ld_b 23
    ∷ jeq 17 0 3
    ∷ ld_h 34
    ∷ jeq port 0 1
    ∷ ret (2 ^ 32 - 1)
    ∷ ret 0
    ∷ []

-- `setSource` on FreeBSD: the receiver and the program that is installed, where the kernel accepts it.
unfoldable pub set_source_bpf :
    Bool → RawSocketReceiver → IpAddress → ℕ → Result (RawSocketReceiver × List Insn)
set_source_bpf accepted r ip port =
    if accepted
    then ok (set_source r ip port, insns ip port)
    else throw failed_to_initialize_packetfilter

-- The documented behaviour of the packet filter's machine: what it returns for a packet, from the instruction with
-- the number `pc` on, with `a` in its register. Loads are within the packet.
pub record IsMachine (exec : List Insn → ByteArray → ℕ → ℕ → ℕ) : Type 0 where
  pub load_h :
      (p : List Insn) (f : ByteArray) (pc a k : ℕ)
      → get_elem? p pc ≡ some (ld_h k)
      → k + 2 ≤ f.size
      → exec p f pc a ≡ exec p f (pc + 1) (net16 f.bytes k)
  pub load_w :
      (p : List Insn) (f : ByteArray) (pc a k : ℕ)
      → get_elem? p pc ≡ some (ld_w k)
      → k + 4 ≤ f.size
      → exec p f pc a ≡ exec p f (pc + 1) (net32 f.bytes k)
  pub load_b :
      (p : List Insn) (f : ByteArray) (pc a k : ℕ)
      → get_elem? p pc ≡ some (ld_b k)
      → k + 1 ≤ f.size
      → exec p f pc a ≡ exec p f (pc + 1) (f.bytes k)
  pub jump :
      (p : List Insn) (f : ByteArray) (pc a k jt jf : ℕ)
      → get_elem? p pc ≡ some (jeq k jt jf)
      → exec p f pc a ≡ exec p f (pc + 1 + (if a == k then jt else jf)) a
  pub return :
      (p : List Insn) (f : ByteArray) (pc a k : ℕ)
      → get_elem? p pc ≡ some (ret k)
      → exec p f pc a ≡ k

-- An Ethernet frame with a UDP datagram from the address and the port, behind 20 bytes of IP header.
pub record IsUdpFrom (ip : IpAddress) (port : ℕ) (f : ByteArray) : Type 0 where
  pub ethernet_type : net16 f.bytes 12 ≡ 0x0800
  pub address : load32 f.bytes 26 ≡ ip.addr
  pub protocol : f.bytes 23 ≡ 17
  pub source_port : net16 f.bytes 34 ≡ port

-- `htonl` of what the host loads is what the network reads.
htonl-load32 :
    (f : ByteArray) (k : ℕ) → IsBytes f.bytes → htonl (load32 f.bytes k) ≡ net32 f.bytes k
htonl-load32 f k hb = omega (arith, hb k, hb (k + 1), hb (k + 2), hb (k + 3))

htonl-htonl : (a : ℕ) → a < 2 ^ 32 → htonl (htonl a) ≡ a
htonl-htonl a small = omega arith

module _ (exec : List Insn → ByteArray → ℕ → ℕ → ℕ) (machine : IsMachine exec) (ip : IpAddress)
    (port : ℕ) (f : ByteArray) where
  -- The four tests, one after the other.
  abbrev tests : ℕ
  tests =
      if net16 f.bytes 12 == 0x0800
      then (if net32 f.bytes 26 == htonl ip.addr
          then (if f.bytes 23 == 17
              then (if net16 f.bytes 34 == port then 2 ^ 32 - 1 else 0)
              else 0)
          else 0)
      else 0

  rejects : (a : ℕ) → exec (insns ip port) f 9 a ≡ 0
  rejects a = machine.return (insns ip port) f 9 a 0 refl

  -- A jump on equality with two ways to go on.
  jumps :
      (pc a k jt jf x y : ℕ)
      → get_elem? (insns ip port) pc ≡ some (jeq k jt jf)
      → exec (insns ip port) f (pc + 1 + jt) a ≡ x
      → exec (insns ip port) f (pc + 1 + jf) a ≡ y
      → exec (insns ip port) f pc a ≡ (if a == k then x else y)
  jumps pc a k jt jf x y here yes_way no_way =
      machine.jump (insns ip port) f pc a k jt jf here
      ∙ elim (Bool-cases (a == k)) [ inl b ↦ rw b yes_way | inr b ↦ rw b no_way ]

  runs : (a : ℕ) → 36 ≤ f.size → exec (insns ip port) f 0 a ≡ tests
  runs a big =
      let p = insns ip port in
      let port_test : exec p f 6 (f.bytes 23)
          ≡ (if net16 f.bytes 34 == port then 2 ^ 32 - 1 else 0) =
        machine.load_h p f 6 (f.bytes 23) 34 refl (omega arith)
        ∙ jumps 7 (net16 f.bytes 34) port 0 1 (2 ^ 32 - 1) 0 refl
            (machine.return p f 8 (net16 f.bytes 34) (2 ^ 32 - 1) refl)
            (rejects (net16 f.bytes 34)) in
      let udp_test =
        machine.load_b p f 4 (net32 f.bytes 26) 23 refl (omega arith)
        ∙ jumps 5 (f.bytes 23) 17 0 3 (if net16 f.bytes 34 == port then 2 ^ 32 - 1 else 0) 0 refl
            port_test (rejects (f.bytes 23)) in
      let ip_test =
        machine.load_w p f 2 (net16 f.bytes 12) 26 refl (omega arith)
        ∙ jumps 3 (net32 f.bytes 26) (htonl ip.addr) 0 5 _ 0 refl udp_test
            (rejects (net32 f.bytes 26)) in
      machine.load_h p f 0 a 12 refl (omega arith)
      ∙ jumps 1 (net16 f.bytes 12) 0x0800 0 7 _ 0 refl ip_test (rejects (net16 f.bytes 12))

  -- On a machine that behaves as documented, the program lets a frame with the headers through, whole, exactly if it
  -- is a UDP datagram over Ethernet from the address and the port, and rejects any other.
  pub insns-IsUdpFrom :
      (a : ℕ)
      → 36 ≤ f.size
      → IsBytes f.bytes
      → ip.addr < 2 ^ 32
      → (IsUdpFrom ip port f × (exec (insns ip port) f 0 a ≡ 2 ^ 32 - 1))
        ⊎ ((IsUdpFrom ip port f → ⊥) × (exec (insns ip port) f 0 a ≡ 0))
  insns-IsUdpFrom a big hb small =
      let e = runs a big in
      let read = htonl-load32 f 26 hb in
      let back = htonl-htonl ip.addr small in
      let back' = htonl-htonl (load32 f.bytes 26) (omega (arith, hb 26, hb 27, hb 28, hb 29)) in
      let to : net32 f.bytes 26 ≡ htonl ip.addr → load32 f.bytes 26 ≡ ip.addr =
        λ h. sym back' ∙ ap htonl read ∙ ap htonl h ∙ back in
      let from : load32 f.bytes 26 ≡ ip.addr → net32 f.bytes 26 ≡ htonl ip.addr =
        λ h. sym read ∙ ap htonl h in
      elim (Bool-cases (net16 f.bytes 12 == 0x0800)) [
        | inr b ↦ rw (e, b) (inr ((λ h. absurd (ground (arith, h.ethernet_type))), refl))
        | inl b ↦ elim (Bool-cases (net32 f.bytes 26 == htonl ip.addr)) [
          | inr c ↦ rw (e, b, c) (inr ((λ h. absurd (ground (arith, from h.address))), refl))
          | inl c ↦ elim (Bool-cases (f.bytes 23 == 17)) [
            | inr d ↦ rw (e, b, c, d) (inr ((λ h. absurd (ground (arith, h.protocol))), refl))
            | inl d ↦ elim (Bool-cases (net16 f.bytes 34 == port)) [
              | inr g ↦
                  rw (e, b, c, d, g) (inr ((λ h. absurd (ground (arith, h.source_port))), refl))
              | inl g ↦
                  rw (e, b, c, d, g)
                    (inl (
                      record {
                        ethernet_type = ground (arith, b);
                        address = to (ground (arith, c));
                        protocol = ground (arith, d);
                        source_port = ground (arith, g);
                      },
                      refl,
                    ))
            ]
          ]
        ]
      ]
