-- ===== src/SystemStat/Sample.antt =====
-- src/system_stat.cpp: what `sampleNetwork` keeps of a sample.
use Prim.Native.String.{String}
use text.Mathlib.Text.{◌==◌ as str_eq}
use text.Mathlib.TextEquality.{eq_iff}
use dnsmeter.Base.{
  ℕ, ◌+◌, ◌≡◌, ◌∙◌, ap, sym, refl, false, List, [], ◌∷◌, map, none, some, arith, sum, if◌then◌else◌,
  Bool-cases, inl, inr, u64,
}
use dnsmeter.SystemStat.{
  Network, Interface, clear, find, insert, add_network, sample_lines, sample_network,
}

pub find-insert :
    (name : String) (n i : Interface) (is : List Interface)
    → find name is ≡ some i
    → find name (insert n is) ≡ some i
find-insert name n i [] e = cc
find-insert name n i (j ∷ js) e = elim (Bool-cases (str_eq j.name n.name)) [
  | inl same ↦ rw same e
  | inr other ↦ rw other (elim (Bool-cases (str_eq j.name name)) [
    | inl here ↦ rw here (rw here at e)
    | inr later ↦ rw later (find-insert name n i js (rw later at e))
  ])
]

pub some-none : (i : Interface) → some i ≡ none → ⊥
some-none i e = cc

pub find-insert-none :
    (m : String) (n : Interface) (is : List Interface)
    → find m is ≡ none
    → find m (insert n is) ≡ (if str_eq n.name m then some n else none)
find-insert-none m n [] e = refl
find-insert-none m n (i ∷ is) e = elim (Bool-cases (str_eq i.name m)) [
  | inl here ↦ absurd (some-none i (rw here at e))
  | inr other ↦ elim (Bool-cases (str_eq i.name n.name)) [
    | inl same ↦
        let equal : str_eq n.name m ≡ false =
          ap (λ (x : String). str_eq x m) (sym ((eq_iff i.name n.name).0 same)) ∙ other in
        rw (same, equal) (rw other (rw other at e))
    | inr differ ↦ rw differ (rw other (find-insert-none m n is (rw other at e)))
  ]
]

sample_lines-find :
    (name : String) (i : Interface) (ns is : List Interface) (receive transmit : Network)
    → find name is ≡ some i
    → find name (sample_lines ns is receive transmit).0 ≡ some i
unfolding sample_lines
sample_lines-find name i [] is receive transmit e = e
sample_lines-find name i (n ∷ ns) is receive transmit e =
    sample_lines-find name i ns (insert n is) (add_network receive n.receive)
      (add_network transmit n.transmit) (find-insert name n i is e)

-- One counter of the totals is the sum of that counter over the lines.
abbrev pub total : (Interface → ℕ) → List Interface → ℕ
total counter ns = u64 (sum (map counter ns))

sample_lines-total :
    (ns is : List Interface) (receive transmit : Network)
    → let (_, r, t) = sample_lines ns is receive transmit in
      (u64 r.bytes ≡ u64 (receive.bytes + sum (map (λ (n : Interface). n.receive.bytes) ns)))
      × (u64 r.packets
          ≡ u64 (receive.packets + sum (map (λ (n : Interface). n.receive.packets) ns)))
      × (u64 t.bytes ≡ u64 (transmit.bytes + sum (map (λ (n : Interface). n.transmit.bytes) ns)))
      × (u64 t.packets
          ≡ u64 (transmit.packets + sum (map (λ (n : Interface). n.transmit.packets) ns)))
unfolding sample_lines add_network
sample_lines-total [] is receive transmit = (omega arith, omega arith, omega arith, omega arith)
sample_lines-total (n ∷ ns) is receive transmit =
    let (rb, rp, tb, tp) =
      sample_lines-total ns (insert n is) (add_network receive n.receive)
        (add_network transmit n.transmit) in
    (omega (arith, rb), omega (arith, rp), omega (arith, tb), omega (arith, tp))

-- Another sample leaves every interface that the map names with the counters of its first sample, whatever the
-- new lines say.
pub sample_network-stale :
    (name : String) (i : Interface) (ns is : List Interface) (receive transmit : Network)
    → find name is ≡ some i
    → find name (sample_network ns is receive transmit).0 ≡ some i
unfolding sample_network
sample_network-stale name i ns is receive transmit e =
    sample_lines-find name i ns is (clear receive) (clear transmit) e

-- A sample's totals of the bytes and packets are the sums over its lines, in 64 bits, whatever the totals were
-- before.
pub sample_network-total :
    (ns is : List Interface) (receive transmit : Network)
    → let (_, r, t) = sample_network ns is receive transmit in
      (u64 r.bytes ≡ total (λ n. n.receive.bytes) ns)
      × (u64 r.packets ≡ total (λ n. n.receive.packets) ns)
      × (u64 t.bytes ≡ total (λ n. n.transmit.bytes) ns)
      × (u64 t.packets ≡ total (λ n. n.transmit.packets) ns)
unfolding sample_network
sample_network-total ns is receive transmit =
    let (rb, rp, tb, tp) = sample_lines-total ns is (clear receive) (clear transmit) in
    (
      rb ∙ ap u64 (omega arith),
      rp ∙ ap u64 (omega arith),
      tb ∙ ap u64 (omega arith),
      tp ∙ ap u64 (omega arith),
    )
