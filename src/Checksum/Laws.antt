-- ===== src/Checksum/Laws.antt =====
-- The laws of the Internet checksum: sums by parts, the order of the bytes, and the complement.
use dnsmeter.Base.{
  ℕ, zero, suc, ◌+◌, ◌*◌, ◌%◌, ◌^◌, ◌≤◌, ◌<◌, ◌≡◌, refl, ap, arith, Memory, load16, net16, IsBytes,
}
use native.Mathlib.Nat.{add-zero, zero-add, mul-zero}
use dnsmeter.Checksum.{word_sum, fold_complement}

-- The sum of RFC 1071, on words in network order; an odd last byte is padded with zero.
abbrev pub net_sum : Memory → ℕ → ℕ → ℕ
net_sum m a zero = 0
net_sum m a (suc zero) = 256 * m a
net_sum m a (suc (suc n)) = net16 m a + net_sum m (a + 2) n

pub word_sum-acc : (m : Memory) (a n s : ℕ) → word_sum m a n s ≡ s + word_sum m a n 0
unfolding word_sum
word_sum-acc m a zero s = omega arith
word_sum-acc m a (suc zero) s = omega arith
word_sum-acc m a (suc (suc n)) s =
    omega
      (arith, word_sum-acc m (a + 2) n (s + load16 m a), word_sum-acc m (a + 2) n (0 + load16 m a))

-- One turn of the loop.
pub word_sum-step :
    (m : Memory) (a n : ℕ) → word_sum m a (suc (suc n)) 0 ≡ load16 m a + word_sum m (a + 2) n 0
unfolding word_sum
word_sum-step m a n = omega (arith, word_sum-acc m (a + 2) n (0 + load16 m a))

-- The sum of an area whose first part is even is the sum of the parts.
pub word_sum-add :
    (m : Memory) (a k n : ℕ)
    → word_sum m a (2 * k + n) 0 ≡ word_sum m a (2 * k) 0 + word_sum m (a + 2 * k) n 0
unfolding word_sum
word_sum-add m a zero n = rw (mul-zero 2, zero-add n, add-zero a) (omega arith)
word_sum-add m a (suc k) n =
    let whole : 2 * suc k + n ≡ suc (suc (2 * k + n)) = omega arith in
    let part : 2 * suc k ≡ suc (suc (2 * k)) = omega arith in
    let rest : a + suc (suc (2 * k)) ≡ a + 2 + 2 * k = omega arith in
    rw (whole, part, rest)
      (omega (
        arith,
        word_sum-step m a (2 * k + n),
        word_sum-step m a (2 * k),
        word_sum-add m (a + 2) k n,
      ))

pub net_sum-add :
    (m : Memory) (a k n : ℕ)
    → net_sum m a (2 * k + n) ≡ net_sum m a (2 * k) + net_sum m (a + 2 * k) n
net_sum-add m a zero n = rw (mul-zero 2, zero-add n, add-zero a) (omega arith)
net_sum-add m a (suc k) n =
    let whole : 2 * suc k + n ≡ suc (suc (2 * k + n)) = omega arith in
    let part : 2 * suc k ≡ suc (suc (2 * k)) = omega arith in
    let rest : a + suc (suc (2 * k)) ≡ a + 2 + 2 * k = omega arith in
    rw (whole, part, rest) (omega (arith, net_sum-add m (a + 2) k n))

-- The sum reads the bytes of its area and no other.
pub word_sum-congr :
    (m k : Memory) (a b n : ℕ)
    → ((i : ℕ) → i < n → m (a + i) ≡ k (b + i))
    → word_sum m a n 0 ≡ word_sum k b n 0
unfolding word_sum
word_sum-congr m k a b zero h = refl
word_sum-congr m k a b (suc zero) h =
    omega (arith, h 0 (omega arith), ap m (add-zero a), ap k (add-zero b))
word_sum-congr m k a b (suc (suc n)) h = omega (
  arith,
  word_sum-step m a n,
  word_sum-step k b n,
  word_sum-congr m k (a + 2) (b + 2) n (λ i p. shifted i (omega arith)),
  h 0 (omega arith),
  h 1 (omega arith),
  ap m (add-zero a),
  ap k (add-zero b),
)
  where
    shifted : (i : ℕ) → i < n → m (a + 2 + i) ≡ k (b + 2 + i)
    shifted i p =
        let left : a + 2 + i ≡ a + suc (suc i) = omega arith in
        let right : b + 2 + i ≡ b + suc (suc i) = omega arith in
        rw (left, right) (h (suc (suc i)) (omega arith))

-- A zero byte behind an odd area does not change the sum.
pub word_sum-pad :
    (m : Memory) (a n : ℕ) → m (a + n) ≡ 0 → word_sum m a (n + n % 2) 0 ≡ word_sum m a n 0
unfolding word_sum
word_sum-pad m a zero h = refl
word_sum-pad m a (suc zero) h = omega (arith, h)
word_sum-pad m a (suc (suc n)) h =
    let even : suc (suc n) + suc (suc n) % 2 ≡ suc (suc (n + n % 2)) = omega arith in
    let last : a + 2 + n ≡ a + suc (suc n) = omega arith in
    rw even (
      omega (
        arith,
        word_sum-step m a n,
        word_sum-step m a (n + n % 2),
        word_sum-pad m (a + 2) n (rw last h),
      ))

pub word_sum-le : (m : Memory) (a n : ℕ) → IsBytes m → word_sum m a n 0 ≤ 2 ^ 16 * n
unfolding word_sum
word_sum-le m a zero h = omega arith
word_sum-le m a (suc zero) h = omega (arith, h a)
word_sum-le m a (suc (suc n)) h =
    omega (arith, word_sum-step m a n, word_sum-le m (a + 2) n h, h a, h (a + 1))

-- The sums in the two byte orders agree up to a factor 256 modulo 65535 (RFC 1071, section 2B).
pub word_sum-net_sum :
    (m : Memory) (a n : ℕ) → (h : ℕ) × (256 * word_sum m a n 0 ≡ net_sum m a n + 65535 * h)
unfolding word_sum
word_sum-net_sum m a zero = (0, omega arith)
word_sum-net_sum m a (suc zero) = (0, omega arith)
word_sum-net_sum m a (suc (suc n)) =
    let (h, e) = word_sum-net_sum m (a + 2) n in (h + m (a + 1), omega (arith, word_sum-step m a n))

-- The complement makes the sum a multiple of 65535, and a receiver's checksum zero.
pub fold_complement_lem :
    (s : ℕ)
    → s < 2 ^ 31
    → ((s + fold_complement s) % 65535 ≡ 0)
      × (fold_complement (s + fold_complement s) ≡ 0)
      × (fold_complement s < 2 ^ 16)
unfolding fold_complement
fold_complement_lem s h = omega arith
