-- ===== src/Checksum.antt =====
-- src/packet.cpp: `in_cksum`, the Internet checksum, on a little-endian host.
pub mod Laws
use dnsmeter.Base.{ℕ, zero, suc, ◌+◌, ◌-◌, ◌/◌, ◌%◌, ◌^◌, Memory, load16}

-- The `while` loop from address `w` with `nleft` bytes left, and the odd last byte, which `answer`
-- takes as its low byte.
unfoldable pub word_sum : Memory → ℕ → ℕ → ℕ → ℕ
word_sum m w zero sum = sum
word_sum m w (suc zero) sum = sum + m w
word_sum m w (suc (suc nleft)) sum = word_sum m (w + 2) nleft (sum + load16 m w)

-- The two foldings of the carries and the complement, cut to 16 bits.
unfoldable pub fold_complement : ℕ → ℕ
fold_complement sum =
    let folded = sum / 2 ^ 16 + sum % 2 ^ 16 in
    let again = folded + folded / 2 ^ 16 in 2 ^ 16 - 1 - again % 2 ^ 16

unfoldable pub in_cksum : Memory → ℕ → ℕ → ℕ
in_cksum m addr len = fold_complement (word_sum m addr len 0)
