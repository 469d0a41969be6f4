-- ===== src/Base/Words.antt =====
-- Fixed-width unsigned arithmetic, the byte order of the network on a little-endian host, and
-- memory as a function from addresses to bytes.
use Prim.Native.Nat.{ℕ, ◌+◌, ◌-◌, ◌*◌, ◌/◌, ◌%◌, ◌^◌, ◌<◌}
use mathlib.Core.Bool.{◌&&◌}
use dnsmeter.Base.Tests.{ltb, leb, ◌==◌, if◌then◌else◌}

abbrev pub u8 : ℕ → ℕ
u8 n = n % 2 ^ 8

abbrev pub u16 : ℕ → ℕ
u16 n = n % 2 ^ 16

abbrev pub u32 : ℕ → ℕ
u32 n = n % 2 ^ 32

abbrev pub u64 : ℕ → ℕ
u64 n = n % 2 ^ 64

-- `a - b` of two 64-bit words.
abbrev pub sub64 : ℕ → ℕ → ℕ
sub64 a b = u64 (a + 2 ^ 64 - b)

-- `htons` and `ntohs`: the two bytes of the word change places.
abbrev pub htons : ℕ → ℕ
htons v = v % 256 * 256 + v / 256 % 256

-- `htonl` and `ntohl`.
abbrev pub htonl : ℕ → ℕ
htonl v = v % 256 * 2 ^ 24 + v / 2 ^ 8 % 256 * 2 ^ 16 + v / 2 ^ 16 % 256 * 2 ^ 8 + v / 2 ^ 24 % 256

abbrev pub Memory : Type 0
Memory = ℕ → ℕ

abbrev pub store8 : Memory → ℕ → ℕ → Memory
store8 m a v i = if i == a then v % 256 else m i

-- A word is stored with its low byte first.
abbrev pub store16 : Memory → ℕ → ℕ → Memory
store16 m a v = store8 (store8 m a v) (a + 1) (v / 2 ^ 8)

abbrev pub store32 : Memory → ℕ → ℕ → Memory
store32 m a v = store16 (store16 m a v) (a + 2) (v / 2 ^ 16)

abbrev pub load16 : Memory → ℕ → ℕ
load16 m a = m a + 256 * m (a + 1)

abbrev pub load32 : Memory → ℕ → ℕ
load32 m a = load16 m a + 2 ^ 16 * load16 m (a + 2)

-- `memcpy(to + d, from + s, n)`, for areas that do not overlap.
abbrev pub memcpy : Memory → ℕ → Memory → ℕ → ℕ → Memory
memcpy to d from s n i = if leb d i && ltb i (d + n) then from (s + (i - d)) else to i

-- `memset(to + d, v, n)`.
abbrev pub memset : Memory → ℕ → ℕ → ℕ → Memory
memset to d v n i = if leb d i && ltb i (d + n) then v % 256 else to i

-- `ntohs` of the word at an address: the number that the network reads there.
abbrev pub net16 : Memory → ℕ → ℕ
net16 m a = 256 * m a + m (a + 1)

abbrev pub net32 : Memory → ℕ → ℕ
net32 m a = 2 ^ 16 * net16 m a + net16 m (a + 2)

-- The memory holds bytes.
abbrev pub IsBytes : Memory → Type 0
IsBytes m = (i : ℕ) → m i < 256
