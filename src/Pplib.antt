-- ===== src/Pplib.antt =====
-- What the program takes from pplib's strings and from the resolver library, which are not part of
-- its sources: parameters of the definitions that call them.
pub mod Samples
use Prim.Native.String.{String}
use dnsmeter.Base.{ℕ, List, Option, Memory, ltb, if◌then◌else◌}

-- `ppl7::String` and `ppl7::Array`.
pub record Strings : Type 0 where
  -- `Array(text, delimiter)`, `explode`
  pub explode : String → String → List String
  pub to_upper_case : String → String
  pub trim : String → String

-- A block of bytes, `ppl7::ByteArray` or a message in a buffer.
pub record ByteArray : Type 0 where
  pub bytes : Memory
  pub size : ℕ

-- `res_mkquery(QUERY, name, C_IN, type, ...)`: the message that it writes, or a negative result.
-- The last argument is the room in the buffer.
abbrev pub Resolver : Type 0
Resolver = String → ℕ → ℕ → Option ByteArray

-- `ByteArray(ptr, size)`: a copy of `size` bytes. What lies behind it is not read.
abbrev pub byte_array : Memory → ℕ → ByteArray
byte_array m n = record { bytes = λ i. if ltb i n then m i else 0; size = n }

-- A packet as libpcap gives it: `hdr.caplen` bytes were captured.
pub record Captured : Type 0 where
  pub pkt : Memory
  pub caplen : ℕ
