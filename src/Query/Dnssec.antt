-- ===== src/Query/Dnssec.antt =====
-- What `AddDnssecToQuery` of src/query.cpp appends to a query.
use dnsmeter.Base.{ℕ, ◌+◌, ◌/◌, ◌%◌, ◌^◌, ◌≤◌, ◌<◌, ◌≡◌, ◌≢◌, ◌⊎◌, arith, Memory, net16}
use dnsmeter.Query.{add_dnssec_to_query}

-- An OPT record of RFC 6891 at address `a`: root name, type 41, the payload size, extended code and
-- version zero, the flag DO alone, and no options.
pub record IsOpt (m : Memory) (a : ℕ) (udp_payload_size : ℕ) : Type 0 where
  pub name : m a ≡ 0
  pub type : net16 m (a + 1) ≡ 41
  pub class : net16 m (a + 3) ≡ udp_payload_size
  pub extended_rcode : m (a + 5) ≡ 0
  pub version : m (a + 6) ≡ 0
  pub flags : net16 m (a + 7) ≡ 0x8000
  pub data_length : net16 m (a + 9) ≡ 0

-- The query at `at` of `size` bytes is the query `before` with an OPT record behind it.
pub record IsExtended (before after : Memory) (at querysize udp_payload_size : ℕ) : Type 0 where
  pub opt : IsOpt after (at + querysize) udp_payload_size
  pub additional : net16 after (at + 10) ≡ 1
  pub ad : after (at + 3) / 32 % 2 ≡ 1
  pub low_flags : after (at + 3) % 32 ≡ before (at + 3) % 32
  pub high_flags : after (at + 3) / 64 ≡ before (at + 3) / 64
  pub same :
      (i : ℕ) → i < at + querysize → i ≢ at + 3 → (i < at + 10) ⊎ (at + 12 ≤ i) → after i ≡ before i
  pub behind : (i : ℕ) → at + querysize + 11 ≤ i → after i ≡ before i

module _ (m : Memory) (at buffersize querysize udp_payload_size : ℕ) where
  -- To a query with a whole header, `AddDnssecToQuery` appends an OPT record with the flag DO and
  -- the given payload size, counts it in the header, sets the flag AD and changes no other bit of the
  -- query, which is eleven bytes longer; no byte behind these is written.
  pub add_dnssec_to_query-IsExtended :
      12 ≤ querysize
      → m (at + 3) < 256
      → udp_payload_size < 2 ^ 16
      → let (size, after) = add_dnssec_to_query m at buffersize querysize udp_payload_size in
        (size ≡ querysize + 11) × IsExtended m after at querysize udp_payload_size
  unfolding add_dnssec_to_query
  add_dnssec_to_query-IsExtended header byte fits = (
    omega arith,
    record {
      opt = record {
        name = ground arith;
        type = ground arith;
        class = ground arith;
        extended_rcode = ground arith;
        version = ground arith;
        flags = ground arith;
        data_length = ground arith;
      };
      additional = ground arith;
      ad = ground arith;
      low_flags = ground arith;
      high_flags = ground arith;
      same = λ i below ne far. ground arith;
      behind = λ i h. ground arith;
    },
  )
