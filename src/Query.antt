-- ===== src/Query.antt =====
-- src/query.cpp: the compilation of a line `name type` to a DNS query, the EDNS0 record of a DNSSEC
-- query, and the time stamps that travel in the ID of a query.
pub mod Dnssec
pub mod Rtt
pub mod Types
mod Tests
use Prim.Native.String.{String}
use text.Mathlib.Text.{◌==◌ as str_eq}
use dnsmeter.Base.{
  ℕ, suc, ◌+◌, ◌-◌, ◌*◌, ◌/◌, ◌%◌, ◌^◌, Bool, true, false, List, [], ◌∷◌, Option, none, some, ltb,
  ◌==◌, if◌then◌else◌, get_or, u16, htons, Memory, store8, store16, memcpy, memset,
}
use dnsmeter.Exceptions.{Result, ok, throw, invalid_dns_query, unknown_rr_type}
use dnsmeter.Pplib.{Strings, Resolver, ByteArray}

abbrev pub rr_types : List String
rr_types =
    "A" ∷ "AAAA" ∷ "MX" ∷ "NS" ∷ "DS" ∷ "DNSKEY" ∷ "TXT" ∷ "SOA" ∷ "NAPTR" ∷ "RRSIG" ∷ "NSEC"
    ∷ "NSEC3" ∷ "NSEC3PARAM" ∷ "PTR" ∷ "SRV" ∷ "CNAME" ∷ "TSIG" ∷ "*" ∷ "ANY" ∷ "AXFR" ∷ "IXFR"
    ∷ "SPF" ∷ "A6" ∷ "HINFO" ∷ "WKS" ∷ "NULL" ∷ []

abbrev pub rr_code : List ℕ
rr_code =
    1 ∷ 28 ∷ 15 ∷ 2 ∷ 43 ∷ 48 ∷ 16 ∷ 6 ∷ 35 ∷ 46 ∷ 47 ∷ 50 ∷ 51 ∷ 12 ∷ 33 ∷ 5 ∷ 250 ∷ 255 ∷ 255
    ∷ 252 ∷ 251 ∷ 99 ∷ 38 ∷ 13 ∷ 11 ∷ 10 ∷ 0 ∷ []

-- The `while` loop of `MakeQuery` from index `t` on: where the name stands in the table.
unfoldable pub find_type : String → List String → ℕ → Option ℕ
find_type str [] t = none
find_type str (r ∷ rs) t = if str_eq str r then some t else find_type str rs (t + 1)

-- Where the fields of `DNS_HEADER` stand. `ad` is bit 5 of the fourth byte.
abbrev pub set_ad : ℕ → ℕ
set_ad b = if b / 32 % 2 == 0 then b + 32 else b

-- `AddDnssecToQuery` on the query at address `at`. `buffersize` is not read.
unfoldable pub add_dnssec_to_query : Memory → ℕ → ℕ → ℕ → ℕ → ℕ × Memory
add_dnssec_to_query m at buffersize querysize udp_payload_size =
    let m = store8 m (at + 3) (set_ad (m (at + 3))) in
    let m = store16 m (at + 10) (htons 1) in
    let opt = at + querysize in
    let m = memset m opt 0 11 in
    let m = store16 m (opt + 1) (htons 41) in
    let m = store16 m (opt + 3) (htons udp_payload_size) in
    let m = store16 m (opt + 7) (htons 0x8000) in (querysize + 11, m)

module _ (strings : Strings) (mkquery : Resolver) where
  -- The body of the loop once the type is found, at the index `t`.
  unfoldable pub compile_query : String → ℕ → Memory → ℕ → ℕ → Bool → ℕ → Result (ℕ × Memory)
  unfolding add_dnssec_to_query
  compile_query name t m at buffersize dnssec udp_payload_size =
      elim (mkquery name (get_or rr_code t 0) buffersize) [
        | none ↦ throw invalid_dns_query
        | some q ↦
            let m' = memcpy m at q.bytes 0 q.size in
            if dnssec
            then ok (add_dnssec_to_query m' at buffersize q.size udp_payload_size)
            else ok (q.size, m')
      ]

  unfoldable pub make_query_tokens : List String → Memory → ℕ → ℕ → Bool → ℕ → Result (ℕ × Memory)
  make_query_tokens (name ∷ type ∷ []) m at buffersize dnssec udp_payload_size =
      elim (find_type (strings.to_upper_case type) rr_types 0) [
        | none ↦ throw unknown_rr_type
        | some t ↦ compile_query name t m at buffersize dnssec udp_payload_size
      ]
  make_query_tokens _ m at buffersize dnssec udp_payload_size = throw invalid_dns_query

  -- `MakeQuery`: the size of the query, and the memory with the query at address `at`.
  unfoldable pub make_query : String → Memory → ℕ → ℕ → Bool → ℕ → Result (ℕ × Memory)
  make_query query m at buffersize dnssec udp_payload_size =
      make_query_tokens (strings.explode query " ") m at buffersize dnssec udp_payload_size

-- What `gettimeofday` gives.
pub record TimeVal : Type 0 where
  pub tv_sec : ℕ
  pub tv_usec : ℕ

-- `none` is a call of `gettimeofday` that fails.
unfoldable pub get_query_timestamp : Option TimeVal → ℕ
get_query_timestamp (some tp) = u16 (tp.tv_sec % 6 * 10000 + tp.tv_usec / 100)
get_query_timestamp none = 0

-- The difference of two time stamps, over at most one turn of the six seconds.
unfoldable pub elapsed : ℕ → ℕ → ℕ
elapsed now start =
    if ltb now start then u16 (60000 + 2 ^ 16 - start + now) else u16 (now + 2 ^ 16 - start)

-- The round trip time in units of 1/10000 s, by which the source divides.
unfoldable pub get_query_rtt : Option TimeVal → ℕ → ℕ
unfolding elapsed
get_query_rtt clock start = elapsed (get_query_timestamp clock) start
