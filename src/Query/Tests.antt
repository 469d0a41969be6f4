-- ===== src/Query/Tests.antt =====
-- src/query.cpp: runs of the compilation of queries, the EDNS0 record and the time stamps.
use mathlib.Core.Option.{some-injective}
use dnsmeter.Base.{Bool-cases, leb, inl, inr, sym, ◌+◌, ◌-◌, ◌≡◌, refl, false, some, arith, memcpy}
use dnsmeter.Exceptions.{ok}
use dnsmeter.Pplib.Samples.{sample_strings, sample_resolver, zeros, ones, sample_message}
use dnsmeter.Query.{
  TimeVal, get_query_timestamp, get_query_rtt, add_dnssec_to_query, make_query, make_query_tokens,
  compile_query, find_type,
}
use dnsmeter.Query.Rtt.{ticks, get_query_rtt-get_query_timestamp}
use dnsmeter.Query.Dnssec.{IsExtended, add_dnssec_to_query-IsExtended}
use dnsmeter.Query.Types.{HasHeaders, Compiled, make_query-Compiled}

-- The time stamp wraps between the two.
abbrev before : TimeVal
before = record { tv_sec = 5; tv_usec = 999900 }

abbrev after : TimeVal
after = record { tv_sec = 6; tv_usec = 100 }

get_query_rtt-get_query_timestamp_example :
    get_query_rtt (some after) (get_query_timestamp (some before)) ≡ ticks after - ticks before
get_query_rtt-get_query_timestamp_example =
    get_query_rtt-get_query_timestamp before after (omega arith) (omega arith) (omega arith)
      (omega arith)

wrapped : get_query_rtt (some after) (get_query_timestamp (some before)) ≡ 2
unfolding get_query_rtt get_query_timestamp
wrapped = get_query_rtt-get_query_timestamp_example

add_dnssec_to_query-IsExtended_example :
    ((add_dnssec_to_query ones 0 512 29 4096).0 ≡ 29 + 11)
    × IsExtended ones (add_dnssec_to_query ones 0 512 29 4096).1 0 29 4096
add_dnssec_to_query-IsExtended_example =
    add_dnssec_to_query-IsExtended ones 0 512 29 4096 (omega arith) (omega arith) (omega arith)

made :
    make_query sample_strings sample_resolver "example.com MX" zeros 0 512 false 4096
    ≡ ok (29, memcpy zeros 0 sample_message.bytes 0 29)
unfolding make_query make_query_tokens compile_query find_type
made = refl

sample_resolver-HasHeaders : HasHeaders sample_resolver
sample_resolver-HasHeaders name code room q e = elim (Bool-cases (leb 29 room)) [
  | inl b ↦
      let same : q ≡ sample_message = sym (some-injective sample_message q (rw b at e)) in
      rw same (omega arith, omega arith)
  | inr b ↦ absurd (cc (rw b at e))
]

make_query-Compiled_example :
    Compiled sample_strings sample_resolver "example.com MX" zeros
      (memcpy zeros 0 sample_message.bytes 0 29)
      0
      512
      29
      false
      4096
make_query-Compiled_example =
    make_query-Compiled sample_strings sample_resolver sample_resolver-HasHeaders "example.com MX"
      zeros (memcpy zeros 0 sample_message.bytes 0 29) 0 512 29 4096 false (omega arith) made
