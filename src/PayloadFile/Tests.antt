-- ===== src/PayloadFile/Tests.antt =====
-- src/payload_file.cpp: runs on the queries of a file.
use Prim.Native.String.{String}
use dnsmeter.Base.{
  Memory, ◌%◌, ◌≡◌, refl, List, [], ◌∷◌, ◌++◌, none, some, arith, length, map, ◌==◌, if◌then◌else◌,
  load32, net32, memcpy,
}
use dnsmeter.Exceptions.{ok, throw, invalid_query_file}
use dnsmeter.Pplib.{ByteArray, Captured, byte_array}
use dnsmeter.Pplib.Samples.{sample_strings, sample_resolver, sample_message, zeros, ones}
use dnsmeter.Query.{find_type, make_query, make_query_tokens, compile_query}
use dnsmeter.PayloadFile.{
  PayloadFile, new_payload_file, load_and_compile, compile_lines, compile_line, push_compiled,
  push_query, is_query_packet, open_query_file, detect_pcap,
}
use dnsmeter.PayloadFile.Text.{queries, load_and_compile-queries}
use dnsmeter.PayloadFile.Pcap.{kept, detect_pcap-byte_order}
use dnsmeter.PayloadFile.RoundRobin.{get_queries, turns, get_queries-turns}

abbrev lines : List String
lines = "example.com MX" ∷ "# comment" ∷ "unknown" ∷ []

load_and_compile-queries_example :
    load_and_compile sample_strings sample_resolver lines zeros new_payload_file ≡ (
      if length (queries sample_strings sample_resolver lines) == 0
      then throw invalid_query_file
      else ok (record new_payload_file {
        valid_lines_in_query_file = length (queries sample_strings sample_resolver lines);
        querycache = [] ++ queries sample_strings sample_resolver lines;
      }))
load_and_compile-queries_example =
    load_and_compile-queries sample_strings sample_resolver lines zeros new_payload_file

abbrev captured : Captured
captured = record { pkt = ones; caplen = 60 }

abbrev two_queries : PayloadFile
two_queries = record new_payload_file {
  querycache = sample_message ∷ byte_array zeros 12 ∷ [];
  valid_lines_in_query_file = 2;
}

get_queries-turns_example :
    (qs : List ByteArray) × (g : PayloadFile) × (get_queries 5 two_queries ≡ some (qs, g))
    × (map some qs ≡ turns two_queries.querycache 2 5)
    × (g.it ≡ 7 % 2)
    × (g.querycache ≡ two_queries.querycache)
get_queries-turns_example = get_queries-turns 5 two_queries 2 (omega arith) refl

-- A frame with an IPv4 packet to port 53, and one whose type is another.
abbrev query_frame : Memory
query_frame = λ i. if i == 12 then 8 else if i == 14 then 69 else if i == 37 then 53 else 0

abbrev packets : List Captured
packets = captured ∷ record { pkt = query_frame; caplen = 60 } ∷ []

-- The second one is kept.
keeps_one : length (kept packets) ≡ 1
unfolding is_query_packet
keeps_one = refl

detect_pcap-byte_order_example :
    detect_pcap (λ m. load32 m 0) (byte_array ones 24)
    ≡ detect_pcap (λ m. net32 m 0) (byte_array ones 24)
detect_pcap-byte_order_example = detect_pcap-byte_order (byte_array ones 24) (λ i. ground arith)

abbrev loaded : PayloadFile
loaded = record new_payload_file {
  valid_lines_in_query_file = 1;
  querycache = byte_array (memcpy zeros 0 ones 0 29) 29 ∷ [];
}

opens :
    open_query_file sample_strings sample_resolver
      (λ m. load32 m 0)
      "queries"
      (ok (byte_array ones 50))
      lines
      none
      zeros
      new_payload_file
    ≡ ok loaded
unfolding open_query_file load_and_compile compile_lines compile_line push_compiled push_query
    make_query make_query_tokens compile_query find_type detect_pcap
opens = refl
