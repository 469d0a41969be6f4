-- ===== src/PayloadFile.antt =====
-- src/payload_file.cpp: the queries of a text or pcap file, and the iterator that hands them out. The
-- iterator `it` is the index in `querycache` that it stands at.
pub mod Text
pub mod Pcap
pub mod Open
pub mod RoundRobin
mod Tests
use Prim.Native.String.{String}
use text.Mathlib.Text.{◌==◌ as str_eq, starts_with}
use dnsmeter.Base.{
  ℕ, ◌+◌, ◌/◌, ◌%◌, Bool, true, false, ◌&&◌, ◌||◌, not, List, [], ◌∷◌, ◌++◌, Option, none, some,
  ltb, ◌==◌, if◌then◌else◌, length, get_elem?, htons, Memory, load16,
}
use mathlib.Core.Option
use dnsmeter.Exceptions.{Result, ok, throw, invalid_query_file, ◌>>=◌}
use dnsmeter.Pplib.{Strings, Resolver, ByteArray, byte_array, Captured}
use dnsmeter.Query.{make_query}

pub record PayloadFile : Type 0 where
  pub valid_lines_in_query_file : ℕ
  pub querycache : List ByteArray
  pub it : ℕ
  pub payload_is_pcap : Bool

abbrev pub new_payload_file : PayloadFile
new_payload_file = record {
  valid_lines_in_query_file = 0;
  querycache = [];
  it = 0;
  payload_is_pcap = false;
}

-- `peek32` is `ppl7::Peek32`.
unfoldable pub detect_pcap : (Memory → ℕ) → ByteArray → Bool
detect_pcap peek32 file =
    let magic = peek32 file.bytes in
    not (ltb file.size 8)
    && ((magic == 0xa1b2c3d4 || magic == 0xa1b23c4d)
        || (magic == 0xd4c3b2a1 || magic == 0x4d3cb2a1))

-- `querycache.push_back` and the count of it.
unfoldable pub push_query : PayloadFile → ByteArray → PayloadFile
push_query f q = record f {
  querycache = f.querycache ++ q ∷ [];
  valid_lines_in_query_file = f.valid_lines_in_query_file + 1;
}

-- The `inner try`: what the compilation of a line adds. An exception is ignored.
unfoldable pub push_compiled : Result (ℕ × Memory) → Memory × PayloadFile → Memory × PayloadFile
push_compiled (ok (size, m)) (buf, f) = (m, push_query f (byte_array m size))
push_compiled (throw e) (buf, f) = (buf, f)

module _ (strings : Strings) (mkquery : Resolver) where
  -- The body of the loop of `loadAndCompile` on one line; `buf` is its buffer of 4096 bytes.
  unfoldable pub compile_line : String → Memory × PayloadFile → Memory × PayloadFile
  compile_line line (buf, f) =
      let buffer = strings.trim line in
      if str_eq buffer ""
      then (buf, f)
      else if starts_with buffer "#"
      then (buf, f)
      else push_compiled (make_query strings mkquery buffer buf 0 4096 false 4096) (buf, f)

  -- The lines are what `gets` returns until the end of the file.
  unfoldable pub compile_lines : List String → Memory × PayloadFile → PayloadFile
  compile_lines [] (buf, f) = f
  compile_lines (line ∷ lines) s = compile_lines lines (compile_line line s)

-- The end of both loaders: a file without queries is refused.
abbrev pub some_queries : PayloadFile → Result PayloadFile
some_queries f = if f.valid_lines_in_query_file == 0 then throw invalid_query_file else ok f

unfoldable pub load_and_compile :
    Strings → Resolver → List String → Memory → PayloadFile → Result PayloadFile
load_and_compile strings mkquery lines buf f =
    some_queries
      (compile_lines strings mkquery lines (buf, record f { valid_lines_in_query_file = 0 }))

-- The conditions of the loop of `loadAndCompilePcapFile`: Ethernet type, IP version, destination port
-- and the bits `qr` and `opcode` of the DNS header.
unfoldable pub is_query_packet : Captured → Bool
is_query_packet c =
    let pkt = c.pkt in
    if ltb 4096 c.caplen
    then false
    else if not (load16 pkt 12 == htons 0x0800)
    then false
    else if not (pkt 14 / 16 == 4)
    then false
    else if not (load16 pkt (14 + 20 + 2) == htons 53)
    then false
    else if not (pkt (14 + 20 + 8 + 2) / 128 == 0) || not (pkt (14 + 20 + 8 + 2) / 8 % 16 == 0)
    then false
    else true

unfoldable pub push_packets : List Captured → PayloadFile → PayloadFile
push_packets [] f = f
push_packets (c ∷ cs) f =
    push_packets cs (if is_query_packet c then push_query f (byte_array c.pkt c.caplen) else f)

-- `none` is a file that `pcap_open_offline` does not open.
unfoldable pub load_and_compile_pcap_file :
    Option (List Captured) → PayloadFile → Result PayloadFile
load_and_compile_pcap_file none f = throw invalid_query_file
load_and_compile_pcap_file (some packets) f =
    some_queries
      (push_packets packets (record f { payload_is_pcap = true; valid_lines_in_query_file = 0 }))

-- `openQueryFile`. `file` is the content, or the exception of `QueryFile.open`; `lines` and `packets`
-- are what the file gives as text and as a capture.
unfoldable pub open_query_file :
    Strings
    → Resolver
    → (Memory → ℕ)
    → String
    → Result ByteArray
    → List String
    → Option (List Captured)
    → Memory
    → PayloadFile
    → Result PayloadFile
open_query_file strings mkquery peek32 filename file lines packets buf f =
    if str_eq filename "" then throw invalid_query_file else do
      content ← file
      loaded ←
          if content.size == 0
          then throw invalid_query_file
          else if detect_pcap peek32 content
          then load_and_compile_pcap_file packets f
          else load_and_compile strings mkquery lines buf f
      ok (record loaded { it = 0 })

-- `getQuery`; `none` is the dereferenced end of an empty list. The mutex makes it one step.
unfoldable pub get_query : PayloadFile → Option (ByteArray × PayloadFile)
get_query f =
    Option.map
      (λ bap. (bap, record f { it = if f.it + 1 == length f.querycache then 0 else f.it + 1 }))
      (get_elem? f.querycache f.it)
