-- ===== src/PayloadFile/Open.antt =====
-- src/payload_file.cpp: what a file that `openQueryFile` has opened is ready for.
use Prim.Native.String.{String}
use dnsmeter.Base.{ℕ, ◌<◌, ◌≡◌, List, [], Option, none, some, arith, length, length-append, Memory}
use dnsmeter.Exceptions.{Result, ok, throw}
use dnsmeter.Pplib.{Strings, Resolver, ByteArray, Captured}
use dnsmeter.PayloadFile.{
  PayloadFile, open_query_file, load_and_compile, load_and_compile_pcap_file,
}
use dnsmeter.PayloadFile.Pcap.{kept, load_and_compile_pcap_file-kept}
use dnsmeter.PayloadFile.Text.{queries, load_and_compile-queries}

-- A successful load has put at least one query into the cache.
abbrev Loads : Result PayloadFile → Type 0
Loads (ok f) = 0 < length f.querycache
Loads (throw e) = Unit

pcap-Loads :
    (packets : Option (List Captured)) (f : PayloadFile)
    → Loads (load_and_compile_pcap_file packets f)
pcap-Loads none f = rw ((load_and_compile_pcap_file-kept [] f).0) tt
pcap-Loads (some packets) f =
    rw ((load_and_compile_pcap_file-kept packets f).1)
      (ground (arith, length-append f.querycache (kept packets)))

text-Loads :
    (strings : Strings) (mkquery : Resolver) (lines : List String) (buf : Memory) (f : PayloadFile)
    → Loads (load_and_compile strings mkquery lines buf f)
text-Loads strings mkquery lines buf f =
    rw (load_and_compile-queries strings mkquery lines buf f)
      (ground (arith, length-append f.querycache (queries strings mkquery lines)))

-- A payload file that `openQueryFile` has opened holds a query, and the iterator stands at the first one.
pub open_query_file-ready :
    (strings : Strings) (mkquery : Resolver) (peek32 : Memory → ℕ) (filename : String)
    (file : Result ByteArray) (lines : List String) (packets : Option (List Captured))
    (buf : Memory) (f g : PayloadFile)
    → open_query_file strings mkquery peek32 filename file lines packets buf f ≡ ok g
    → (0 < length g.querycache) × (g.it ≡ 0)
unfolding open_query_file
open_query_file-ready strings mkquery peek32 filename file lines packets buf f g h =
    ground (arith, pcap-Loads packets f, text-Loads strings mkquery lines buf f)
