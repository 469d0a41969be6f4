-- ===== src/DnsSenderThread/Dnssec.antt =====
-- src/dns_sender_thread.cpp: the share of the queries of a text that carry the EDNS0 record.
use dnsmeter.Base.{ℕ, suc, ◌+◌, ◌%◌, ◌≤◌, ◌<◌, ◌≡◌, ◌⊎◌, false, List, [], ◌∷◌, memcpy}
use dnsmeter.Pplib.{ByteArray}
use dnsmeter.Query.Dnssec.{IsExtended}
use dnsmeter.DnsSenderThread.{DnsSenderThread, load_query}

-- What is loaded is the query itself.
pub record IsPlain (q : ByteArray) (r : ℕ × DnsSenderThread) : Type 0 where
  pub size : r.0 ≡ q.size
  pub bytes : (i : ℕ) → i < q.size → r.1.buffer i ≡ q.bytes i

-- It is the query with the EDNS0 record behind it.
pub record IsDnssec (t : DnsSenderThread) (q : ByteArray) (r : ℕ × DnsSenderThread) : Type 0 where
  pub size : r.0 ≡ q.size + 11
  pub extended : IsExtended (memcpy t.buffer 0 q.bytes 0 q.size) r.1.buffer 0 q.size 4096

-- Of the queries `k` are loaded with the record, and the others as they are.
abbrev pub Loads : DnsSenderThread → List ByteArray → ℕ → Type 0
Loads t [] k = k ≡ 0
Loads t (q ∷ qs) k =
    (IsPlain q (load_query t q) × Loads (load_query t q).1 qs k)
    ⊎ (IsDnssec t q (load_query t q) × ((j : ℕ) × (k ≡ suc j) × Loads (load_query t q).1 qs j))

-- A query with a whole header.
abbrev pub HasHeader : ByteArray → Type 0
HasHeader q = (12 ≤ q.size) × (q.bytes 3 < 256)

-- The state after a query: the counter goes on by the rate.
record Goes (t u : DnsSenderThread) : Type 0 where
  text : u.payload_is_pcap ≡ false
  rate : u.dnssec_rate ≡ t.dnssec_rate
  counter : u.dnsseccounter ≡ (t.dnsseccounter + t.dnssec_rate) % 100
