-- ===== src/Senders/Wire.antt =====
-- src/dns_sender_thread.cpp: what a round of `sendPacket` puts on the wire, and that the thread stays fit for
-- the next one.
use dnsmeter.Base.{ℕ, ◌+◌, ◌≡◌, ◌∙◌, refl, sym, Bool, arith, net16, net32, Memory, IsBytes, subst}
use dnsmeter.Exceptions.{ok}
use dnsmeter.Pplib.{ByteArray}
use dnsmeter.Packet.{Packet, set_source}
use dnsmeter.Packet.Fields.{IsValid}
use dnsmeter.Packet.Valid.{IsChecksummed}
use dnsmeter.DnsSenderThread.{DnsSenderThread, Attempt, send_query, start_run}
use dnsmeter.DnsSenderThread.Counters.{attempts}
use dnsmeter.DnsSenderThread.Carried.{Bears, IsSent-Bears}
use dnsmeter.DnsSenderThread.Sent.{send_query-IsSent}
use dnsmeter.DnsSenderThread.Ready.{
  IsLoadable, IsReady, load_query-IsLoadable, send_query-Keeps, send_query-IsReady,
}
use dnsmeter.DnsSenderThread.Whole.{start_run-IsReady}

-- What the threads of a session have in common: the kind of the payload, and the address and the port that
-- their packets go to.
pub record Common : Type 0 where
  pub pcap : Bool
  pub address : ℕ
  pub port : ℕ

-- A packet on the wire: it is valid with valid checksums, goes to the target and carries the query.
pub record OnWire (c : Common) (q : ByteArray) (p : Packet) : Type 0 where
  pub valid : IsValid p
  pub checksummed : IsChecksummed p
  pub address : net32 p.buffer 16 ≡ c.address
  pub port : net16 p.buffer 22 ≡ c.port
  pub carried : Bears c.pcap q p

-- A thread that has been `u` before its run: it can send to the target.
pub record Fit (c : Common) (u t : DnsSenderThread) : Type 0 where
  pub heap : Memory
  pub bytes : IsBytes heap
  pub is_ready : IsReady heap t
  pub pcap : t.payload_is_pcap ≡ c.pcap
  pub address : net32 t.pkt.buffer 16 ≡ c.address
  pub port : net16 t.pkt.buffer 22 ≡ c.port
  pub queryrate : t.queryrate ≡ u.queryrate
  pub runtime : t.runtime ≡ u.runtime

-- A round with a query that fits returns, puts the query on the wire, counts one packet, and leaves the thread fit.
pub send_query-OnWire :
    (c : Common) (u t : DnsSenderThread) (a : Attempt) (q : ByteArray)
    → Fit c u t
    → IsLoadable c.pcap q
    → let (r, v) = send_query t a q in
      (r ≡ ok tt) × OnWire c q v.pkt × Fit c u v × (attempts v ≡ attempts t + 1)
send_query-OnWire c u t a q fit l =
    let l' : IsLoadable t.payload_is_pcap q =
      subst (λ (b : Bool). IsLoadable b q) (sym fit.pcap) l in
    let (b, small) = load_query-IsLoadable t q fit.is_ready.buffer l' in
    let (returns, sent, _) =
      send_query-IsSent fit.heap fit.bytes t a q fit.is_ready.reached b small
        fit.is_ready.destined in
    let (_, ready, once, _, _) = send_query-IsReady fit.heap fit.bytes t a q fit.is_ready l' in
    let (keeps, _) = send_query-Keeps t a q in
    (
      returns,
      record {
        valid = sent.valid;
        checksummed = sent.checksummed;
        address = sent.address ∙ fit.address;
        port = sent.port ∙ fit.port;
        carried = IsSent-Bears c.pcap t a q _ fit.pcap l sent;
      },
      record {
        heap = fit.heap;
        bytes = fit.bytes;
        is_ready = ready;
        pcap = keeps.pcap ∙ fit.pcap;
        address = sent.address ∙ fit.address;
        port = sent.port ∙ fit.port;
        queryrate = keeps.queryrate ∙ fit.queryrate;
        runtime = keeps.runtime ∙ fit.runtime;
      },
      once,
    )

start_run-target :
    (t : DnsSenderThread)
    → (net32 (start_run t).pkt.buffer 16 ≡ net32 t.pkt.buffer 16)
      × (net16 (start_run t).pkt.buffer 22 ≡ net16 t.pkt.buffer 22)
unfolding start_run set_source
start_run-target t = ground arith

-- The start of a run keeps the thread fit.
pub start_run-Fit :
    (c : Common) (u t : DnsSenderThread)
    → Fit c u t
    → Fit c u (start_run t) × (attempts (start_run t) ≡ 0)
unfolding start_run
start_run-Fit c u t fit =
    let (address, port) = start_run-target t in
    (
      record {
        heap = fit.heap;
        bytes = fit.bytes;
        is_ready = start_run-IsReady fit.heap t fit.is_ready;
        pcap = fit.pcap;
        address = address ∙ fit.address;
        port = port ∙ fit.port;
        queryrate = fit.queryrate;
        runtime = fit.runtime;
      },
      refl,
    )
