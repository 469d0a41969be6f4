-- ===== src/Senders/Prepared.antt =====
-- src/dns_sender.cpp: the threads of `prepareThreads`, and of one run after the other.
use dnsmeter.Base.{
  ℕ, ◌+◌, ◌-◌, ◌%◌, ◌^◌, ◌≤◌, ◌<◌, ◌≡◌, ◌∙◌, refl, ap, subst, List, [], ◌∷◌, some, arith, All,
  net16, net32, htonl, Memory, IsBytes, inl, inr, length,
}
use dnsmeter.Exceptions.{Result, Result-cases, ok, throw}
use dnsmeter.Packet.{Packet, new_packet}
use dnsmeter.Packet
use dnsmeter.PayloadFile.{PayloadFile}
use dnsmeter.RawSocketSender
use dnsmeter.DnsSenderThread.{
  DnsSenderThread, Ratio, set_destination, set_timeslice, set_source_net,
}
use dnsmeter.DnsSenderThread.Whole.{IsPayload}
use dnsmeter.DnsSender.{configure}
use dnsmeter.DnsSender.Prepare.{
  Session, set_sender, prepare_thread, prepare_threads, prepare_thread-Reach,
}
use dnsmeter.Senders.{Reading, Proc, Event, run_schedule}
use dnsmeter.Senders.Wire.{Common}
use dnsmeter.Senders.Shared.{Sounds, all_taken}
use dnsmeter.Senders.Session.{readies, result-Runs}
use dnsmeter.Senders.Load.{IsFor, threads_of, configure-Starts}

-- What the threads of a session have in common.
abbrev pub common : Session → PayloadFile → Common
common s payload = record {
  pcap = payload.payload_is_pcap;
  address = htonl s.target_ip.addr;
  port = s.target_port % 2 ^ 16;
}

module _ (s : Session) (payload : PayloadFile) where
  prepared_fields :
      (heap malloced : Memory) (t : DnsSenderThread)
      → prepare_thread s payload heap malloced ≡ ok t
      → (t.buffer ≡ malloced)
        × (t.payload_is_pcap ≡ payload.payload_is_pcap)
        × (t.runtime ≡ s.runtime)
        × (t.pkt ≡ Packet.set_destination (new_packet heap) s.target_ip.addr s.target_port)
  unfolding prepare_thread set_destination set_timeslice RawSocketSender.set_destination set_sender
      set_source_net
  prepared_fields heap malloced t e = ground arith

  destination_fields :
      (p : Packet)
      → s.target_ip.addr < 2 ^ 32
      → let d = Packet.set_destination p s.target_ip.addr s.target_port in
        (net32 d.buffer 16 ≡ htonl s.target_ip.addr) × (net16 d.buffer 22 ≡ s.target_port % 2 ^ 16)
  unfolding Packet.set_destination
  destination_fields p small = ground (arith, small)

  prepare_thread-IsFor :
      (heap malloced : Memory) (t : DnsSenderThread)
      → IsBytes heap
      → IsBytes malloced
      → s.target_ip.addr < 2 ^ 32 - 1
      → prepare_thread s payload heap malloced ≡ ok t
      → IsFor (common s payload) s.runtime t
  prepare_thread-IsFor heap malloced t bytes bytes' small e =
      let (reached, destined) = prepare_thread-Reach s payload heap malloced t e in
      let (buffer, pcap, runtime, pkt) = prepared_fields heap malloced t e in
      let (address, port) = destination_fields (new_packet heap) (omega (arith, small)) in
      (
        record {
          heap = heap;
          bytes = bytes;
          is_ready = record {
            reached = reached;
            buffer = rw buffer bytes';
            destined = λ d. omega (arith, d, destined, small);
          };
          pcap = pcap;
          address = ap (λ (p : Packet). net32 p.buffer 16) pkt ∙ address;
          port = ap (λ (p : Packet). net16 p.buffer 22) pkt ∙ port;
          queryrate = refl;
          runtime = refl;
        },
        runtime,
      )

-- Both blocks that a thread gets hold bytes.
abbrev pub GetsBytes : Result (Memory × Memory) → Type 0
GetsBytes (ok (heap, malloced)) = IsBytes heap × IsBytes malloced
GetsBytes (throw e) = Unit

abbrev pub AllBytes : List (Result (Memory × Memory)) → Type 0
AllBytes blocks = All GetsBytes blocks

abbrev OnMade : (List DnsSenderThread → Type 0) → Result (List DnsSenderThread) → Type 0
OnMade P (ok ts) = P ts
OnMade P (throw e) = Unit

prepare_threads-OnMade :
    (s : Session) (payload : PayloadFile) (blocks : List (Result (Memory × Memory)))
    → AllBytes blocks
    → s.target_ip.addr < 2 ^ 32 - 1
    → OnMade (All (IsFor (common s payload) s.runtime)) (prepare_threads s payload blocks)
unfolding prepare_threads
prepare_threads-OnMade s payload [] bytes small = tt
prepare_threads-OnMade s payload (throw x ∷ blocks) bytes small = tt
prepare_threads-OnMade s payload (ok (heap, malloced) ∷ blocks) ((b, b'), bytes) small =
    let rest = prepare_threads-OnMade s payload blocks bytes small in
    elim (Result-cases (prepare_thread s payload heap malloced)) [
      | inr (x, e) ↦ rw (e, prepare_threads) tt
      | inl (t, e) ↦
          let one = prepare_thread-IsFor s payload heap malloced t b b' small e in
          elim (Result-cases (prepare_threads s payload blocks)) [
            | inr (x, d) ↦ rw (e, d, prepare_threads) tt
            | inl (ts, d) ↦
                rw (e, d, prepare_threads)
                  (one, subst (OnMade (All (IsFor (common s payload) s.runtime))) d rest)
          ]
    ]

-- The threads that `prepareThreads` makes for a target other than 255.255.255.255, which `send` takes for none, where
-- their blocks of memory hold bytes, can send to its
-- address and its port, for the runtime of the session.
pub prepare_threads-IsFor :
    (s : Session) (payload : PayloadFile) (blocks : List (Result (Memory × Memory)))
    (ts : List DnsSenderThread)
    → AllBytes blocks
    → s.target_ip.addr < 2 ^ 32 - 1
    → prepare_threads s payload blocks ≡ ok ts
    → All (IsFor (common s payload) s.runtime) ts
prepare_threads-IsFor s payload blocks ts bytes small made =
    subst (OnMade (All (IsFor (common s payload) s.runtime))) made
      (prepare_threads-OnMade s payload blocks bytes small)

still-IsFor :
    (c : Common) (runtime : ℕ) (us : List DnsSenderThread) (ps : List Proc)
    → All (λ (u : DnsSenderThread). (u.runtime ≡ runtime) × (1 ≤ u.queryrate)) us
    → Sounds c us ps
    → All (IsFor c runtime) (threads_of ps)
still-IsFor c runtime [] [] rates sounds = tt
still-IsFor c runtime [] (p ∷ ps) rates sounds = elim sounds [ ]
still-IsFor c runtime (u ∷ us) [] rates sounds = elim sounds [ ]
still-IsFor c runtime (u ∷ us) (p ∷ ps) ((same, _), rates) (sound, sounds) =
    let fit = sound.fit in
    (
      (
        record {
          heap = fit.heap;
          bytes = fit.bytes;
          is_ready = fit.is_ready;
          pcap = fit.pcap;
          address = fit.address;
          port = fit.port;
          queryrate = refl;
          runtime = refl;
        },
        fit.runtime ∙ same,
      ),
      still-IsFor c runtime us ps rates sounds,
    )

-- A run leaves the threads able to send to the target for the next rate, and the payload at a turn of its queries,
-- wherever the threads stand.
pub run_schedule-IsFor :
    (c : Common) (k : ℕ) (f : PayloadFile) (slices : Ratio) (q : ℕ) (t : DnsSenderThread)
    (ts : List DnsSenderThread) (ms : Ratio) (us : List DnsSenderThread) (runtime : ℕ)
    (schedule : List (ℕ × Reading)) (es : List Event) (g : PayloadFile) (ps : List Proc)
    → length (t ∷ ts) ≤ q
    → configure (length (t ∷ ts)) slices q (t ∷ ts) ≡ ok (ms, us)
    → All (IsFor c runtime) (t ∷ ts)
    → IsPayload c.pcap k f
    → run_schedule schedule f (readies us) ≡ some (es, g, ps)
    → All (IsFor c runtime) (threads_of ps) × IsPayload c.pcap (k + length (all_taken es)) g
run_schedule-IsFor c k f slices q t ts ms us runtime schedule es g ps enough set_up fits file ran =
    let starts = configure-Starts c runtime slices q t ts ms us enough set_up fits in
    let runs = result-Runs c k f us schedule es g ps file starts.fit ran in
    (still-IsFor c runtime us ps starts.rates runs.sounds, runs.payload)
