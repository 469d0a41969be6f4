-- ===== src/DnsSender/Prepare.antt =====
-- src/dns_sender.cpp: the threads that `prepareThreads` makes, before the first run.
use dnsmeter.Base.{ℕ, ◌≡◌, Bool, List, [], ◌∷◌, if◌then◌else◌, Memory, arith}
use dnsmeter.Exceptions.{Result, ok, ◌>>=◌}
use dnsmeter.Packet.{new_packet}
use dnsmeter.Packet
use dnsmeter.Packet.Sequence.{Reach, here, next, destination}
use dnsmeter.PayloadFile.{PayloadFile}
use dnsmeter.RawSocketSender.{IpAddress}
use dnsmeter.RawSocketSender
use dnsmeter.DnsSenderThread.{
  DnsSenderThread, Ratio, new_dns_sender_thread, set_destination, set_timeslice, set_source_net,
  set_source_pcap,
}
use dnsmeter.DnsSenderThread.Settings.{
  set_payload, set_runtime, set_timeout, set_dnssec_rate, set_source_ip,
}

-- The parameters of a session. `source_net` is the first address of the network and the length of its prefix.
pub record Session : Type 0 where
  pub target_ip : IpAddress
  pub target_port : ℕ
  pub runtime : ℕ
  pub timeout : ℕ
  pub timeslices : Ratio
  pub dnssec_rate : ℕ
  pub spoofing_enabled : Bool
  pub spoof_from_pcap : Bool
  pub source_ip : IpAddress
  pub source_net : ℕ × ℕ

unfoldable pub set_sender : Session → DnsSenderThread → DnsSenderThread
set_sender s t =
    if s.spoofing_enabled
    then (if s.spoof_from_pcap
        then set_source_pcap t
        else set_source_net t s.source_net.0 s.source_net.1)
    else set_source_ip t s.source_ip

-- One round of `prepareThreads`. `heap` and `malloced` are the blocks of memory that the thread gets.
unfoldable pub prepare_thread : Session → PayloadFile → Memory → Memory → Result DnsSenderThread
prepare_thread s payload heap malloced = do
  t ← set_destination (new_dns_sender_thread heap malloced) s.target_ip s.target_port
  u ← set_timeslice (set_timeout (set_runtime t s.runtime) s.timeout) s.timeslices
  ok (set_sender s (set_payload (set_dnssec_rate u s.dnssec_rate) payload))

-- A thread for each of `blocks`: the two blocks that it gets, or the exception of its constructor, which opens the raw
-- socket.
unfoldable pub prepare_threads :
    Session → PayloadFile → List (Result (Memory × Memory)) → Result (List DnsSenderThread)
prepare_threads s payload [] = ok []
prepare_threads s payload (made ∷ blocks) = do
  (heap, malloced) ← made
  t ← prepare_thread s payload heap malloced
  ts ← prepare_threads s payload blocks
  ok (t ∷ ts)

prepared :
    (s : Session) (payload : PayloadFile) (heap malloced : Memory) (t : DnsSenderThread)
    → prepare_thread s payload heap malloced ≡ ok t
    → (t.pkt ≡ Packet.set_destination (new_packet heap) s.target_ip.addr s.target_port)
      × (t.socket.s_addr ≡ s.target_ip.addr)
unfolding prepare_thread set_destination set_timeslice RawSocketSender.set_destination set_sender
    set_source_net
prepared s payload heap malloced t e = ground arith

-- A thread that `prepareThreads` makes sends to the target, from a packet that calls on a new one have made.
pub prepare_thread-Reach :
    (s : Session) (payload : PayloadFile) (heap malloced : Memory) (t : DnsSenderThread)
    → prepare_thread s payload heap malloced ≡ ok t
    → Reach (new_packet heap) t.pkt × (t.socket.s_addr ≡ s.target_ip.addr)
prepare_thread-Reach s payload heap malloced t e =
    let (made, destined) = prepared s payload heap malloced t e in
    (rw made (next here (destination s.target_ip.addr s.target_port)), destined)
