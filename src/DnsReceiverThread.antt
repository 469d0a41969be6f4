-- ===== src/DnsReceiverThread.antt =====
-- src/dns_receiver_thread.cpp: the thread that receives the answers. What the socket and the request to stop
-- give comes from outside, one round of the loop at a time.
pub mod Run
mod Tests
use dnsmeter.Base.{
  ℕ, suc, Bool, true, false, List, [], ◌∷◌, Option, none, some, ◌==◌, if◌then◌else◌,
}
use dnsmeter.Pplib.{ByteArray}
use dnsmeter.Query.{TimeVal}
use dnsmeter.RawSocketSender.{IpAddress}
use dnsmeter.RawSocketReceiver.{RawSocketReceiver, Counter, clear, receive}
use dnsmeter.RawSocketReceiver

pub record DnsReceiverThread : Type 0 where
  pub socket : RawSocketReceiver
  pub counter : Counter

-- A round: what `socketReady` answers, what `recvfrom` gives, the clock, and `threadShouldStop`.
pub record Round : Type 0 where
  pub ready : Bool
  pub arrived : Option ByteArray
  pub clock : Option TimeVal
  pub should_stop : Bool

abbrev pub set_source : DnsReceiverThread → IpAddress → ℕ → DnsReceiverThread
set_source t ip port = record t { socket = RawSocketReceiver.set_source t.socket ip port }

-- The body of the loop of `run` up to the request to stop.
unfoldable pub receive_round : DnsReceiverThread → Round → DnsReceiverThread
receive_round t m =
    if m.ready
    then (let (s, c) = receive t.socket m.arrived m.clock t.counter in
        record { socket = s; counter = c })
    else t

-- `none` means that the rounds have ended before the loop has.
unfoldable pub receive_loop : DnsReceiverThread → List Round → Option DnsReceiverThread
receive_loop t [] = none
receive_loop t (m ∷ ms) =
    let t' = receive_round t m in
    let more = receive_loop t' ms in if m.should_stop then some t' else more

unfoldable pub run : DnsReceiverThread → List Round → Option DnsReceiverThread
run t ms = receive_loop (record t { counter = clear t.counter }) ms

-- `getRoundTripTimeAverage`, a dividend and a divisor.
unfoldable pub get_round_trip_time_average : Counter → ℕ × ℕ
get_round_trip_time_average c = if c.num_pkgs == 0 then (0, 1) else (c.rtt_total, c.num_pkgs)
