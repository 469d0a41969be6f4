-- ===== src/DnsSender/Report/Network.antt =====
-- src/dns_sender.cpp: the line of `presentResults` on the network interface.
use Prim.Native.String.{String}
use dnsmeter.Base.{ℕ, ◌/◌, ◌≡◌, List, none, some, refl}
use dnsmeter.SystemStat.{Network, Interface, find, get_delta, sample_network}
use dnsmeter.SystemStat.Sample.{sample_network-stale}

-- `interfaces[name]`: where the map has no such interface, a new one with zeros.
unfoldable pub interface_at : String → List Interface → Interface
interface_at name is = elim (find name is) [
  | some i ↦ i
  | none ↦ record {
    name = "";
    receive = record { bytes = 0; packets = 0; errs = 0; drop = 0 };
    transmit = record { bytes = 0; packets = 0; errs = 0; drop = 0 };
  }
]

-- Packets sent and received, and KB sent and received.
pub record NetworkLine : Type 0 where
  pub packets_send : ℕ
  pub packets_received : ℕ
  pub data_send : ℕ
  pub data_received : ℕ

-- The line, on the interfaces of `sys1` and `sys2`.
unfoldable pub present_network : String → List Interface → List Interface → NetworkLine
present_network interface_name sys1 sys2 =
    let net1 = interface_at interface_name sys1 in
    let net2 = interface_at interface_name sys2 in
    let transmit = get_delta net1.transmit net2.transmit in
    let received = get_delta net1.receive net2.receive in
    record {
      packets_send = transmit.packets;
      packets_received = received.packets;
      data_send = transmit.bytes / 1024;
      data_received = received.bytes / 1024;
    }

-- Once both samples have the interface, from the first run on, the line stays what it is: whatever `sampleNetwork`
-- reads in a further run before and after it, the numbers are those of the first one.
pub present_network-stale :
    (name : String) (sys1 sys2 : List Interface) (net1 net2 : Interface)
    (lines1 lines2 : List Interface) (receive1 transmit1 receive2 transmit2 : Network)
    → find name sys1 ≡ some net1
    → find name sys2 ≡ some net2
    → present_network name
        (sample_network lines1 sys1 receive1 transmit1).0
        (sample_network lines2 sys2 receive2 transmit2).0
      ≡ present_network name sys1 sys2
unfolding present_network interface_at
present_network-stale name sys1 sys2 net1 net2 lines1 lines2 receive1 transmit1 receive2 transmit2
      e1 e2 =
    let s1 = sample_network-stale name net1 lines1 sys1 receive1 transmit1 e1 in
    let s2 = sample_network-stale name net2 lines2 sys2 receive2 transmit2 e2 in
    rw (s1, s2, e1, e2, present_network, interface_at) refl
