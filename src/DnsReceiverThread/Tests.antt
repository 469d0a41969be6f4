-- ===== src/DnsReceiverThread/Tests.antt =====
-- src/dns_receiver_thread.cpp: runs of the receiver thread.
use dnsmeter.Base.{true, false, none, some}
use dnsmeter.Pplib.Samples.{zeros, ones}
use dnsmeter.RawSocketReceiver.{new_raw_socket_receiver}
use dnsmeter.DnsReceiverThread.{DnsReceiverThread, Round}

abbrev thread : DnsReceiverThread
thread = record {
  socket = new_raw_socket_receiver zeros;
  counter = record {
    num_pkgs = 3;
    bytes_rcv = 90;
    rcodes = zeros;
    truncated = 1;
    rtt_total = 5;
    rtt_min = 1;
    rtt_max = 3;
  };
}

abbrev arrives : Round
arrives = record {
  ready = true;
  arrived = some (record { bytes = ones; size = 60 });
  clock = none;
  should_stop = false;
}

abbrev stops : Round
stops = record { ready = false; arrived = none; clock = none; should_stop = true }
