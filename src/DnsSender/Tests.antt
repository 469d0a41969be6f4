-- ===== src/DnsSender/Tests.antt =====
-- src/dns_sender.cpp: runs on rates, threads and results.
use dnsmeter.Base.{rounded, nearest, scale, pos, ◌≡◌, [], ◌∷◌, some, arith}
use dnsmeter.Pplib.Samples.{zeros}
use dnsmeter.RawSocketReceiver.{Counter}
use dnsmeter.DnsSenderThread.{DnsSenderThread, Ratio, new_dns_sender_thread}
use dnsmeter.DnsSender.{Results, range_loop, calc_timeslice, get_results}
use dnsmeter.DnsSender.Rates.{progression, range_loop-progression}
use dnsmeter.DnsSender.Threads.{IsSlice}
use dnsmeter.DnsSender.Totals.{IsResult, get_results-IsResult}

range_loop-progression_example : range_loop 10 100 350 100 ≡ some (progression 3 100 100)
range_loop-progression_example =
    range_loop-progression 2 10 100 350 100 (omega arith) (omega arith) (omega arith) (omega arith)

abbrev thread : DnsSenderThread
thread = new_dns_sender_thread zeros zeros

abbrev one_ms : Ratio
one_ms = record { num = 1; den = 1 }

-- Thirteen threads at thirteen queries a second: the time slice is rounded to more than 1000 ms.
thirteen : ¬ IsSlice (calc_timeslice 13 13)
unfolding calc_timeslice rounded nearest scale
thirteen (_, short) = omega (arith, short)

abbrev results : Results
results = record {
  queryrate = pos 500;
  counter_send = 1;
  counter_received = 1;
  bytes_send = 1;
  bytes_received = 1;
  counter_errors = 1;
  packages_lost = 1;
  counter_0bytes = 1;
  counter_errorcodes = zeros;
  rtt_total = pos 1;
  rtt_avg = (pos 1, 1);
  rtt_min = pos 1;
  rtt_max = pos 1;
  rcodes = zeros;
  truncated = 1;
}

abbrev counter : Counter
counter = record {
  num_pkgs = 3;
  bytes_rcv = 90;
  rcodes = zeros;
  truncated = 1;
  rtt_total = 5;
  rtt_min = 1;
  rtt_max = 3;
}

abbrev sent_five : DnsSenderThread
sent_five = record thread { counter_packets_send = 5; counter_bytes_send = 145 }

get_results-IsResult_example :
    IsResult
      (sent_five ∷ sent_five ∷ [])
      counter
      (get_results results (sent_five ∷ sent_five ∷ []) (some counter))
get_results-IsResult_example =
    get_results-IsResult results (sent_five ∷ sent_five ∷ []) counter (omega arith)
