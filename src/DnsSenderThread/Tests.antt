-- ===== src/DnsSenderThread/Tests.antt =====
-- src/dns_sender_thread.cpp: runs of a sender thread.
use dnsmeter.Base.{
  rounded, nearest, scale, ℕ, ◌+◌, ◌-◌, ◌*◌, ◌^◌, ◌≡◌, inl, inr, refl, true, false, List, [], ◌∷◌,
  none, some, arith,
}
use dnsmeter.Exceptions.{ok}
use dnsmeter.Pplib.Samples.{sample_message, zeros, ones, zeros-IsBytes}
use dnsmeter.Packet.{Packet, new_packet}
use dnsmeter.Packet
use dnsmeter.Packet.Sequence.{here, next, destination}
use dnsmeter.PayloadFile.{PayloadFile}
use dnsmeter.DnsSenderThread.{
  DnsSenderThread, Ratio, Attempt, returned, new_dns_sender_thread, load_query, send_query,
}
use dnsmeter.DnsSenderThread.Counters.{attempts}
use dnsmeter.DnsSenderThread.Answered.{Answered, send_query-Answered}
use dnsmeter.DnsSenderThread.Load.{load_query-text, load_query-pcap, load_query_short}
use dnsmeter.DnsSenderThread.Carried.{IsDestined, IsCarrier, send_query-IsCarrier}
use dnsmeter.DnsSenderThread.Loops.{
  Moment, total_timeslices, run_with_rate_limit, rate_limit_loop, idle, queries_per_timeslice,
  unlimited_loop,
}
use dnsmeter.DnsSenderThread.Pace.{Calm, Reaches, slice_of, IsEven, run_with_rate_limit-IsEven}
use dnsmeter.DnsSenderThread.Sending.{Timing, run_thread}
use dnsmeter.DnsSenderThread.Ready.{IsLoadable, IsReady}
use dnsmeter.DnsSenderThread.Whole.{IsPayload, run_thread-attempts}
use dnsmeter.DnsSenderThread.Ends.{unlimited_loop-rounds}

abbrev half_second : Ratio
half_second = record { num = 500; den = 1 }

-- A thread with a destination, of five queries in a second.
abbrev thread : DnsSenderThread
thread = record (new_dns_sender_thread zeros zeros) {
  socket = record { s_addr = 16777343; sin_port = 13568 };
  pkt = Packet.set_destination (new_packet zeros) 16777343 53;
  queryrate = 5;
  runtime = 1;
  timeslice = half_second;
  dnssec_rate = 60;
}

abbrev attempt : Attempt
attempt = record {
  rand_ip = λ low high. low;
  rand_port = λ low high. low;
  clock = none;
  answer = returned 57;
}

send_query-Answered_example :
    Answered thread (returned 57) (send_query thread attempt sample_message)
send_query-Answered_example = send_query-Answered thread attempt sample_message

abbrev file : PayloadFile
file = record {
  valid_lines_in_query_file = 1;
  querycache = sample_message ∷ [];
  it = 0;
  payload_is_pcap = false;
}

load_query-text_example : (load_query thread sample_message).1.buffer 5 ≡ 1
load_query-text_example =
    load_query-text thread sample_message 5 refl (omega arith) (omega arith) (omega arith)
      (omega arith) (omega arith)

abbrev pcap_thread : DnsSenderThread
pcap_thread = record thread { payload_is_pcap = true }

load_query-pcap_example :
    ((load_query pcap_thread (record { bytes = ones; size = 60 })).0 ≡ 60 - 42)
    × ((load_query pcap_thread (record { bytes = ones; size = 60 })).1.buffer 3 ≡ 1)
load_query-pcap_example =
    load_query-pcap pcap_thread (record { bytes = ones; size = 60 }) 3 refl (omega arith)
      (omega arith) (omega arith)

load_query_short_example :
    ((load_query pcap_thread (record { bytes = ones; size = 40 })).0 ≡ 2 ^ 64 - (42 - 40))
    × ((load_query pcap_thread (record { bytes = ones; size = 40 })).1.buffer 4096 ≡ 1)
load_query_short_example =
    load_query_short pcap_thread (record { bytes = ones; size = 40 }) refl (omega arith)

-- Two slices, each of which ends in time.
abbrev moments : List Moment
moments =
    record { readings = 400000000 ∷ 500000000 ∷ []; should_stop = false; microtime = 500000000 }
    ∷ record { readings = 1000000000 ∷ []; should_stop = false; microtime = 1000000000 }
    ∷ []

slices : total_timeslices thread ≡ 2
unfolding total_timeslices rounded nearest scale
slices = refl

calm : Calm (slice_of thread) (0 + thread.runtime * 1000000000) (total_timeslices thread) 0 moments
unfolding Calm Reaches total_timeslices rounded nearest scale
calm = (inr (inl (omega arith)), inr (refl, omega arith), (inl (omega arith), inl refl, tt))

run_with_rate_limit-IsEven_example :
    (ns : List ℕ) × (run_with_rate_limit thread 0 0 moments ≡ some ns)
    × IsEven (total_timeslices thread) (thread.runtime * thread.queryrate) ns
run_with_rate_limit-IsEven_example =
    run_with_rate_limit-IsEven thread 0 0 moments (omega (arith, slices)) calm

-- Two slices of the five queries.
sends : run_with_rate_limit thread 0 0 moments ≡ some (2 ∷ 3 ∷ [])
unfolding run_with_rate_limit rate_limit_loop total_timeslices rounded nearest scale idle
    queries_per_timeslice
sends = refl

reaches : Reaches (0 + thread.timeout * 1000000000) (3 ∷ 5000000000 ∷ [])
unfolding Reaches
reaches = inr (inl (omega arith))

abbrev stops : Moment
stops = record { readings = []; should_stop = true; microtime = 7 }

unlimited_loop-rounds_example : unlimited_loop 20000 1000 0 0 (stops ∷ []) ≡ some 10001
unlimited_loop-rounds_example =
    unlimited_loop-rounds 20000 1000 [] stops tt (inl refl) (omega arith)

-- A run of the two slices, and the wait.
abbrev timing : Timing
timing = record {
  now = 0;
  start = 0;
  moments = moments;
  wait_start = 0;
  waiting = (3, false) ∷ (5000000000, false) ∷ [];
}

abbrev calls : List (List Attempt)
calls = (attempt ∷ []) ∷ (attempt ∷ []) ∷ (attempt ∷ []) ∷ (attempt ∷ []) ∷ (attempt ∷ []) ∷ []

is_ready : IsReady zeros thread
is_ready = record {
  reached = next here (destination 16777343 53);
  buffer = zeros-IsBytes;
  destined = ground arith;
}

is_payload : IsPayload false 0 file
unfolding IsLoadable
is_payload = record {
  some_query = omega arith;
  turn = refl;
  loadable = (((λ i. omega arith), omega arith), tt);
}

run_thread-attempts_example :
    (u : DnsSenderThread) × (run_thread 0 timing thread (some file) calls ≡ some (ok tt, u))
    × IsReady zeros u
    × (attempts u ≡ thread.runtime * thread.queryrate)
run_thread-attempts_example =
    run_thread-attempts 0 timing zeros zeros-IsBytes thread file 0 calls is_ready is_payload
      (omega arith) (omega (arith, slices)) calm tt reaches

fits_in : IsLoadable false sample_message
unfolding IsLoadable
fits_in = ((λ i. omega arith), omega arith)

to_the_target : IsDestined thread
unfolding Packet.set_destination
to_the_target = record { address = refl; port = refl }

send_query-IsCarrier_example :
    ((send_query thread attempt sample_message).0 ≡ ok tt)
    × IsCarrier thread attempt sample_message (send_query thread attempt sample_message).1.pkt
    × IsReady zeros (send_query thread attempt sample_message).1
    × IsDestined (send_query thread attempt sample_message).1
send_query-IsCarrier_example =
    send_query-IsCarrier zeros zeros-IsBytes thread attempt sample_message is_ready to_the_target
      fits_in
