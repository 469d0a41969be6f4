-- ===== src/Senders/Sample.antt =====
-- src/dns_sender_thread.cpp: a schedule of two threads that share a payload.
use dnsmeter.Base.{
  rounded, nearest, scale, ℕ, ◌+◌, ◌≤◌, ◌≡◌, refl, false, List, [], ◌∷◌, none, some, arith,
}
use dnsmeter.Exceptions.{ok}
use dnsmeter.Pplib.Samples.{sample_message, zeros, zeros-IsBytes}
use dnsmeter.Packet.{Packet, new_packet}
use dnsmeter.Packet
use dnsmeter.Packet.Sequence.{here, next, destination}
use dnsmeter.PayloadFile.{PayloadFile, get_query}
use dnsmeter.DnsSenderThread.{
  DnsSenderThread, Ratio, Attempt, returned, new_dns_sender_thread, start_run, set_timeslice,
  send_query,
}
use dnsmeter.DnsSenderThread.Loops.{total_timeslices, queries_per_timeslice}
use dnsmeter.DnsSenderThread.Ready.{IsLoadable, send_query-Keeps}
use dnsmeter.DnsSenderThread.Whole.{IsPayload}
use dnsmeter.DnsSender.{configure, calc_timeslice, set_rates}
use dnsmeter.Senders.{
  ready, slice, sending, idle, leaving, waiting, done, went, took, handed, waited, at, Slice,
  Reading, Proc, Event, run_schedule, turn_of, turn, start, enter, in_slice, next_slice, take_query,
  send_taken, wait,
}
use dnsmeter.Senders.Wire.{Common, Fit, send_query-OnWire, start_run-Fit}
use dnsmeter.Senders.Session.{readies, AllFit}

abbrev pub thread : DnsSenderThread
thread = record (new_dns_sender_thread zeros zeros) {
  socket = record { s_addr = 16777343; sin_port = 13568 };
  pkt = Packet.set_destination (new_packet zeros) 16777343 53;
  runtime = 1;
}

-- One query a second for each of two threads.
abbrev pub limited : DnsSenderThread
limited = record thread { queryrate = 1; timeslice = calc_timeslice 2 2 }

abbrev pub file : PayloadFile
file = record {
  valid_lines_in_query_file = 1;
  querycache = sample_message ∷ [];
  it = 0;
  payload_is_pcap = false;
}

pub set_up :
    configure 2 (record { num = 1; den = 1 }) 2 (thread ∷ thread ∷ [])
    ≡ ok (calc_timeslice 2 2, limited ∷ limited ∷ [])
unfolding configure set_rates calc_timeslice set_timeslice rounded nearest scale
set_up = refl

pub slices : total_timeslices limited ≡ 1
unfolding total_timeslices calc_timeslice rounded nearest scale
slices = refl

abbrev pub attempt : Attempt
attempt = record {
  rand_ip = λ low high. low;
  rand_port = λ low high. low;
  clock = none;
  answer = returned 57;
}

abbrev pub reading : ℕ → ℕ → Reading
reading now microtime = record {
  now = now;
  microtime = microtime;
  should_stop = false;
  attempt = attempt;
}

-- The first thread takes its query, the second one sends its own before the first does, and both wait for the end of
-- the slice and of the timeout.
abbrev pub schedule : List (ℕ × Reading)
schedule =
    (0, reading 0 0)
    ∷ (0, reading 0 0)
    ∷ (1, reading 5 5)
    ∷ (1, reading 5 5)
    ∷ (1, reading 5 5)
    ∷ (1, reading 9 9)
    ∷ (0, reading 9 9)
    ∷ (0, reading 1000000000 1000000000)
    ∷ (1, reading 1000000005 1000000005)
    ∷ (0, reading 1000000009 1000000009)
    ∷ (1, reading 1000000009 1000000009)
    ∷ (0, reading 6000000009 6000000009)
    ∷ (1, reading 6000000009 6000000009)
    ∷ []

abbrev pub common : Common
common = record { pcap = false; address = 2130706433; port = 53 }

module _ (rate : ℕ) (ms : Ratio) where
  abbrev rated : DnsSenderThread
  rated = record thread { queryrate = rate; timeslice = ms }

  rated-Fit : Fit common rated rated
  unfolding Packet.set_destination
  rated-Fit = record {
    heap = zeros;
    bytes = zeros-IsBytes;
    is_ready = record {
      reached = next here (destination 16777343 53);
      buffer = zeros-IsBytes;
      destined = ground arith;
    };
    pcap = refl;
    address = refl;
    port = refl;
    queryrate = refl;
    runtime = refl;
  }

pub limited-Fit : Fit common limited limited
limited-Fit = rated-Fit 1 (calc_timeslice 2 2)

pub thread-Fit : Fit common thread thread
thread-Fit = rated-Fit 0 (record { num = 0; den = 1 })

pub is_loadable : IsLoadable false sample_message
unfolding IsLoadable
is_loadable = ((λ i. omega arith), omega arith)

pub is_payload : IsPayload false 0 file
is_payload = record { some_query = omega arith; turn = refl; loadable = (is_loadable, tt) }

abbrev pub started : DnsSenderThread
started = start_run limited

pub sends : (send_query started attempt sample_message).0 ≡ ok tt
sends =
    (send_query-OnWire common limited started attempt sample_message
      (start_run-Fit common limited limited limited-Fit).0 is_loadable).0

pub waits : (send_query started attempt sample_message).1.timeout ≡ 5
unfolding start_run
waits = (send_query-Keeps started attempt sample_message).0.timeout

abbrev pub after : DnsSenderThread
after = (send_query started attempt sample_message).1

abbrev pub slice_from : ℕ → Slice
slice_from now = record {
  left = 0;
  rest = 0;
  next_timeslice = now + 1000000000;
  next_checktime = now + 100000000;
  end = now + 1000000000;
}

pub turn_starts :
    (now : ℕ)
    → turn (reading now now) file limited ready
      ≡ some (went, file, at started (slice 0 (slice_from now)))
unfolding turn start enter in_slice total_timeslices queries_per_timeslice calc_timeslice rounded
    nearest scale start_run
turn_starts now = refl

pub turn_takes :
    (now : ℕ) (s : Slice)
    → turn (reading now now) file started (slice 0 s)
      ≡ some (took sample_message, file, at started (sending sample_message 0 s))
unfolding turn take_query get_query
turn_takes now s = refl

pub turn_sends :
    (now : ℕ) (s : Slice)
    → turn (reading now now) file started (sending sample_message 0 s)
      ≡ some (handed sample_message after.pkt, file, at after (idle s))
unfolding turn in_slice send_taken
turn_sends now s = rw (sends, turn, send_taken) refl

-- The second thread waits for the end of its slice.
pub turn_rests :
    turn (reading 9 9) file after (idle (slice_from 5))
    ≡ some (waited, file, at after (idle (slice_from 5)))
unfolding turn
turn_rests = refl

pub turn_leaves :
    (now from : ℕ)
    → from + 1000000000 ≤ now
    → turn (reading now now) file after (idle (slice_from from))
      ≡ some (went, file, at after (leaving 0))
unfolding turn next_slice
turn_leaves now from late = ground (arith, late)

pub turn_waits :
    turn (reading 1000000009 1000000009) file after (leaving 0)
    ≡ some (went, file, at after (waiting 0 6000000009 1100000009))
unfolding turn
turn_waits = rw waits refl

pub turn_ends :
    (now end check : ℕ)
    → end ≤ now
    → turn (reading now now) file after (waiting 0 end check) ≡ some (went, file, at after (done 0))
unfolding turn wait
turn_ends now end check late = ground (arith, late)

abbrev pub events : List Event
events =
    went
    ∷ took sample_message
    ∷ went
    ∷ took sample_message
    ∷ handed sample_message after.pkt
    ∷ waited
    ∷ handed sample_message after.pkt
    ∷ went
    ∷ went
    ∷ went
    ∷ went
    ∷ went
    ∷ went
    ∷ []

abbrev pub at_end : List Proc
at_end = at after (done 0) ∷ at after (done 0) ∷ []

pub ends :
    run_schedule schedule file (readies (limited ∷ limited ∷ [])) ≡ some (events, file, at_end)
unfolding run_schedule turn_of
ends =
    rw
      (
        turn_starts 0,
        turn_takes 0 (slice_from 0),
        turn_starts 5,
        turn_takes 5 (slice_from 5),
        turn_sends 5 (slice_from 5),
        turn_rests,
        turn_sends 9 (slice_from 0),
        turn_leaves 1000000000 0 (omega arith),
        turn_leaves 1000000005 5 (omega arith),
        turn_waits,
        turn_waits,
        turn_ends 6000000009 6000000009 1100000009 (omega arith),
        turn_ends 6000000009 6000000009 1100000009 (omega arith),
        run_schedule,
        turn_of,
      )
      refl

pub both-AllFit : AllFit common (limited ∷ limited ∷ [])
both-AllFit = (limited-Fit, (limited-Fit, tt))
