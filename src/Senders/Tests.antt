-- ===== src/Senders/Tests.antt =====
-- src/dns_sender_thread.cpp: runs of two threads that share a payload.
use dnsmeter.Base.{
  ◌+◌, ◌*◌, ◌%◌, ◌<◌, ◌≡◌, ◌⊎◌, refl, true, false, List, [], ◌∷◌, none, some, arith, length, All,
  Memory,
}
use dnsmeter.Exceptions.{Result, ok}
use dnsmeter.Pplib.Samples.{zeros, zeros-IsBytes}
use dnsmeter.Packet.{Packet, new_packet}
use dnsmeter.Packet
use dnsmeter.PayloadFile.{PayloadFile}
use dnsmeter.DnsSenderThread.{DnsSenderThread, new_dns_sender_thread, set_timeslice}
use dnsmeter.DnsSenderThread.Whole.{IsPayload}
use dnsmeter.DnsSender.{calc_timeslice}
use dnsmeter.Senders.{Proc, Event, run_schedule}
use dnsmeter.Senders.Shared.{all_sent, all_taken, busy_turns, works}
use dnsmeter.Senders.Session.{
  readies, IsShared, run_schedule-IsShared, AllDone, run_schedule-AllDone,
}
use dnsmeter.Senders.Load.{IsFor, threads_of, left_overs, run_schedule-tried}
use dnsmeter.Senders.Prepared.{run_schedule-IsFor}
use dnsmeter.DnsSender.Main.Load.{tried}
use dnsmeter.DnsSender.{new_results, get_results}
use dnsmeter.RawSocketSender
use dnsmeter.DnsSender.Prepare.{Session, set_sender, prepare_thread, prepare_threads}
use dnsmeter.Senders.Prepared.{common as session_common, AllBytes, prepare_threads-IsFor}
use dnsmeter.PayloadFile.{new_payload_file}
use dnsmeter.DnsSenderThread.{set_destination}
use dnsmeter.Senders.Sample.{
  thread, limited, file, set_up, schedule, common, is_payload, events, at_end, ends, both-AllFit,
  thread-Fit,
}

run_schedule-IsShared_example :
    (m : List Event × PayloadFile × List Proc) × (run_schedule schedule file
        (readies (limited ∷ limited ∷ []))
      ≡ some m)
    × IsShared common 0 file m
run_schedule-IsShared_example =
    run_schedule-IsShared common 0 file (limited ∷ limited ∷ []) schedule is_payload both-AllFit

run_schedule-AllDone_example :
    (busy_turns events < works (readies (limited ∷ limited ∷ [])))
    ⊎ ((busy_turns events ≡ works (readies (limited ∷ limited ∷ []))) × AllDone at_end)
run_schedule-AllDone_example =
    run_schedule-AllDone common 0 file (limited ∷ limited ∷ []) schedule events file at_end
      is_payload both-AllFit (omega arith, (omega arith, tt)) ends

in_a_second : All (IsFor common 1) (thread ∷ thread ∷ [])
in_a_second = ((thread-Fit, refl), ((thread-Fit, refl), tt))

run_schedule-tried_example :
    (tried (get_results (new_results (zeros, zeros)) (threads_of at_end) none)
      ≡ length (all_sent events))
    × (length (all_sent events) + left_overs at_end + 1 * (2 % 2) ≡ 1 * 2)
run_schedule-tried_example =
    run_schedule-tried common 0 file (record { num = 1; den = 1 }) 2 thread (thread ∷ [])
      (calc_timeslice 2 2) (limited ∷ limited ∷ []) 1 schedule events file at_end
      (new_results (zeros, zeros)) none (omega arith) set_up in_a_second is_payload ends
      (tt, (tt, tt))

run_schedule-IsFor_example :
    All (IsFor common 1) (threads_of at_end) × IsPayload false (0 + length (all_taken events)) file
run_schedule-IsFor_example =
    run_schedule-IsFor common 0 file (record { num = 1; den = 1 }) 2 thread (thread ∷ [])
      (calc_timeslice 2 2) (limited ∷ limited ∷ []) 1 schedule events file at_end (omega arith)
      set_up in_a_second is_payload ends

abbrev session : Session
session = record {
  target_ip = record { is_ipv4 = true; addr = 16777343 };
  target_port = 53;
  runtime = 3;
  timeout = 2;
  timeslices = record { num = 1; den = 1 };
  dnssec_rate = 10;
  spoofing_enabled = false;
  spoof_from_pcap = false;
  source_ip = record { is_ipv4 = true; addr = 16908298 };
  source_net = (0, 0);
}

abbrev prepared : DnsSenderThread
prepared = record (new_dns_sender_thread zeros zeros) {
  socket = record { s_addr = 16777343; sin_port = 13568 };
  pkt = Packet.set_destination (new_packet zeros) 16777343 53;
  sourceip = record { is_ipv4 = true; addr = 16908298 };
  runtime = 3;
  timeout = 2;
  timeslice = record { num = 1; den = 1 };
  dnssec_rate = 10;
}

abbrev blocks : List (Result (Memory × Memory))
blocks = ok (zeros, zeros) ∷ ok (zeros, zeros) ∷ []

makes : prepare_threads session new_payload_file blocks ≡ ok (prepared ∷ prepared ∷ [])
unfolding prepare_threads prepare_thread set_destination set_timeslice
    RawSocketSender.set_destination set_sender
makes = refl

blocks-AllBytes : AllBytes blocks
blocks-AllBytes = ((zeros-IsBytes, zeros-IsBytes), ((zeros-IsBytes, zeros-IsBytes), tt))

prepare_threads-IsFor_example :
    All (IsFor (session_common session new_payload_file) 3) (prepared ∷ prepared ∷ [])
prepare_threads-IsFor_example =
    prepare_threads-IsFor session new_payload_file blocks (prepared ∷ prepared ∷ []) blocks-AllBytes
      (omega arith) makes
