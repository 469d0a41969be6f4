-- ===== src/DnsSender/Main/Tests.antt =====
-- src/dns_sender.cpp: runs of sessions.
use Prim.Native.String.{String}
use text.Mathlib.Text.{◌==◌ as str_eq}
use dnsmeter.Base.{
  rounded, nearest, scale, ℤ, pos, ℕ, ◌*◌, ◌≡◌, refl, inl, inr, true, false, List, [], ◌∷◌, none,
  some, arith, if◌then◌else◌,
}
use dnsmeter.Exceptions.{ok}
use dnsmeter.Pplib.Samples.{zeros}
use dnsmeter.PayloadFile.{new_payload_file}
use dnsmeter.DnsSenderThread.{DnsSenderThread, Ratio, new_dns_sender_thread}
use dnsmeter.DnsSender.Threads.{IsSlice}
use dnsmeter.DnsSender.{Results, new_results, calc_timeslice}
use dnsmeter.DnsSender.Params.{DnsSender, new_dns_sender}
use dnsmeter.DnsSender.Report.{Pool, Poll, open_csv_file, heading}
use dnsmeter.DnsSender.Report.Differences.{Ends}
use dnsmeter.DnsSender.Main.{Watched, Running, World, open_files, run_session}
use dnsmeter.DnsSender.Main.Returns.{Completed, run_session-Completed}
use dnsmeter.SystemStat.{Network, Interface, sample_network}
use dnsmeter.DnsSender.Report.Network.{present_network, present_network-stale}

abbrev thread : DnsSenderThread
thread = new_dns_sender_thread zeros zeros

abbrev one_ms : Ratio
one_ms = record { num = 1; den = 1 }

abbrev nothing : Results
nothing = new_results (zeros, zeros)

-- A thread that has sent seven queries.
abbrev sent : DnsSenderThread
sent = record thread { counter_packets_send = 7; counter_bytes_send = 203 }

abbrev pool : Pool
pool = record { threads = sent ∷ []; receiver = none }

-- Two seconds, then the end.
abbrev polls : List Poll
polls =
    record { running = true; stop_flag = false; now = 1; shown_at = 1; pool = pool }
    ∷ record { running = true; stop_flag = false; now = 2; shown_at = 2; pool = pool }
    ∷ record { running = false; stop_flag = false; now = 3; shown_at = 3; pool = pool }
    ∷ []

polls_end : Ends polls
polls_end = inr (inr (inl refl))

abbrev watched : Watched
watched = record { start = 0; polls = polls; final = pool; stopped = false }

abbrev session : DnsSender
session = record new_dns_sender {
  target_ip = record { is_ipv4 = true; addr = 16777343 };
  csv_file_name = "results.csv";
  rates = "10" ∷ "20" ∷ [];
  ignore_responses = true;
}

abbrev world : World
world = record {
  csv_file = ok [];
  query_file = ok new_payload_file;
  interface = ok tt;
  blocks = λ _. ok (zeros, zeros);
  fresh = (zeros, zeros);
  runs = (λ _. watched) ∷ (λ _. watched) ∷ [];
}

abbrev number : String → ℤ
number text = if str_eq text "10" then pos 10 else pos 20

ten : IsSlice (calc_timeslice 1 10)
unfolding calc_timeslice rounded nearest scale
ten = (omega arith, omega arith)

twenty : IsSlice (calc_timeslice 1 20)
unfolding calc_timeslice rounded nearest scale
twenty = (omega arith, omega arith)

opened : open_files session world ≡ (some (heading ∷ []), ok new_payload_file)
unfolding open_files open_csv_file
opened = refl

run_session-Completed_example :
    Completed 10 1
      (10 ∷ 20 ∷ [])
      world.runs
      (record { presented = []; csv = some (heading ∷ []) })
      (run_session number session world)
run_session-Completed_example =
    run_session-Completed number session world (some (heading ∷ [])) new_payload_file opened refl
      refl (omega arith, omega arith) (omega arith) (λ k. ((zeros, zeros), refl))
      (
        inr (omega arith, ten),
        (λ us. (polls_end, refl)),
        (inr (omega arith, twenty), (λ us. (polls_end, refl)), tt),
      )

-- Two threads for one query a second.
abbrev running : Running
running = record {
  slices = one_ms;
  threads = thread ∷ thread ∷ [];
  results = nothing;
  prev = nothing;
  out = record { presented = []; csv = none };
}

abbrev no_traffic : Network
no_traffic = record { bytes = 0; packets = 0; errs = 0; drop = 0 }

-- The interface of both samples, and what a further run reads.
abbrev counted : ℕ → Interface
counted n = record {
  name = "eth0";
  receive = record { bytes = n * 100; packets = n; errs = 0; drop = 0 };
  transmit = record { bytes = n * 60; packets = n; errs = 0; drop = 0 };
}

present_network-stale_example :
    present_network "eth0"
      (sample_network (counted 80 ∷ []) (counted 10 ∷ []) no_traffic no_traffic).0
      (sample_network (counted 90 ∷ []) (counted 40 ∷ []) no_traffic no_traffic).0
    ≡ present_network "eth0" (counted 10 ∷ []) (counted 40 ∷ [])
present_network-stale_example =
    present_network-stale "eth0" (counted 10 ∷ []) (counted 40 ∷ []) (counted 10) (counted 40)
      (counted 80 ∷ []) (counted 90 ∷ []) no_traffic no_traffic no_traffic no_traffic refl refl
