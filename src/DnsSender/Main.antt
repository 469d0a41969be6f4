-- ===== src/DnsSender/Main.antt =====
-- src/dns_sender.cpp: `main`, with `openFiles` and `run`. What the threads and the receiver have counted while they
-- run is an argument.
pub mod Load
pub mod Runs
pub mod Publishes
pub mod Returns
pub mod Ends
mod Tests
use Prim.Native.String.{String}
use text.Mathlib.Text.{◌==◌ as str_eq}
use dnsmeter.Base.{
  ℤ, pos, pos_part, ℕ, zero, suc, ◌+◌, ◌-◌, ◌*◌, ◌/◌, Bool, true, false, not, ◌&&◌, List, [], ◌∷◌,
  ◌++◌, Option, none, some, if◌then◌else◌, Memory,
}
use dnsmeter.Exceptions.{Exception, Result, ok, throw, ◌>>=◌, operation_interrupted}
use dnsmeter.PayloadFile.{PayloadFile}
use dnsmeter.DnsSenderThread.{DnsSenderThread, Ratio}
use dnsmeter.DnsSender.{Results, new_results, clear, configure, get_results}
use dnsmeter.DnsSender.Prepare.{Session, prepare_threads}
use dnsmeter.DnsSender.Params.{
  CommandLine, Library, DnsSender, new_dns_sender, Parsed, usage, endless, parsed, get_parameter,
}
use dnsmeter.DnsSender.Report.{
  Pool, Stats, Poll, watch, Line, Presented, open_csv_file, save_results_to_csv, present_results,
}

-- What `prepareThreads` reads.
unfoldable pub session_of : DnsSender → Session
session_of s = record {
  target_ip = s.target_ip;
  target_port = pos_part s.target_port;
  runtime = pos_part s.runtime;
  timeout = pos_part s.timeout;
  timeslices = s.timeslices;
  dnssec_rate = pos_part s.dnssec_rate;
  spoofing_enabled = s.spoofing_enabled;
  spoof_from_pcap = s.spoof_from_pcap;
  source_ip = s.source_ip;
  source_net = (s.source_net.first, s.source_net.prefixlen);
}

-- What a run meets once its threads are started: the clock, the rounds of its loop, what has been counted at its end,
-- and `stopFlag` then.
pub record Watched : Type 0 where
  pub start : ℕ
  pub polls : List Poll
  pub final : Pool
  pub stopped : Bool

-- How a run ends: by itself, or with the exception that stops the program. It has printed lines.
pub data Ended : Type 0 where
  finished : List Stats → Ended
  interrupted : List Stats → Ended

-- `run` from the start of the threads on. `prev` is `vis_prev_results`, and `result` a new object.
unfoldable pub run_started : Results → Results → Watched → Option Ended
run_started prev result w = elim (watch w.start (w.start + 1) (clear prev) result w.polls) [
  | none ↦ none
  | some (lines, _) ↦ some (if w.stopped then interrupted lines else finished lines)
]

-- What `main` has presented and written, and the exit code.
pub record Output : Type 0 where
  pub presented : List Presented
  pub csv : Option (List Line)

-- `getResults`, `presentResults` and `saveResultsToCsv`, on the `results` of `main`.
unfoldable pub report : ℕ → Results → Pool → Output → Results × Output
report runtime results pool out =
    let r = get_results results pool.threads pool.receiver in
    (
      r,
      record {
        presented = out.presented ++ (present_results runtime r ∷ []);
        csv = save_results_to_csv runtime r out.csv;
      },
    )

-- What `main` keeps from rate to rate. `prev` is `vis_prev_results`, which each run clears.
pub record Running : Type 0 where
  pub slices : Ratio
  pub threads : List DnsSenderThread
  pub results : Results
  pub prev : Results
  pub out : Output

-- The loop of `main` over the rates, and its exceptions. `world` has, for each rate, what its run meets with the
-- threads as they are started. The result is the exit code and the output, and `none` where a loop goes on.
unfoldable pub run_rates :
    ℕ → ℕ → List ℕ → List (List DnsSenderThread → Watched) → Running → Option (ℕ × Output)
run_rates runtime thread_count [] world m = some (0, m.out)
run_rates runtime thread_count (q ∷ qs) [] m = none
run_rates runtime thread_count (q ∷ qs) (meets ∷ world) m =
    elim (configure thread_count m.slices q m.threads) [
      | throw e ↦ some (1, m.out)
      | ok (slices, us) ↦
          let w = meets us in
          let asked = record m.results { queryrate = pos q } in
          let (r, out) = report runtime asked w.final m.out in
          let more = run_rates runtime thread_count qs world (record {
            slices = slices;
            threads = w.final.threads;
            results = r;
            prev = m.prev;
            out = out;
          }) in
          elim (run_started m.prev m.prev w) [
            | none ↦ none
            | some (interrupted _) ↦ some (0, out)
            | some (finished _) ↦ more
          ]
    ]

-- What is outside of the program: how the opening of the CSV file, with its lines, of the payload file and of the
-- interface for the receiver ends, the blocks of memory of the threads, or the exceptions of their constructors,
-- and the memory of the results, and the runs.
pub record World : Type 0 where
  pub csv_file : Result (List Line)
  pub query_file : Result PayloadFile
  pub interface : Result (Unit {0})
  pub blocks : ℕ → Result (Memory × Memory)
  pub fresh : (ℕ → ℕ) × (ℕ → ℕ)
  pub runs : List (List DnsSenderThread → Watched)

-- `openFiles`: the lines of the CSV file if one is opened, and the payload, or the exception that it reports.
unfoldable pub open_files : DnsSender → World → Option (List Line) × Result PayloadFile
open_files s world =
    if str_eq s.csv_file_name "" then (none, world.query_file) else elim world.csv_file [
      | throw e ↦ (none, throw e)
      | ok ls ↦ (some (open_csv_file ls), world.query_file)
    ]

-- The blocks of `n` threads, from the one with the number `i` on.
abbrev pub allocate : (ℕ → Result (Memory × Memory)) → ℕ → ℕ → List (Result (Memory × Memory))
allocate blocks i zero = []
allocate blocks i (suc n) = blocks i ∷ allocate blocks (i + 1) n

-- The threads of a session, after the receiver is bound to its interface.
unfoldable pub make_threads : DnsSender → World → PayloadFile → Result (List DnsSenderThread)
make_threads s world payload = do
  _ ← if s.ignore_responses then ok tt else world.interface
  prepare_threads (session_of s) payload (allocate world.blocks 0 (pos_part s.thread_count))

abbrev pub rates_of : (String → ℤ) → List String → List ℕ
rates_of to_int [] = []
rates_of to_int (r ∷ rs) = pos_part (to_int r) ∷ rates_of to_int rs

-- `main` after `openFiles`, on what that gives.
unfoldable pub run_opened :
    (String → ℤ) → DnsSender → World → Option (List Line) × Result PayloadFile → Option (ℕ × Output)
run_opened to_int s world (csv, payload) =
    let start : Output = record { presented = []; csv = csv } in
    elim (payload >>= make_threads s world) [
      | throw e ↦ some (1, start)
      | ok ts ↦
          run_rates (pos_part s.runtime) (pos_part s.thread_count) (rates_of to_int s.rates)
            world.runs
            (record {
              slices = s.timeslices;
              threads = ts;
              results = new_results world.fresh;
              prev = new_results world.fresh;
              out = start;
            })
    ]

-- `main` from `openFiles` on.
unfoldable pub run_session : (String → ℤ) → DnsSender → World → Option (ℕ × Output)
run_session to_int s world = run_opened to_int s world (open_files s world)

-- `main`. `help` is the test of its first line. Fuel is for a range of rates.
unfoldable pub main : ℕ → Library → CommandLine → Bool → World → Option (ℕ × Output)
main fuel lib args help world =
    let none_yet : Output = record { presented = []; csv = none } in
    if help then some (0, none_yet) else elim (get_parameter lib args fuel new_dns_sender) [
      | usage ↦ some (1, none_yet)
      | endless ↦ none
      | parsed s ↦ run_session lib.to_int s world
    ]
