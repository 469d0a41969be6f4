-- ===== src/DnsSender/Main/Returns.antt =====
-- src/dns_sender.cpp: sessions that run to their end.
use Prim.Native.String.{String}
use dnsmeter.Base.{
  All, zero, suc, ◌+◌, ℤ, pos, pos_part, ℕ, ◌≤◌, ◌≡◌, ◌⊎◌, inl, inr, refl, sym, subst, true, false,
  List, [], ◌∷◌, Option, some, if◌then◌else◌, Memory, arith,
}
use dnsmeter.Exceptions.{Result, Result-cases, ok}
use dnsmeter.PayloadFile.{PayloadFile}
use dnsmeter.RawSocketSender
use dnsmeter.DnsSenderThread.{DnsSenderThread, Ratio, set_destination, set_timeslice}
use dnsmeter.DnsSender.Threads.{IsSlice}
use dnsmeter.DnsSender.{calc_timeslice, Results, new_results, configure, get_results}
use dnsmeter.DnsSender.Prepare.{Session, prepare_thread, prepare_threads}
use dnsmeter.DnsSender.Params.{DnsSender}
use dnsmeter.DnsSender.Report.{Line}
use dnsmeter.DnsSender.Report.Differences.{Ends}
use dnsmeter.DnsSender.Main.{
  session_of, Watched, Output, report, Running, run_rates, World, open_files, make_threads,
  allocate, rates_of, run_session, run_opened,
}
use dnsmeter.DnsSender.Main.Runs.{configure-ok, run_started-finished}
use dnsmeter.DnsSender.Main.Publishes.{
  Publishes, Publishes-nothing, Publishes-all, report-Publishes,
}

-- Each rate is 0 or has a time slice that `setTimeslice` accepts, and no run is interrupted.
abbrev pub Completes : ℕ → List ℕ → List (List DnsSenderThread → Watched) → Type 0
Completes n [] [] = Unit
Completes n [] (meets ∷ world) = ⊥
Completes n (q ∷ qs) [] = ⊥
Completes n (q ∷ qs) (meets ∷ world) =
    ((q ≡ 0) ⊎ ((1 ≤ q) × IsSlice (calc_timeslice n q)))
    × ((us : List DnsSenderThread) → Ends (meets us).polls × ((meets us).stopped ≡ false))
    × Completes n qs world

-- Results of a run at a rate: those of its threads, as `run` has set them up, and of the receiver.
pub record IsReport (n q : ℕ) (meets : List DnsSenderThread → Watched) (r : Results) : Type 0 where
  pub slices : Ratio
  pub set : Ratio
  pub before : List DnsSenderThread
  pub started : List DnsSenderThread
  pub set_up : configure n slices q before ≡ ok (set, started)
  pub old : Results
  pub results : let pool = (meets started).final in r ≡ get_results old pool.threads pool.receiver

-- Results for each rate, in order.
abbrev pub Reports : ℕ → List ℕ → List (List DnsSenderThread → Watched) → List Results → Type 0
Reports n [] world [] = Unit
Reports n [] world (r ∷ rs) = ⊥
Reports n (q ∷ qs) [] rs = ⊥
Reports n (q ∷ qs) (meets ∷ world) [] = ⊥
Reports n (q ∷ qs) (meets ∷ world) (r ∷ rs) = IsReport n q meets r × Reports n qs world rs

-- What a session that ends with the rates gives.
abbrev pub Completed :
    ℕ → ℕ → List ℕ → List (List DnsSenderThread → Watched) → Output → Option (ℕ × Output) → Type 0
Completed runtime n qs world before end =
    (rs : List Results) × (out : Output) × (end ≡ some (0, out))
    × Reports n qs world rs
    × Publishes runtime before rs out

run_rates-Completed :
    (runtime n : ℕ) (qs : List ℕ) (world : List (List DnsSenderThread → Watched)) (m : Running)
    → 1 ≤ n
    → IsSlice m.slices
    → Completes n qs world
    → Completed runtime n qs world m.out (run_rates runtime n qs world m)
unfolding run_rates
run_rates-Completed runtime n [] [] m one slice complete =
    ([], m.out, refl, tt, Publishes-nothing runtime m.out)
run_rates-Completed runtime n [] (meets ∷ world) m one slice complete = elim complete [ ]
run_rates-Completed runtime n (q ∷ qs) [] m one slice complete = elim complete [ ]
run_rates-Completed runtime n (q ∷ qs) (meets ∷ world) m one slice (enough, ends, complete) =
    let (ms, us, set_up, slice') = configure-ok n m.slices q m.threads one enough slice in
    let w = meets us in
    let (over, free) = ends us in
    let (lines, ran) = run_started-finished m.prev m.prev w over free in
    let asked : Results = record m.results { queryrate = pos q } in
    let (same, published) = report-Publishes runtime asked w.final m.out in
    let told = report runtime asked w.final m.out in
    let (rs, out, rest, reports, later) =
      run_rates-Completed runtime n qs world
        (record {
          slices = ms;
          threads = w.final.threads;
          results = told.0;
          prev = m.prev;
          out = told.1;
        })
        one slice' complete in
    (
      told.0 ∷ rs,
      out,
      rw (set_up, ran, rest, run_rates) refl,
      (
        record {
          slices = m.slices;
          set = ms;
          before = m.threads;
          started = us;
          set_up = set_up;
          old = asked;
          results = same;
        },
        reports,
      ),
      Publishes-all runtime m.out told.1 out told.0 rs published later,
    )

prepare_thread-ok :
    (s : Session) (payload : PayloadFile) (heap malloced : Memory)
    → s.target_ip.is_ipv4 ≡ true
    → IsSlice s.timeslices
    → (t : DnsSenderThread) × (prepare_thread s payload heap malloced ≡ ok t)
unfolding prepare_thread set_destination set_timeslice RawSocketSender.set_destination
prepare_thread-ok s payload heap malloced ipv4 slice =
    elim (Result-cases (prepare_thread s payload heap malloced)) [
      | inl found ↦ found
      | inr (e, thrown) ↦ absurd (ground arith)
    ]

-- The constructors of the thread and of its members do not throw.
abbrev pub IsOk : Result (Memory × Memory) → Type 0
IsOk b = (m : Memory × Memory) × (b ≡ ok m)

allocate-IsOk :
    (blocks : ℕ → Result (Memory × Memory)) (i n : ℕ)
    → ((k : ℕ) → IsOk (blocks k))
    → All IsOk (allocate blocks i n)
allocate-IsOk blocks i zero got = tt
allocate-IsOk blocks i (suc n) got = (got i, allocate-IsOk blocks (i + 1) n got)

prepare_threads-ok :
    (s : Session) (payload : PayloadFile) (blocks : List (Result (Memory × Memory)))
    → All IsOk blocks
    → s.target_ip.is_ipv4 ≡ true
    → IsSlice s.timeslices
    → (ts : List DnsSenderThread) × (prepare_threads s payload blocks ≡ ok ts)
unfolding prepare_threads
prepare_threads-ok s payload [] got ipv4 slice = ([], refl)
prepare_threads-ok s payload (b ∷ blocks) (((heap, malloced), e), got) ipv4 slice =
    let (t, one) = prepare_thread-ok s payload heap malloced ipv4 slice in
    let (ts, rest) = prepare_threads-ok s payload blocks got ipv4 slice in
    (t ∷ ts, rw (e, one, rest) refl)

run_opened-Completed :
    (to_int : String → ℤ) (s : DnsSender) (world : World) (csv : Option (List Line))
    (payload : PayloadFile)
    → (if s.ignore_responses then ok tt else world.interface) ≡ ok tt
    → s.target_ip.is_ipv4 ≡ true
    → IsSlice s.timeslices
    → 1 ≤ pos_part s.thread_count
    → ((k : ℕ) → IsOk (world.blocks k))
    → Completes (pos_part s.thread_count) (rates_of to_int s.rates) world.runs
    → Completed
        (pos_part s.runtime)
        (pos_part s.thread_count)
        (rates_of to_int s.rates)
        world.runs
        (record { presented = []; csv = csv })
        (run_opened to_int s world (csv, ok payload))
unfolding run_opened make_threads session_of
run_opened-Completed to_int s world csv payload bound ipv4 slice one got complete =
    let (ts, made) =
      prepare_threads-ok (session_of s) payload (allocate world.blocks 0 (pos_part s.thread_count))
        (allocate-IsOk world.blocks 0 (pos_part s.thread_count) got) ipv4 slice in
    let start : Output = record { presented = []; csv = csv } in
    rw (bound, made, run_opened, make_threads)
      (run_rates-Completed (pos_part s.runtime) (pos_part s.thread_count) (rates_of to_int s.rates)
        world.runs
        (record {
          slices = s.timeslices;
          threads = ts;
          results = new_results world.fresh;
          prev = new_results world.fresh;
          out = start;
        })
        one slice complete)

-- A session whose files open, whose receiver is bound or not asked for, whose target is an IPv4 address, whose
-- threads are constructed and whose rates are each 0 or have a time slice of at most a second, as it is rounded,
-- returns 0, where each run ends with its threads and is not interrupted. It has presented, and written to the CSV
-- file if there is one, the results of each rate in order, taken from the threads that the run has set up for that
-- rate, and nothing else.
pub run_session-Completed :
    (to_int : String → ℤ) (s : DnsSender) (world : World) (csv : Option (List Line))
    (payload : PayloadFile)
    → open_files s world ≡ (csv, ok payload)
    → (if s.ignore_responses then ok tt else world.interface) ≡ ok tt
    → s.target_ip.is_ipv4 ≡ true
    → IsSlice s.timeslices
    → 1 ≤ pos_part s.thread_count
    → ((k : ℕ) → IsOk (world.blocks k))
    → Completes (pos_part s.thread_count) (rates_of to_int s.rates) world.runs
    → Completed
        (pos_part s.runtime)
        (pos_part s.thread_count)
        (rates_of to_int s.rates)
        world.runs
        (record { presented = []; csv = csv })
        (run_session to_int s world)
unfolding run_session
run_session-Completed to_int s world csv payload opened bound ipv4 slice one got complete =
    subst
      (λ (o : Option (List Line) × Result PayloadFile).
        Completed (pos_part s.runtime) (pos_part s.thread_count) (rates_of to_int s.rates)
          world.runs (record { presented = []; csv = csv }) (run_opened to_int s world o))
      (sym opened)
      (run_opened-Completed to_int s world csv payload bound ipv4 slice one got complete)
