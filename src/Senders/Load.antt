-- ===== src/Senders/Load.antt =====
-- src/dns_sender.cpp: what a run has counted once its threads, in any interleaving, are at their end.
use native.Mathlib.Nat.{mul-add, div-add-mod, le-div_iff_mul-le}
use dnsmeter.Base.{
  ℕ, ◌+◌, ◌*◌, ◌/◌, ◌%◌, ◌≤◌, ◌≡◌, ◌∙◌, refl, ap, subst, List, [], ◌∷◌, Option, some, map, arith,
  length, sum, All,
}
use dnsmeter.Exceptions.{ok}
use dnsmeter.PayloadFile.{PayloadFile}
use dnsmeter.RawSocketReceiver.{Counter}
use dnsmeter.DnsSenderThread.{DnsSenderThread, Ratio}
use dnsmeter.DnsSenderThread.Counters.{attempts}
use dnsmeter.DnsSenderThread.Whole.{IsPayload}
use dnsmeter.DnsSender.{Results, get_results, calc_timeslice, configure}
use dnsmeter.DnsSender.Threads.{with_rate}
use dnsmeter.DnsSender.Main.Load.{tried, get_results-tried, OnStarted, configure-OnStarted}
use dnsmeter.Senders.{Point, done, Reading, Proc, Event, run_schedule}
use dnsmeter.Senders.Kept.{tally, Balance}
use dnsmeter.Senders.Wire.{Common, Fit}
use dnsmeter.Senders.Turns.{Sound}
use dnsmeter.Senders.Shared.{tallies, all_sent, Sounds}
use dnsmeter.Senders.Session.{readies-tallies, readies, AllFit, result-Runs, IsDone, AllDone}

-- The queries that are left to a thread at its end, since it was told to stop or found the time over.
abbrev pub left_over : Point → ℕ
left_over (done rest) = rest
left_over _ = 0

abbrev pub left_overs : List Proc → ℕ
left_overs ps = sum (map (λ (p : Proc). left_over p.point) ps)

abbrev pub threads_of : List Proc → List DnsSenderThread
threads_of ps = map (λ (p : Proc). p.thread) ps

-- A thread that can send to the target, for a run of `runtime` seconds.
abbrev pub IsFor : Common → ℕ → DnsSenderThread → Type 0
IsFor c runtime t = Fit c t t × (t.runtime ≡ runtime)

IsDone-Balance :
    (t : DnsSenderThread) (x : Point)
    → 1 ≤ t.queryrate
    → Balance t x
    → IsDone x
    → attempts t + left_over x ≡ t.runtime * t.queryrate
unfolding Balance
IsDone-Balance t (done rest) rate b over = b rate
IsDone-Balance t _ rate b over = elim over [ ]

done-attempts :
    (c : Common) (runtime : ℕ) (u : DnsSenderThread) (p : Proc)
    → u.runtime ≡ runtime
    → 1 ≤ u.queryrate
    → Sound c u p
    → IsDone p.point
    → attempts p.thread + left_over p.point ≡ runtime * u.queryrate
done-attempts c runtime u p same rate sound over =
    let fit = sound.fit in
    let share : p.thread.runtime * p.thread.queryrate ≡ runtime * u.queryrate =
      rw (fit.runtime, fit.queryrate, same) refl in
    IsDone-Balance p.thread p.point (omega (arith, rate, fit.queryrate)) sound.balance over ∙ share

-- The threads together.
AllDone-attempts :
    (c : Common) (runtime : ℕ) (us : List DnsSenderThread) (ps : List Proc)
    → All (λ (u : DnsSenderThread). (u.runtime ≡ runtime) × (1 ≤ u.queryrate)) us
    → Sounds c us ps
    → AllDone ps
    → sum (map (λ (t : DnsSenderThread). t.counter_packets_send) (threads_of ps))
        + sum (map (λ (t : DnsSenderThread). t.counter_0bytes) (threads_of ps))
        + sum (map (λ (t : DnsSenderThread). t.errors) (threads_of ps))
        + left_overs ps
      ≡ runtime * sum (map (λ (u : DnsSenderThread). u.queryrate) us)
AllDone-attempts c runtime [] [] rates sounds over = omega arith
AllDone-attempts c runtime [] (p ∷ ps) rates sounds over = elim sounds [ ]
AllDone-attempts c runtime (u ∷ us) [] rates sounds over = elim sounds [ ]
AllDone-attempts c runtime (u ∷ us) (p ∷ ps) ((same, rate), rates) (sound, sounds) (one, over) =
    let rest = AllDone-attempts c runtime us ps rates sounds over in
    let here = done-attempts c runtime u p same rate sound one in
    let total = sum (map (λ (u : DnsSenderThread). u.queryrate) us) in
    omega (arith, rest, here, mul-add runtime u.queryrate total)

IsDone-tally : (t : DnsSenderThread) (x : Point) → IsDone x → tally t x ≡ attempts t
IsDone-tally t (done rest) over = refl
IsDone-tally t _ over = elim over [ ]

AllDone-tallies :
    (ps : List Proc)
    → AllDone ps
    → sum (map (λ (t : DnsSenderThread). t.counter_packets_send) (threads_of ps))
        + sum (map (λ (t : DnsSenderThread). t.counter_0bytes) (threads_of ps))
        + sum (map (λ (t : DnsSenderThread). t.errors) (threads_of ps))
      ≡ tallies ps
AllDone-tallies [] over = omega arith
AllDone-tallies (p ∷ ps) (one, over) =
    omega (arith, AllDone-tallies ps over, IsDone-tally p.thread p.point one)

-- What a set-up gives for a run.
pub record Starts (c : Common) (runtime total : ℕ) (us : List DnsSenderThread) : Type 0 where
  pub fit : AllFit c us
  pub rates : All (λ (u : DnsSenderThread). (u.runtime ≡ runtime) × (1 ≤ u.queryrate)) us
  pub share : sum (map (λ (u : DnsSenderThread). u.queryrate) us) ≡ total

with_rate-Fit :
    (c : Common) (rate : ℕ) (ms : Ratio) (t : DnsSenderThread)
    → Fit c t t
    → Fit c (with_rate rate ms t) (with_rate rate ms t)
with_rate-Fit c rate ms t fit = record {
  heap = fit.heap;
  bytes = fit.bytes;
  is_ready = record {
    reached = fit.is_ready.reached;
    buffer = fit.is_ready.buffer;
    destined = fit.is_ready.destined;
  };
  pcap = fit.pcap;
  address = fit.address;
  port = fit.port;
  queryrate = refl;
  runtime = refl;
}

with_rate-Starts :
    (c : Common) (runtime rate : ℕ) (ms : Ratio) (ts : List DnsSenderThread)
    → 1 ≤ rate
    → All (IsFor c runtime) ts
    → Starts c runtime (length ts * rate) (map (with_rate rate ms) ts)
with_rate-Starts c runtime rate ms [] one fits = record {
  fit = tt;
  rates = tt;
  share = omega arith;
}
with_rate-Starts c runtime rate ms (t ∷ ts) one ((fit, same), fits) =
    let rest = with_rate-Starts c runtime rate ms ts one fits in
    record {
      fit = (with_rate-Fit c rate ms t fit, rest.fit);
      rates = ((same, one), rest.rates);
      share = omega (arith, rest.share);
    }

pub configure-Starts :
    (c : Common) (runtime : ℕ) (slices : Ratio) (q : ℕ) (t : DnsSenderThread)
    (ts : List DnsSenderThread) (ms : Ratio) (us : List DnsSenderThread)
    → let n = length (t ∷ ts) in
      n ≤ q
      → configure n slices q (t ∷ ts) ≡ ok (ms, us)
      → All (IsFor c runtime) (t ∷ ts)
      → Starts c runtime (n * (q / n)) us
unfolding OnStarted
configure-Starts c runtime slices q t ts ms us enough set_up fits =
    let n = length (t ∷ ts) in
    let one : 1 ≤ q / n =
      (le-div_iff_mul-le {k = n} {x = 1} {y = q} (omega arith)).1 (omega arith) in
    subst (OnStarted (Starts c runtime (n * (q / n)))) set_up (
      configure-OnStarted (Starts c runtime (n * (q / n))) slices q t ts enough
        (with_rate-Starts c runtime (q / n) (calc_timeslice n q) (t ∷ ts) one fits))

-- A run at `q` queries a second of threads that can send to the target, at least one and at most `q`, which take
-- their turns in any order: once every thread is at its end, the results count, as sent, as sent in part or as
-- an error, each packet that was handed to the socket, and these are the rate times the runtime, but for the queries
-- that are left to the threads and for the remainder of the rate by the number of threads.
pub run_schedule-tried :
    (c : Common) (k : ℕ) (f : PayloadFile) (slices : Ratio) (q : ℕ) (t : DnsSenderThread)
    (ts : List DnsSenderThread) (ms : Ratio) (us : List DnsSenderThread) (runtime : ℕ)
    (schedule : List (ℕ × Reading)) (es : List Event) (g : PayloadFile) (ps : List Proc)
    (r : Results) (receiver : Option Counter)
    → length (t ∷ ts) ≤ q
    → configure (length (t ∷ ts)) slices q (t ∷ ts) ≡ ok (ms, us)
    → All (IsFor c runtime) (t ∷ ts)
    → IsPayload c.pcap k f
    → run_schedule schedule f (readies us) ≡ some (es, g, ps)
    → AllDone ps
    → (tried (get_results r (threads_of ps) receiver) ≡ length (all_sent es))
      × (length (all_sent es) + left_overs ps + runtime * (q % length (t ∷ ts)) ≡ runtime * q)
run_schedule-tried c k f slices q t ts ms us runtime schedule es g ps r receiver enough set_up fits
      file ran over =
    let n = length (t ∷ ts) in
    let starts = configure-Starts c runtime slices q t ts ms us enough set_up fits in
    let runs = result-Runs c k f us schedule es g ps file starts.fit ran in
    let counted : tried (get_results r (threads_of ps) receiver) ≡ length (all_sent es) = omega (
      arith,
      get_results-tried r (threads_of ps) receiver,
      AllDone-tallies ps over,
      runs.counted,
      readies-tallies us,
    ) in
    (
      counted,
      omega (
        arith,
        counted,
        get_results-tried r (threads_of ps) receiver,
        AllDone-attempts c runtime us ps starts.rates runs.sounds over,
        ap (λ (x : ℕ). runtime * x) starts.share,
        mul-add runtime (n * (q / n)) (q % n),
        ap (λ (x : ℕ). runtime * x) (div-add-mod q n),
      ),
    )
