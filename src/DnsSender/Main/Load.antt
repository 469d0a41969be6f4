-- ===== src/DnsSender/Main/Load.antt =====
-- src/dns_sender.cpp: what a run has counted once every thread has sent its share.
use native.Mathlib.Nat.{mul-add, div-add-mod}
use dnsmeter.Base.{
  inl, inr, ℕ, ◌+◌, ◌*◌, ◌/◌, ◌%◌, ◌≤◌, ◌≡◌, ap, subst, List, [], ◌∷◌, map, Option, none, some,
  arith, length, sum,
}
use dnsmeter.Exceptions.{Result, ok, throw}
use dnsmeter.RawSocketReceiver.{Counter}
use dnsmeter.DnsSenderThread.{DnsSenderThread, Ratio}
use dnsmeter.DnsSenderThread.Counters.{attempts}
use dnsmeter.DnsSender.{
  Results, clear, add_receiver, count_lost, get_results, calc_timeslice, configure,
}
use dnsmeter.DnsSender.Threads.{configure-cases, with_rate, sum-with_rate}
use dnsmeter.DnsSender.Totals.{add_threads-IsSum}

-- The threads `vs` have each tried as many packets as the rate and the runtime of the thread in `us` ask for.
abbrev HaveRun : ℕ → List DnsSenderThread → List DnsSenderThread → Type 0
HaveRun runtime [] [] = Unit
HaveRun runtime [] (v ∷ vs) = ⊥
HaveRun runtime (u ∷ us) [] = ⊥
HaveRun runtime (u ∷ us) (v ∷ vs) = (attempts v ≡ runtime * u.queryrate) × HaveRun runtime us vs

-- The queries of results: sent, in part or not at all, or with an error.
abbrev pub tried : Results → ℕ
tried r = r.counter_send + r.counter_0bytes + r.counter_errors

HaveRun-sum :
    (runtime : ℕ) (us vs : List DnsSenderThread)
    → HaveRun runtime us vs
    → sum (map (λ (t : DnsSenderThread). t.counter_packets_send) vs)
        + sum (map (λ (t : DnsSenderThread). t.counter_0bytes) vs)
        + sum (map (λ (t : DnsSenderThread). t.errors) vs)
      ≡ runtime * sum (map (λ (t : DnsSenderThread). t.queryrate) us)
HaveRun-sum runtime [] [] ran = omega arith
HaveRun-sum runtime [] (v ∷ vs) ran = elim ran [ ]
HaveRun-sum runtime (u ∷ us) [] ran = elim ran [ ]
HaveRun-sum runtime (u ∷ us) (v ∷ vs) (one, ran) =
    let rest = HaveRun-sum runtime us vs ran in
    let rates = sum (map (λ (t : DnsSenderThread). t.queryrate) us) in
    omega (arith, rest, one, mul-add runtime u.queryrate rates)

pub get_results-tried :
    (r : Results) (ts : List DnsSenderThread) (receiver : Option Counter)
    → tried (get_results r ts receiver)
      ≡ sum (map (λ (t : DnsSenderThread). t.counter_packets_send) ts)
        + sum (map (λ (t : DnsSenderThread). t.counter_0bytes) ts)
        + sum (map (λ (t : DnsSenderThread). t.errors) ts)
unfolding get_results count_lost add_receiver clear
get_results-tried r ts none =
    let s = add_threads-IsSum ts (clear r) in omega (arith, s.sent, s.empty, s.errors)
get_results-tried r ts (some c) =
    let s = add_threads-IsSum ts (clear r) in omega (arith, s.sent, s.empty, s.errors)

-- What holds of the threads that a set-up gives.
unfoldable pub OnStarted :
    (List DnsSenderThread → Type 0) → Result (Ratio × List DnsSenderThread) → Type 0
OnStarted P (throw e) = Unit
OnStarted P (ok (ms, us)) = P us

pub configure-OnStarted :
    (P : List DnsSenderThread → Type 0) (slices : Ratio) (q : ℕ) (t : DnsSenderThread)
    (ts : List DnsSenderThread)
    → let n = length (t ∷ ts) in
      n ≤ q
      → P (map (with_rate (q / n) (calc_timeslice n q)) (t ∷ ts))
      → OnStarted P (configure n slices q (t ∷ ts))
unfolding OnStarted
configure-OnStarted P slices q t ts enough p =
    elim (configure-cases slices q t ts (omega (arith, enough))) [
      | inl (_, set_up) ↦ rw set_up p
      | inr (_, refused) ↦ rw refused tt
    ]

-- A run at `q` queries a second, set up for at least one and at most `q` threads: once every thread has tried as
-- many packets as its rate and the runtime ask for, the results count, as sent, as sent in part or as an error,
-- the rate times the runtime, but for the remainder of the rate by the number of threads.
get_results-tried-configure :
    (slices : Ratio) (q : ℕ) (t : DnsSenderThread) (ts : List DnsSenderThread) (ms : Ratio)
    (us vs : List DnsSenderThread) (runtime : ℕ) (r : Results) (receiver : Option Counter)
    → length (t ∷ ts) ≤ q
    → configure (length (t ∷ ts)) slices q (t ∷ ts) ≡ ok (ms, us)
    → HaveRun runtime us vs
    → tried (get_results r vs receiver) + runtime * (q % length (t ∷ ts)) ≡ runtime * q
unfolding OnStarted
get_results-tried-configure slices q t ts ms us vs runtime r receiver enough set_up ran =
    let n = length (t ∷ ts) in
    let total =
      subst
        (OnStarted (λ (us : List DnsSenderThread).
          sum (map (λ (t : DnsSenderThread). t.queryrate) us) ≡ n * (q / n)))
        set_up
        (configure-OnStarted
          (λ (us : List DnsSenderThread).
            sum (map (λ (t : DnsSenderThread). t.queryrate) us) ≡ n * (q / n))
          slices q t ts enough (sum-with_rate (q / n) (calc_timeslice n q) (t ∷ ts))) in
    omega (
      arith,
      get_results-tried r vs receiver,
      HaveRun-sum runtime us vs ran,
      ap (λ (x : ℕ). runtime * x) total,
      mul-add runtime (n * (q / n)) (q % n),
      ap (λ (x : ℕ). runtime * x) (div-add-mod q n),
    )
