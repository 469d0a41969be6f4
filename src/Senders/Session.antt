-- ===== src/Senders/Session.antt =====
-- src/dns_sender_thread.cpp, src/dns_sender.cpp: the threads of a session from the start of their runs.
use mathlib.Core.Option.{some-injective}
use native.Mathlib.Nat.{eq-or-lt_of_le}
use dnsmeter.Base.{
  ℕ, ◌+◌, ◌≤◌, ◌<◌, ◌≡◌, ◌⊎◌, inl, inr, ◌∙◌, refl, sym, subst, List, [], ◌∷◌, some, map, arith,
  length, All,
}
use dnsmeter.Pplib.{ByteArray}
use dnsmeter.PayloadFile.{PayloadFile}
use dnsmeter.PayloadFile.RoundRobin.{turns}
use dnsmeter.DnsSenderThread.{DnsSenderThread}
use dnsmeter.DnsSenderThread.Whole.{IsPayload}
use dnsmeter.Senders.{
  Point, ready, slice, sending, idle, burst, bursting, leaving, waiting, done, threw, Reading, Proc,
  at, Event, run_schedule,
}
use dnsmeter.Senders.Kept.{Balance, work}
use dnsmeter.Senders.Wire.{Common, Fit}
use dnsmeter.Senders.Turns.{IsRight, weigh}
use dnsmeter.Senders.Shared.{
  tallies, Sounds, weigh_hands, works, all_taken, all_sent, busy_turns, AllLimited,
}
use dnsmeter.Senders.Schedules.{Runs, run_schedule-Runs}

-- The threads before their runs.
abbrev pub readies : List DnsSenderThread → List Proc
readies us = map (λ (u : DnsSenderThread). at u ready) us

-- Each thread can send to the target.
abbrev pub AllFit : Common → List DnsSenderThread → Type 0
AllFit c us = All (λ (u : DnsSenderThread). Fit c u u) us

readies-Sounds : (c : Common) (us : List DnsSenderThread) → AllFit c us → Sounds c us (readies us)
readies-Sounds c [] fit = tt
readies-Sounds c (u ∷ us) (one, fit) =
    (record { fit = one; balance = unfold Balance in tt; loadable = tt }, readies-Sounds c us fit)

readies-weigh_hands :
    (w : ByteArray → ℕ) (us : List DnsSenderThread) → weigh_hands w (readies us) ≡ 0
readies-weigh_hands w [] = refl
readies-weigh_hands w (u ∷ us) = omega (arith, readies-weigh_hands w us)

pub readies-tallies : (us : List DnsSenderThread) → tallies (readies us) ≡ 0
readies-tallies [] = refl
readies-tallies (u ∷ us) = omega (arith, readies-tallies us)

-- What the threads have taken and put on the wire. A weight of 1 for a query and of 0 for each other one counts
-- the query.
pub record IsShared (c : Common) (k : ℕ) (f : PayloadFile)
    (m : List Event × PayloadFile × List Proc) : Type 0 where
  pub order : map some (all_taken m.0) ≡ turns f.querycache k (length (all_taken m.0))
  pub right : All (IsRight c) m.0
  pub once :
      (w : ByteArray → ℕ) → weigh w (all_taken m.0) ≡ weigh_hands w m.2 + weigh w (all_sent m.0)
  pub counted : tallies m.2 ≡ length (all_sent m.0)

-- Threads that can send to the target, on a payload whose queries fit, run under any schedule without undefined
-- behaviour. Together they take the queries of the payload in turn. Each packet that one of them hands to the
-- socket is valid, has valid checksums, goes to the target, and carries the query that it is sent for. And
-- each query that has been taken is sent once or is in the hands of one thread, which has not sent it yet. The
-- counters of the threads that have started add up to the packets.
pub run_schedule-IsShared :
    (c : Common) (k : ℕ) (f : PayloadFile) (us : List DnsSenderThread)
    (schedule : List (ℕ × Reading))
    → IsPayload c.pcap k f
    → AllFit c us
    → (m : List Event × PayloadFile × List Proc) × (run_schedule schedule f (readies us) ≡ some m)
      × IsShared c k f m
run_schedule-IsShared c k f us schedule file fit =
    let (m, ran, runs) =
      run_schedule-Runs c k f us schedule (readies us) file (readies-Sounds c us fit) in
    (
      m,
      ran,
      record {
        order = runs.order;
        right = runs.right;
        once = λ w. omega (arith, runs.weight w, readies-weigh_hands w us);
        counted = omega (arith, runs.counted, readies-tallies us);
      },
    )

-- What holds of the result of a schedule.
module _ (c : Common) (k : ℕ) (f : PayloadFile) (us : List DnsSenderThread)
    (schedule : List (ℕ × Reading)) (es : List Event) (g : PayloadFile) (qs : List Proc) where
  pub result-Runs :
      IsPayload c.pcap k f
      → AllFit c us
      → run_schedule schedule f (readies us) ≡ some (es, g, qs)
      → Runs c k f us (readies us) (es, g, qs)
  result-Runs file fit ran =
      let (m, ran', runs) =
        run_schedule-Runs c k f us schedule (readies us) file (readies-Sounds c us fit) in
      subst (Runs c k f us (readies us)) (some-injective m (es, g, qs) (sym ran' ∙ ran)) runs

abbrev pub IsDone : Point → Type 0
IsDone (done rest) = Unit
IsDone _ = ⊥

abbrev pub AllDone : List Proc → Type 0
AllDone ps = All (λ (p : Proc). IsDone p.point) ps

worked :
    (c : Common) (u t : DnsSenderThread) (x : Point)
    → Fit c u t
    → 1 ≤ u.queryrate
    → Balance t x
    → work t x ≡ 0
    → IsDone x
unfolding work Balance
worked c u t ready fit rate b e = absurd (omega (arith, e))
worked c u t (slice n s) fit rate b e = absurd (omega (arith, e))
worked c u t (sending q n s) fit rate b e = absurd (omega (arith, e))
worked c u t (idle s) fit rate b e = absurd (omega (arith, e))
worked c u t (burst pc end) fit rate b e = absurd (omega (arith, b, rate, fit.queryrate))
worked c u t (bursting q pc end) fit rate b e = absurd (omega (arith, b, rate, fit.queryrate))
worked c u t (leaving rest) fit rate b e = absurd (omega (arith, e))
worked c u t (waiting rest end check) fit rate b e = absurd (omega (arith, e))
worked c u t (done rest) fit rate b e = tt
worked c u t (threw x) fit rate b e = b

all_worked :
    (c : Common) (us : List DnsSenderThread) (ps : List Proc)
    → AllLimited us
    → Sounds c us ps
    → works ps ≡ 0
    → AllDone ps
all_worked c [] [] rates sounds e = tt
all_worked c [] (p ∷ ps) rates sounds e = elim sounds [ ]
all_worked c (u ∷ us) [] rates sounds e = elim sounds [ ]
all_worked c (u ∷ us) (p ∷ ps) (rate, rates) (sound, sounds) e = (
  worked c u p.thread p.point sound.fit rate sound.balance (omega (arith, e)),
  all_worked c us ps rates sounds (omega (arith, e)),
)

-- The turns of rate-limited threads that do more than wait are fewer than two for each query of the runtime, one
-- for each time slice and three for each thread, whatever the schedule; or they are as many, and every thread
-- is at the end of its run.
pub run_schedule-AllDone :
    (c : Common) (k : ℕ) (f : PayloadFile) (us : List DnsSenderThread)
    (schedule : List (ℕ × Reading)) (es : List Event) (g : PayloadFile) (qs : List Proc)
    → IsPayload c.pcap k f
    → AllFit c us
    → AllLimited us
    → run_schedule schedule f (readies us) ≡ some (es, g, qs)
    → (busy_turns es < works (readies us)) ⊎ ((busy_turns es ≡ works (readies us)) × AllDone qs)
run_schedule-AllDone c k f us schedule es g qs file fit rates ran =
    let runs = result-Runs c k f us schedule es g qs file fit ran in
    let bound = runs.less rates in
    let bounded : busy_turns es ≤ works (readies us) = omega (arith, bound) in
    elim (eq-or-lt_of_le bounded) [
      | inl e ↦ inr (e, all_worked c us qs rates runs.sounds (omega (arith, bound, e)))
      | inr lt ↦ inl lt
    ]
