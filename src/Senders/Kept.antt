-- ===== src/Senders/Kept.antt =====
-- src/dns_sender_thread.cpp: what holds of a thread at each moment of a session.
use dnsmeter.Base.{
  ℕ, zero, suc, ◌+◌, ◌*◌, ◌≤◌, ◌<◌, ◌≡◌, List, [], ◌∷◌, ◌||◌, inl, inr, arith, ltb, leb, Bool-cases,
}
use dnsmeter.Pplib.{ByteArray}
use dnsmeter.DnsSenderThread.{DnsSenderThread}
use dnsmeter.DnsSenderThread.Counters.{attempts}
use dnsmeter.DnsSenderThread.Loops.{total_timeslices, queries_per_timeslice}
use dnsmeter.DnsSenderThread.Schedule.{queries_per_timeslice-le}
use dnsmeter.Senders.{
  nanoseconds, Slice, Point, ready, slice, sending, idle, burst, bursting, leaving, waiting, done,
  threw, Reading, in_slice, enter, start, next_slice, next_burst,
}

-- The query that a thread has taken and not sent yet.
abbrev pub in_hand : Point → List ByteArray
in_hand (sending q n s) = q ∷ []
in_hand (bursting q pc end) = q ∷ []
in_hand _ = []

-- The packets that a thread has tried to send in its run. `run` clears the counters of the run before.
abbrev pub tally : DnsSenderThread → Point → ℕ
tally t ready = 0
tally t _ = attempts t

-- A point in a run at which the thread has no query in its hands.
abbrev pub IsFree : Point → Type 0
IsFree x = (in_hand x ≡ []) × ((t : DnsSenderThread) → tally t x ≡ attempts t)

-- The queries of a rate-limited run are `sent` and those to come, at each point. The loop without a limit is
-- that of threads without a rate.
unfoldable pub Balance : DnsSenderThread → Point → Type 0
Balance t ready = Unit
Balance t (slice n s) = attempts t + (n + 1 + s.rest) ≡ t.runtime * t.queryrate
Balance t (sending q n s) = attempts t + (n + 1 + s.rest) ≡ t.runtime * t.queryrate
Balance t (idle s) = attempts t + s.rest ≡ t.runtime * t.queryrate
Balance t (burst pc end) = t.queryrate ≡ 0
Balance t (bursting q pc end) = t.queryrate ≡ 0
Balance t (leaving rest) = 1 ≤ t.queryrate → attempts t + rest ≡ t.runtime * t.queryrate
Balance t (waiting rest end check) = 1 ≤ t.queryrate → attempts t + rest ≡ t.runtime * t.queryrate
Balance t (done rest) = 1 ≤ t.queryrate → attempts t + rest ≡ t.runtime * t.queryrate
Balance t (threw e) = ⊥

-- The turns that a rate-limited thread has left at most, but for those that only wait: two for each query,
-- one for each slice, and those around the loop.
unfoldable pub work : DnsSenderThread → Point → ℕ
work t ready = 2 * (t.runtime * t.queryrate) + total_timeslices t + 3
work t (slice n s) = 2 * (n + 1 + s.rest) + s.left + 3
work t (sending q n s) = 2 * (n + 1 + s.rest) + s.left + 2
work t (idle s) = 2 * s.rest + s.left + 3
work t (burst pc end) = 0
work t (bursting q pc end) = 0
work t (leaving rest) = 2
work t (waiting rest end check) = 1
work t (done rest) = 0
work t (threw e) = 0

pub in_slice-Balance :
    (t : DnsSenderThread) (n : ℕ) (s : Slice)
    → attempts t + (n + s.rest) ≡ t.runtime * t.queryrate
    → Balance t (in_slice n s)
unfolding in_slice Balance
in_slice-Balance t zero s e = omega (arith, e)
in_slice-Balance t (suc n) s e = omega (arith, e)

pub in_slice-work :
    (t : DnsSenderThread) (n : ℕ) (s : Slice)
    → work t (in_slice n s) ≡ 2 * (n + s.rest) + s.left + 3
unfolding in_slice work
in_slice-work t zero s = omega arith
in_slice-work t (suc n) s = omega arith

enter-Balance :
    (t : DnsSenderThread) (timeslice left rest next check end : ℕ)
    → attempts t + rest ≡ t.runtime * t.queryrate
    → Balance t (enter timeslice left rest next check end)
unfolding enter
enter-Balance t timeslice zero rest next check end e = unfold Balance in λ _. e
enter-Balance t timeslice (suc left) rest next check end e =
    in_slice-Balance t _ _ (omega (arith, e, queries_per_timeslice-le rest left))

enter-work :
    (t : DnsSenderThread) (timeslice left rest next check end : ℕ)
    → work t (enter timeslice left rest next check end) ≤ 2 * rest + left + 2
unfolding enter
enter-work t timeslice zero rest next check end = unfold work in omega arith
enter-work t timeslice (suc left) rest next check end = omega (
  arith,
  in_slice-work t (queries_per_timeslice rest (suc left)) _,
  queries_per_timeslice-le rest left,
)

-- A step of a thread that keeps its balance and takes from its work.
pub record Advances (t : DnsSenderThread) (x : Point) (w : ℕ) : Type 0 where
  pub balance : Balance t x
  pub less : 1 ≤ t.queryrate → work t x < w

enter-Advances :
    (t : DnsSenderThread) (timeslice left rest next check end w : ℕ)
    → attempts t + rest ≡ t.runtime * t.queryrate
    → 2 * rest + left + 2 < w
    → Advances t (enter timeslice left rest next check end) w
enter-Advances t timeslice left rest next check end w e h = record {
  balance = enter-Balance t timeslice left rest next check end e;
  less = λ _. omega (arith, enter-work t timeslice left rest next check end);
}

leaving-Advances :
    (t : DnsSenderThread) (rest w : ℕ)
    → (1 ≤ t.queryrate → attempts t + rest ≡ t.runtime * t.queryrate)
    → (1 ≤ t.queryrate → 2 < w)
    → Advances t (leaving rest) w
leaving-Advances t rest w e h = record { balance = unfold Balance in e; less = unfold work in h }

pub start-Advances :
    (r : Reading) (t : DnsSenderThread) → attempts t ≡ 0 → Advances t (start r t) (work t ready)
unfolding start
start-Advances r t zeroed = elim (Bool-cases (ltb 0 t.queryrate)) [
  | inl b ↦
      rw (b, start)
        (enter-Advances t _ _ _ _ _ _ _ (omega (arith, zeroed)) (unfold work in omega arith))
  | inr b ↦
      let none : t.queryrate ≡ 0 = ground arith in
      rw (b, start)
        (record {
          balance = unfold Balance in none;
          less = λ some. absurd (omega (arith, some, none));
        })
]

pub next_slice-Advances :
    (r : Reading) (t : DnsSenderThread) (s : Slice)
    → attempts t + s.rest ≡ t.runtime * t.queryrate
    → Advances t (next_slice r t s) (work t (idle s))
unfolding next_slice
next_slice-Advances r t s e =
    let goes : (check : ℕ)
        → Advances t (enter (nanoseconds t) s.left s.rest s.next_timeslice check s.end)
            (work t (idle s)) =
      λ check. enter-Advances t _ _ _ _ _ _ _ e (unfold work in omega arith) in
    elim (Bool-cases (ltb s.next_checktime r.now)) [
      | inl b ↦ elim (Bool-cases (r.should_stop || leb s.end r.microtime)) [
        | inl c ↦
            rw (b, c, next_slice)
              (leaving-Advances t s.rest _ (λ _. e) (λ _. unfold work in omega arith))
        | inr c ↦ rw (b, c, next_slice) (goes (r.now + 100000000))
      ]
      | inr b ↦ rw (b, next_slice) (goes s.next_checktime)
    ]

pub next_burst-Advances :
    (r : Reading) (t : DnsSenderThread) (pc end : ℕ)
    → t.queryrate ≡ 0
    → Advances t (next_burst r pc end) 0
unfolding next_burst
next_burst-Advances r t pc end none = record {
  balance = unfold Balance in ground (arith, none);
  less = λ some. absurd (omega (arith, some, none));
}
