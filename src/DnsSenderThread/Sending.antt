-- ===== src/DnsSenderThread/Sending.antt =====
-- src/dns_sender_thread.cpp: `run` as a whole, with the packets that its loops send. Each call of
-- `sendPacket` has a list of attempts of its own.
use dnsmeter.Base.{
  ℕ, zero, suc, ◌+◌, ◌-◌, ◌*◌, ◌/◌, Bool, ◌||◌, List, [], ◌∷◌, Option, none, some, ltb, leb, ◌==◌,
  if◌then◌else◌,
}
use dnsmeter.Exceptions.{Result, ok, throw, null_pointer}
use dnsmeter.PayloadFile.{PayloadFile}
use dnsmeter.DnsSenderThread.{DnsSenderThread, Attempt, send_packet, start_run}
use dnsmeter.DnsSenderThread.Loops.{
  Moment, total_timeslices, queries_per_timeslice, idle, wait_for_timeout,
}

-- The thread, the payload file that it shares, and the attempts of the calls to come.
pub record Sending : Type 0 where
  pub thread : DnsSenderThread
  pub payload : PayloadFile
  pub calls : List (List Attempt)

abbrev pub Outcome : Type 0
Outcome = Option (Result (Unit {0}) × Sending)

-- What comes after a call: an exception leaves, and so does undefined behaviour.
abbrev pub after : Outcome → (Sending → Outcome) → Outcome
after none k = none
after (some (ok _, s)) k = k s
after (some (throw e, s)) k = some (throw e, s)

-- A call of `sendPacket`.
unfoldable pub send_one : Sending → Outcome
send_one s = elim s.calls [
  | [] ↦ none
  | attempts ∷ later ↦ elim (send_packet attempts s.thread s.payload) [
    | none ↦ none
    | some (r, t, f) ↦ some (r, record { thread = t; payload = f; calls = later })
  ]
]

-- The loop over the queries of a time slice.
unfoldable pub send_queries : ℕ → Sending → Outcome
send_queries zero s = some (ok tt, s)
send_queries (suc n) s = after (send_one s) (send_queries n)

module _ (timeslice end : ℕ) where
  -- The loop of `runWithRateLimit`, as `rate_limit_loop` of `Loops`.
  unfoldable pub send_rate_loop : ℕ → ℕ → ℕ → ℕ → List Moment → Sending → Outcome
  send_rate_loop zero rest next check ms s = some (ok tt, s)
  send_rate_loop (suc left) rest next check [] s = none
  send_rate_loop (suc left) rest next check (m ∷ ms) s =
      let n = queries_per_timeslice rest (suc left) in
      after (send_queries n s) λ s'. elim (idle m.readings (next + timeslice)) [
        | none ↦ none
        | some now ↦
            let checked =
              send_rate_loop left (rest - n) (next + timeslice) (now + 100000000) ms s' in
            let unchecked = send_rate_loop left (rest - n) (next + timeslice) check ms s' in
            if ltb check now
            then (if m.should_stop || leb end m.microtime then some (ok tt, s') else checked)
            else unchecked
      ]

-- `runWithRateLimit`, from the readings of `getNsec` and `GetMicrotime` at its start.
unfoldable pub send_with_rate_limit : ℕ → ℕ → List Moment → Sending → Outcome
send_with_rate_limit now start ms s =
    let sent =
      send_rate_loop (1000000 * s.thread.timeslice.num / s.thread.timeslice.den)
        (start + s.thread.runtime * 1000000000) (total_timeslices s.thread)
        (s.thread.runtime * s.thread.queryrate) now (now + 100000000) ms s in
    if total_timeslices s.thread == 0 then none else sent

-- The loop of `runWithoutRateLimit`, as `unlimited_loop` of `Loops`.
unfoldable pub send_unlimited_loop : ℕ → ℕ → ℕ → List Moment → Sending → Outcome
send_unlimited_loop zero end pc ms s = none
send_unlimited_loop (suc fuel) end pc [] s = after (send_one s) λ s'.
    let more = send_unlimited_loop fuel end (pc + 1) [] s' in
    if ltb 10000 (pc + 1) then none else more
send_unlimited_loop (suc fuel) end pc (m ∷ ms) s = after (send_one s) λ s'.
    let more = send_unlimited_loop fuel end (pc + 1) (m ∷ ms) s' in
    let again = send_unlimited_loop fuel end 0 ms s' in
    if ltb 10000 (pc + 1)
    then (if m.should_stop
        then some (ok tt, s')
        else if ltb end m.microtime
        then some (ok tt, s')
        else again)
    else more

-- What a run meets: the readings of the clocks at its start, the rounds of its loop, the reading at which the
-- wait begins, and the readings of the wait.
pub record Timing : Type 0 where
  pub now : ℕ
  pub start : ℕ
  pub moments : List Moment
  pub wait_start : ℕ
  pub waiting : List (ℕ × Bool)

-- `waitForTimeout`, which changes nothing.
unfoldable pub wait_after : Timing → Sending → Outcome
wait_after w s = elim (wait_for_timeout s.thread w.wait_start w.waiting) [
  | none ↦ none
  | some _ ↦ some (ok tt, s)
]

-- The branch of `run` on the rate, on fuel for the loop without a limit.
unfoldable pub send_all : ℕ → Timing → Sending → Outcome
send_all fuel w s =
    if ltb 0 s.thread.queryrate
    then send_with_rate_limit w.now w.start w.moments s
    else send_unlimited_loop fuel (w.start + s.thread.runtime * 1000000000) 0 w.moments s

-- `run`. `payload` is `none` where it has not been set.
unfoldable pub run_thread :
    ℕ
    → Timing
    → DnsSenderThread
    → Option PayloadFile
    → List (List Attempt)
    → Option (Result (Unit {0}) × DnsSenderThread)
run_thread fuel w t none calls = some (throw null_pointer, t)
run_thread fuel w t (some f) calls =
    elim (after (send_all fuel w (record { thread = start_run t; payload = f; calls = calls }))
      (wait_after w)) [ none ↦ none | some (r, s) ↦ some (r, s.thread) ]
