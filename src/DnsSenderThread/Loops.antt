-- ===== src/DnsSenderThread/Loops.antt =====
-- src/dns_sender_thread.cpp: the loops `runWithRateLimit`, `runWithoutRateLimit` and `waitForTimeout`. Times
-- are whole nanoseconds. The readings of the clocks and the requests to stop come from outside, as lists;
-- `none` means that a list has ended before the loop has.
use dnsmeter.Base.{
  double, ℕ, zero, suc, ◌+◌, ◌-◌, ◌*◌, ◌/◌, Bool, true, false, ◌||◌, List, [], ◌∷◌, Option, none,
  some, ltb, leb, ◌==◌, if◌then◌else◌,
}
use mathlib.Core.Option
use dnsmeter.DnsSenderThread.{DnsSenderThread}

-- What a round of a loop sees: the readings of `getNsec` while it waits, `threadShouldStop`, and
-- `GetMicrotime`.
pub record Moment : Type 0 where
  pub readings : List ℕ
  pub should_stop : Bool
  pub microtime : ℕ

-- `runtime * 1000 / (Timeslice * 1000.0)`, on values of the type `double`. `Timeslice` is the fraction of milliseconds
-- over 1000.
unfoldable pub total_timeslices : DnsSenderThread → ℕ
total_timeslices t =
    let (seconds, seconds_den) = double t.timeslice.num (t.timeslice.den * 1000) in
    let (ms, ms_den) = double (seconds * 1000) seconds_den in
    let (slices, slices_den) = double (t.runtime * 1000 * ms_den) ms in slices / slices_den

-- The queries of the time slice `z`, where `left` slices are left and `rest` queries.
unfoldable pub queries_per_timeslice : ℕ → ℕ → ℕ
queries_per_timeslice rest left = if left == 1 then rest else rest / left

-- The loop that sleeps until the slice is over: the first reading that is not before `until`.
unfoldable pub idle : List ℕ → ℕ → Option ℕ
idle [] until = none
idle (now ∷ later) until =
    let waited = idle later until in if ltb now until then waited else some now

abbrev pub prepend : ℕ → Option (List ℕ) → Option (List ℕ)
prepend n ns = Option.map (λ (l : List ℕ). n ∷ l) ns

module _ (timeslice end : ℕ) where
  -- The `for` loop with `left` slices to go. The result is how many queries each slice has sent.
  unfoldable pub rate_limit_loop : ℕ → ℕ → ℕ → ℕ → List Moment → Option (List ℕ)
  rate_limit_loop zero rest next check ms = some []
  rate_limit_loop (suc left) rest next check [] = none
  rate_limit_loop (suc left) rest next check (m ∷ ms) =
      let n = queries_per_timeslice rest (suc left) in
      elim (idle m.readings (next + timeslice)) [
        | none ↦ none
        | some now ↦
            let checked = rate_limit_loop left (rest - n) (next + timeslice) (now + 100000000) ms in
            let unchecked = rate_limit_loop left (rest - n) (next + timeslice) check ms in
            if ltb check now
            then (if m.should_stop || leb end m.microtime then some (n ∷ []) else prepend n checked)
            else prepend n unchecked
      ]

-- `runWithRateLimit`, from the readings of `getNsec` and `GetMicrotime` at its start. A time slice is the
-- fraction of a millisecond in nanoseconds. Without a slice the line that `printf` shows divides by 0, which is
-- undefined behaviour.
unfoldable pub run_with_rate_limit : DnsSenderThread → ℕ → ℕ → List Moment → Option (List ℕ)
run_with_rate_limit t now start ms =
    let sent =
      rate_limit_loop (1000000 * t.timeslice.num / t.timeslice.den) (start + t.runtime * 1000000000)
        (total_timeslices t) (t.runtime * t.queryrate) now (now + 100000000) ms in
    if total_timeslices t == 0 then none else sent

-- `runWithoutRateLimit` on fuel, a unit for each packet: the packets sent. The clock and the request to stop
-- are looked at after 10001 packets.
unfoldable pub unlimited_loop : ℕ → ℕ → ℕ → ℕ → List Moment → Option ℕ
unlimited_loop zero end pc sent ms = none
unlimited_loop (suc fuel) end pc sent [] =
    let more = unlimited_loop fuel end (pc + 1) (sent + 1) [] in
    if ltb 10000 (pc + 1) then none else more
unlimited_loop (suc fuel) end pc sent (m ∷ ms) =
    let more = unlimited_loop fuel end (pc + 1) (sent + 1) (m ∷ ms) in
    let again = unlimited_loop fuel end 0 (sent + 1) ms in
    if ltb 10000 (pc + 1)
    then (if m.should_stop
        then some (sent + 1)
        else if ltb end m.microtime
        then some (sent + 1)
        else again)
    else more

-- `waitForTimeout`: the reading of the clock at which it returns, and whether it was told to stop.
unfoldable pub wait_loop : ℕ → ℕ → List (ℕ × Bool) → Option (ℕ × Bool)
wait_loop end check [] = none
wait_loop end check ((now, stop) ∷ later) =
    let checked = wait_loop end (now + 100000000) later in
    let unchecked = wait_loop end check later in
    if ltb now end
    then (if ltb check now then (if stop then some (now, true) else checked) else unchecked)
    else some (now, false)

unfoldable pub wait_for_timeout : DnsSenderThread → ℕ → List (ℕ × Bool) → Option (ℕ × Bool)
unfolding wait_loop
wait_for_timeout t start later =
    wait_loop (start + t.timeout * 1000000000) (start + 100000000) later
