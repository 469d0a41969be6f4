-- ===== src/DnsSenderThread/Pace.antt =====
-- src/dns_sender_thread.cpp: what the loop of `runWithRateLimit` sends, and when it ends.
use dnsmeter.Base.{
  ◌==◌, ℕ, zero, suc, ◌+◌, ◌-◌, ◌*◌, ◌/◌, ◌≤◌, ◌<◌, ◌≡◌, ◌⊎◌, inl, inr, refl, ap, subst, false,
  ◌||◌, List, [], ◌∷◌, ◌++◌, Option, none, some, arith, length, sum, sum-append, All, ltb, leb,
  if◌then◌else◌, Bool-cases, Option-cases,
}
use dnsmeter.DnsSenderThread.{DnsSenderThread}
use dnsmeter.DnsSenderThread.Loops.{
  Moment, total_timeslices, queries_per_timeslice, idle, prepend, rate_limit_loop,
  run_with_rate_limit,
}
use dnsmeter.DnsSenderThread.Schedule.{schedule, sum-schedule, schedule-spread}

-- One of the readings is not before `until`.
unfoldable pub Reaches : ℕ → List ℕ → Type 0
Reaches until [] = ⊥
Reaches until (now ∷ later) = (until ≤ now) ⊎ Reaches until later

idle-Reaches :
    (until : ℕ) (readings : List ℕ)
    → Reaches until readings
    → (now : ℕ) × (idle readings until ≡ some now)
unfolding idle Reaches
idle-Reaches until [] h = elim h [ ]
idle-Reaches until (now ∷ later) (inl h) = (now, ground (arith, h))
idle-Reaches until (now ∷ later) (inr h) =
    let (x, e) = idle-Reaches until later h in
    elim (Bool-cases (ltb now until)) [ inl b ↦ (x, rw b e) | inr b ↦ (now, rw b refl) ]

-- What a loop has sent when it ends is a part of `ns` from its start.
unfoldable pub IsStart : List ℕ → Option (List ℕ) → Type 0
IsStart ns none = Unit
IsStart ns (some sent) = (later : List ℕ) × (ns ≡ sent ++ later)

module _ (timeslice end : ℕ) where
  -- Rounds for `left` slices: in each the clock passes the end of the slice, and in each but the last nobody
  -- asks to stop and the time of the run is not over.
  unfoldable pub Calm : ℕ → ℕ → List Moment → Type 0
  Calm zero next ms = Unit
  Calm (suc left) next [] = ⊥
  Calm (suc left) next (m ∷ ms) =
      Reaches (next + timeslice) m.readings
      × ((left ≡ 0) ⊎ ((m.should_stop ≡ false) × (m.microtime < end)))
      × Calm left (next + timeslice) ms

  -- A request to stop after the last slice changes nothing.
  stopped :
      (left n : ℕ) (m : Moment) (ns : List ℕ) {o : Option (List ℕ)}
      → (left ≡ 0) ⊎ ((m.should_stop ≡ false) × (m.microtime < end))
      → (left ≡ 0 → ns ≡ [])
      → o ≡ some ns
      → (if m.should_stop || leb end m.microtime then some (n ∷ []) else prepend n o)
        ≡ some (n ∷ ns)
  stopped left n m ns (inl z) empty e =
      rw (e, empty z)
        (elim (Bool-cases (m.should_stop || leb end m.microtime)) [
          | inl b ↦ rw b refl
          | inr b ↦ rw b refl
        ])
  stopped left n m ns (inr (s, b)) empty e =
      let l : leb end m.microtime ≡ false = ground (arith, b) in rw (e, s, l) refl

  rate_limit_loop-schedule :
      (left rest next check : ℕ) (ms : List Moment)
      → Calm left next ms
      → rate_limit_loop timeslice end left rest next check ms ≡ some (schedule left rest)
  unfolding rate_limit_loop Calm
  rate_limit_loop-schedule zero rest next check ms c = refl
  rate_limit_loop-schedule (suc left) rest next check [] c = elim c [ ]
  rate_limit_loop-schedule (suc left) rest next check (m ∷ ms) (r, last, c) =
      let n = queries_per_timeslice rest (suc left) in
      let (now, e) = idle-Reaches (next + timeslice) m.readings r in
      let checked =
        rate_limit_loop-schedule left (rest - n) (next + timeslice) (now + 100000000) ms c in
      let unchecked = rate_limit_loop-schedule left (rest - n) (next + timeslice) check ms c in
      rw (e, rate_limit_loop)
        (elim (Bool-cases (ltb check now)) [
          | inl h ↦ rw h (
              stopped left n m (schedule left (rest - n)) last (ap (λ k. schedule k (rest - n)))
                checked)
          | inr h ↦ rw h (ap (prepend n) unchecked)
        ])

  prepend-IsStart :
      (n : ℕ) (ns : List ℕ) (o : Option (List ℕ)) → IsStart ns o → IsStart (n ∷ ns) (prepend n o)
  unfolding IsStart
  prepend-IsStart n ns none s = tt
  prepend-IsStart n ns (some ms) (later, e) = (later, ap (λ (l : List ℕ). n ∷ l) e)

  rate_limit_loop-IsStart :
      (left rest next check : ℕ) (ms : List Moment)
      → IsStart (schedule left rest) (rate_limit_loop timeslice end left rest next check ms)
  unfolding rate_limit_loop
  rate_limit_loop-IsStart zero rest next check ms = unfold IsStart in ([], refl)
  rate_limit_loop-IsStart (suc left) rest next check [] = unfold IsStart in tt
  rate_limit_loop-IsStart (suc left) rest next check (m ∷ ms) =
      let n = queries_per_timeslice rest (suc left) in
      let ns = schedule left (rest - n) in
      elim (Option-cases (idle m.readings (next + timeslice))) [
        | inl e ↦ rw (e, rate_limit_loop) (unfold IsStart in tt)
        | inr (now, e) ↦
            let checked =
              rate_limit_loop-IsStart left (rest - n) (next + timeslice) (now + 100000000) ms in
            let unchecked = rate_limit_loop-IsStart left (rest - n) (next + timeslice) check ms in
            rw (e, rate_limit_loop)
              (elim (Bool-cases (ltb check now)) [
                | inl h ↦ rw h (elim (Bool-cases (m.should_stop || leb end m.microtime)) [
                  | inl b ↦ rw b (unfold IsStart in (ns, refl))
                  | inr b ↦ rw b (prepend-IsStart n ns _ checked)
                ])
                | inr h ↦ rw h (prepend-IsStart n ns _ unchecked)
              ])
      ]

-- The duration of a time slice in nanoseconds, and the end of the run in microseconds.
abbrev pub slice_of : DnsSenderThread → ℕ
slice_of t = 1000000 * t.timeslice.num / t.timeslice.den

length-schedule : (left rest : ℕ) → length (schedule left rest) ≡ left
length-schedule zero rest = refl
length-schedule (suc left) rest =
    omega (arith, length-schedule left (rest - queries_per_timeslice rest (suc left)))

sum-schedule-le : (left rest : ℕ) → sum (schedule left rest) ≤ rest
sum-schedule-le zero rest = omega arith
sum-schedule-le (suc left) rest = omega (arith, sum-schedule left rest)

-- The list spreads `total` over `n` slices: each sends the average, rounded down or up.
pub record IsEven (n total : ℕ) (ns : List ℕ) : Type 0 where
  pub slices : length ns ≡ n
  pub all_sent : sum ns ≡ total
  pub averages : All (λ k. (total / n ≤ k) × (k ≤ total / n + 1)) ns

schedule-IsEven : (n total : ℕ) → 1 ≤ n → IsEven n total (schedule n total)
schedule-IsEven zero total h = absurd (omega arith)
schedule-IsEven (suc n) total h = record {
  slices = length-schedule (suc n) total;
  all_sent = sum-schedule n total;
  averages = schedule-spread n total;
}

-- Where the clock passes the end of every slice, and nobody asks to stop and the time is not over before the
-- last one, `runWithRateLimit` ends and has sent the rate times the runtime, spread evenly over its
-- slices. At least one slice has to fit the runtime.
pub run_with_rate_limit-IsEven :
    (t : DnsSenderThread) (now start : ℕ) (ms : List Moment)
    → 1 ≤ total_timeslices t
    → Calm (slice_of t) (start + t.runtime * 1000000000) (total_timeslices t) now ms
    → (ns : List ℕ) × (run_with_rate_limit t now start ms ≡ some ns)
      × IsEven (total_timeslices t) (t.runtime * t.queryrate) ns
unfolding run_with_rate_limit
run_with_rate_limit-IsEven t now start ms one c =
    let n = total_timeslices t in
    let rest = t.runtime * t.queryrate in
    let some_slice : (total_timeslices t == 0) ≡ false = ground (arith, one) in
    (
      schedule n rest,
      rw some_slice (
          rate_limit_loop-schedule (slice_of t) (start + t.runtime * 1000000000) n rest now
            (now + 100000000) ms c),
      schedule-IsEven n rest one,
    )

IsStart-le : (ns sent : List ℕ) → IsStart ns (some sent) → sum sent ≤ sum ns
unfolding IsStart
IsStart-le ns sent (later, e) = omega (arith, ap sum e, sum-append sent later)

-- Whatever the clock and the requests to stop are, `runWithRateLimit` never sends more than the rate times the
-- runtime.
pub run_with_rate_limit-le :
    (t : DnsSenderThread) (now start : ℕ) (ms : List Moment) (ns : List ℕ)
    → run_with_rate_limit t now start ms ≡ some ns
    → sum ns ≤ t.runtime * t.queryrate
unfolding run_with_rate_limit
run_with_rate_limit-le t now start ms ns e = elim (Bool-cases (total_timeslices t == 0)) [
  | inl empty ↦ absurd (cc (rw empty at e))
  | inr some_slice ↦
      let n = total_timeslices t in
      let rest = t.runtime * t.queryrate in
      let s =
        rate_limit_loop-IsStart (slice_of t) (start + t.runtime * 1000000000) n rest now
          (now + 100000000) ms in
      omega (
        arith,
        IsStart-le (schedule n rest) ns (subst (IsStart (schedule n rest)) (rw some_slice at e) s),
        sum-schedule-le n rest,
      )
]
