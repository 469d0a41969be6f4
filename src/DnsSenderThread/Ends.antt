-- ===== src/DnsSenderThread/Ends.antt =====
-- src/dns_sender_thread.cpp: when the loops of `runWithoutRateLimit` and `waitForTimeout` end.
use dnsmeter.Base.{
  ℕ, zero, suc, ◌+◌, ◌-◌, ◌*◌, ◌≤◌, ◌<◌, ◌≡◌, ◌⊎◌, inl, inr, refl, ap, ◌∙◌, map, Bool, true, false,
  List, [], ◌∷◌, ◌++◌, Option, none, some, arith, length, All, ltb, Bool-cases,
}
use dnsmeter.DnsSenderThread.{DnsSenderThread}
use dnsmeter.DnsSenderThread.Loops.{Moment, unlimited_loop, wait_loop, wait_for_timeout}
use dnsmeter.DnsSenderThread.Pace.{Reaches}

-- The wait is over: it was told to stop, or the time has come.
unfoldable pub IsOver : ℕ → Option (ℕ × Bool) → Type 0
IsOver end none = ⊥
IsOver end (some (now, stop)) = (stop ≡ true) ⊎ (end ≤ now)

wait_loop-IsOver :
    (end check : ℕ) (later : List (ℕ × Bool))
    → Reaches end (map (λ (l : ℕ × Bool). l.0) later)
    → IsOver end (wait_loop end check later)
unfolding wait_loop Reaches IsOver
wait_loop-IsOver end check [] h = elim h [ ]
wait_loop-IsOver end check ((now, stop) ∷ later) h = elim (Bool-cases (ltb now end)) [
  | inl early ↦
      let rest : Reaches end (map (λ (l : ℕ × Bool). l.0) later) = elim h [
        | inl l ↦ absurd (ground arith)
        | inr r ↦ r
      ] in
      rw early (elim (Bool-cases (ltb check now)) [
        | inl c ↦ rw c (elim (Bool-cases stop) [
          | inl s ↦ rw s (inl refl)
          | inr s ↦ rw s (wait_loop-IsOver end (now + 100000000) later rest)
        ])
        | inr c ↦ rw c (wait_loop-IsOver end check later rest)
      ])
  | inr late ↦ rw late (inr (ground arith))
]

-- `waitForTimeout` returns, if only the clock reaches the end of the timeout, and before the end only
-- when it was told to stop.
pub wait_for_timeout-IsOver :
    (t : DnsSenderThread) (start : ℕ) (later : List (ℕ × Bool))
    → Reaches (start + t.timeout * 1000000000) (map (λ (l : ℕ × Bool). l.0) later)
    → IsOver (start + t.timeout * 1000000000) (wait_for_timeout t start later)
unfolding wait_for_timeout
wait_for_timeout-IsOver t start later =
    wait_loop-IsOver (start + t.timeout * 1000000000) (start + 100000000) later

-- A round that does not end the loop.
abbrev pub Busy : ℕ → Moment → Type 0
Busy end m = (m.should_stop ≡ false) × (m.microtime ≤ end)

-- A round that ends it.
abbrev pub Final : ℕ → Moment → Type 0
Final end m = (m.should_stop ≡ true) ⊎ (end < m.microtime)

unlimited_loop-packets :
    (fuel end pc sent : ℕ) (ms : List Moment) (m : Moment)
    → All (Busy end) ms
    → Final end m
    → pc ≤ 10000
    → 10001 * (length ms + 1) ≤ fuel + pc
    → unlimited_loop fuel end pc sent (ms ++ m ∷ []) ≡ some (sent + 10001 * (length ms + 1) - pc)
unfolding unlimited_loop
unlimited_loop-packets zero end pc sent ms m busy final low enough = absurd (ground arith)
unlimited_loop-packets (suc fuel) end pc sent [] m busy final low enough =
    ground (arith, unlimited_loop-packets fuel end (pc + 1) (sent + 1) [] m busy final)
unlimited_loop-packets (suc fuel) end pc sent (n ∷ ms) m (b, busy) final low enough = ground (
  arith,
  unlimited_loop-packets fuel end (pc + 1) (sent + 1) (n ∷ ms) m (b, busy) final,
  unlimited_loop-packets fuel end 0 (sent + 1) ms m busy final,
)

-- `runWithoutRateLimit` ends in the first round in which it is asked to stop or finds the time over, having sent
-- 10001 packets for each round until then. Fuel for these packets is enough.
pub unlimited_loop-rounds :
    (fuel end : ℕ) (ms : List Moment) (m : Moment)
    → All (Busy end) ms
    → Final end m
    → 10001 * (length ms + 1) ≤ fuel
    → unlimited_loop fuel end 0 0 (ms ++ m ∷ []) ≡ some (10001 * (length ms + 1))
unlimited_loop-rounds fuel end ms m busy final enough =
    unlimited_loop-packets fuel end 0 0 ms m busy final (omega arith) (omega arith)
    ∙ ap some (omega arith)
