-- ===== src/DnsSenderThread/Run.antt =====
-- src/dns_sender_thread.cpp: how many packets a run sends.
use dnsmeter.Base.{
  ◌==◌, ℕ, zero, suc, ◌+◌, ◌-◌, ◌*◌, ◌/◌, ◌≡◌, inl, inr, refl, ap, subst, fun_ext, ◌∙◌, ◌||◌, List,
  [], ◌∷◌, Option, none, some, arith, sum, ltb, leb, Bool-cases, Option-cases,
}
use dnsmeter.Exceptions.{ok, throw}
use dnsmeter.DnsSenderThread.Loops.{
  Moment, total_timeslices, queries_per_timeslice, idle, prepend, rate_limit_loop,
  run_with_rate_limit, unlimited_loop,
}
use dnsmeter.DnsSenderThread.Sending.{
  Sending, Outcome, after, send_one, send_queries, send_rate_loop, send_with_rate_limit,
  send_unlimited_loop,
}

-- The slices one after the other.
abbrev pub send_slices : List ℕ → Sending → Outcome
send_slices [] s = some (ok tt, s)
send_slices (n ∷ ns) s = after (send_queries n s) (send_slices ns)

after-cong :
    (o : Outcome) (k l : Sending → Outcome) → ((s : Sending) → k s ≡ l s) → after o k ≡ after o l
after-cong o k l h = ap (after o) (fun_ext h)

after-after :
    (o : Outcome) (k l : Sending → Outcome) → after (after o k) l ≡ after o (λ s. after (k s) l)
after-after none k l = refl
after-after (some (ok _, s)) k l = refl
after-after (some (throw e, s)) k l = refl

after-done : (o : Outcome) → after o (λ s. some (ok tt, s)) ≡ o
after-done none = refl
after-done (some (ok _, s)) = refl
after-done (some (throw e, s)) = refl

-- The loop that counts and the one that sends agree: where the first ends, the second has sent its slices.
unfoldable pub Agree : Option (List ℕ) → (Sending → Outcome) → Type 0
Agree none k = Unit
Agree (some ns) k = (s : Sending) → k s ≡ send_slices ns s

prepend-Agree :
    (n : ℕ) (o : Option (List ℕ)) (k : Sending → Outcome)
    → Agree o k
    → Agree (prepend n o) (λ s. after (send_queries n s) k)
unfolding Agree
prepend-Agree n none k a = tt
prepend-Agree n (some ns) k a = λ s. after-cong (send_queries n s) k (send_slices ns) a

module _ (timeslice end : ℕ) where
  rate_limit_loop-Agree :
      (left rest next check : ℕ) (ms : List Moment)
      → Agree
          (rate_limit_loop timeslice end left rest next check ms)
          (λ s. send_rate_loop timeslice end left rest next check ms s)
  unfolding rate_limit_loop send_rate_loop
  rate_limit_loop-Agree zero rest next check ms = unfold Agree in λ s. refl
  rate_limit_loop-Agree (suc left) rest next check [] = unfold Agree in tt
  rate_limit_loop-Agree (suc left) rest next check (m ∷ ms) =
      let n = queries_per_timeslice rest (suc left) in
      elim (Option-cases (idle m.readings (next + timeslice))) [
        | inl e ↦ rw (e, rate_limit_loop) (unfold Agree in tt)
        | inr (now, e) ↦
            let checked =
              rate_limit_loop-Agree left (rest - n) (next + timeslice) (now + 100000000) ms in
            let unchecked = rate_limit_loop-Agree left (rest - n) (next + timeslice) check ms in
            rw (e, rate_limit_loop, send_rate_loop)
              (elim (Bool-cases (ltb check now)) [
                | inl h ↦ rw h (elim (Bool-cases (m.should_stop || leb end m.microtime)) [
                  | inl b ↦ rw b (unfold Agree in λ s. refl)
                  | inr b ↦ rw b (prepend-Agree n _ _ checked)
                ])
                | inr h ↦ rw h (prepend-Agree n _ _ unchecked)
              ])
      ]

-- The same of the loop without a limit, which counts from `sent` on.
unfoldable pub AgreeFrom : ℕ → Option ℕ → (Sending → Outcome) → Type 0
AgreeFrom sent none k = Unit
AgreeFrom sent (some r) k = (n : ℕ) × (r ≡ sent + n) × ((s : Sending) → k s ≡ send_queries n s)

send_one-AgreeFrom :
    (sent : ℕ) (o : Option ℕ) (k : Sending → Outcome)
    → AgreeFrom (sent + 1) o k
    → AgreeFrom sent o (λ s. after (send_one s) k)
unfolding AgreeFrom send_queries
send_one-AgreeFrom sent none k a = tt
send_one-AgreeFrom sent (some r) k (n, e, a) =
    (suc n, omega (arith, e), λ s. after-cong (send_one s) k (send_queries n) a)

last-AgreeFrom :
    (sent : ℕ) → AgreeFrom sent (some (sent + 1)) (λ s. after (send_one s) (λ s'. some (ok tt, s')))
unfolding AgreeFrom send_queries
last-AgreeFrom sent = (1, refl, λ s. refl)

unlimited_loop-AgreeFrom :
    (fuel end pc sent : ℕ) (ms : List Moment)
    → AgreeFrom sent
        (unlimited_loop fuel end pc sent ms)
        (λ s. send_unlimited_loop fuel end pc ms s)
unfolding unlimited_loop send_unlimited_loop
unlimited_loop-AgreeFrom zero end pc sent ms = unfold AgreeFrom in tt
unlimited_loop-AgreeFrom (suc fuel) end pc sent [] = elim (Bool-cases (ltb 10000 (pc + 1))) [
  | inl h ↦ rw h (unfold AgreeFrom in tt)
  | inr h ↦
      rw h (send_one-AgreeFrom sent _ _ (unlimited_loop-AgreeFrom fuel end (pc + 1) (sent + 1) []))
]
unlimited_loop-AgreeFrom (suc fuel) end pc sent (m ∷ ms) = elim (Bool-cases (ltb 10000 (pc + 1))) [
  | inl h ↦ rw h (elim (Bool-cases m.should_stop) [
    | inl b ↦ rw b (last-AgreeFrom sent)
    | inr b ↦ rw b (elim (Bool-cases (ltb end m.microtime)) [
      | inl l ↦ rw l (last-AgreeFrom sent)
      | inr l ↦
          rw l (send_one-AgreeFrom sent _ _ (unlimited_loop-AgreeFrom fuel end 0 (sent + 1) ms))
    ])
  ])
  | inr h ↦
      rw h (
        send_one-AgreeFrom sent _ _
          (unlimited_loop-AgreeFrom fuel end (pc + 1) (sent + 1) (m ∷ ms)))
]

send_queries-add :
    (a b : ℕ) (s : Sending) → after (send_queries a s) (send_queries b) ≡ send_queries (a + b) s
unfolding send_queries
send_queries-add zero b s = let e : b ≡ 0 + b = omega arith in ap (λ n. send_queries n s) e
send_queries-add (suc a) b s =
    after-after (send_one s) (send_queries a) (send_queries b)
    ∙ after-cong (send_one s) (λ t. after (send_queries a t) (send_queries b))
        (send_queries (a + b)) (send_queries-add a b)
    ∙ (let e : suc (a + b) ≡ suc a + b = omega arith in ap (λ n. send_queries n s) e)

-- Slices send as one loop does over all their queries.
pub send_slices-sum : (ns : List ℕ) (s : Sending) → send_slices ns s ≡ send_queries (sum ns) s
send_slices-sum [] s = unfold send_queries in refl
send_slices-sum (n ∷ ns) s =
    after-cong (send_queries n s) (send_slices ns) (send_queries (sum ns)) (send_slices-sum ns)
    ∙ send_queries-add n (sum ns) s

agreed :
    (o : Option (List ℕ)) (k : Sending → Outcome) (ns : List ℕ)
    → Agree o k
    → o ≡ some ns
    → (s : Sending) → k s ≡ send_slices ns s
unfolding Agree
agreed o k ns a e = subst (λ (p : Option (List ℕ)). Agree p k) e a

agreed_from :
    (o : Option ℕ) (k : Sending → Outcome) (n : ℕ)
    → AgreeFrom 0 o k
    → o ≡ some n
    → (s : Sending) → k s ≡ send_queries n s
unfolding AgreeFrom
agreed_from o k n a e s =
    let (m, same, f) = subst (λ (p : Option ℕ). AgreeFrom 0 p k) e a in
    let total : m ≡ n = omega (arith, same) in f s ∙ ap (λ i. send_queries i s) total

-- Where `runWithRateLimit` ends with a number of queries for each slice, it has called `sendPacket` for each of them in
-- turn, up to the first exception.
pub send_with_rate_limit-send_queries :
    (now start : ℕ) (ms : List Moment) (s : Sending) (ns : List ℕ)
    → run_with_rate_limit s.thread now start ms ≡ some ns
    → send_with_rate_limit now start ms s ≡ send_queries (sum ns) s
unfolding run_with_rate_limit send_with_rate_limit
send_with_rate_limit-send_queries now start ms s ns e =
    elim (Bool-cases (total_timeslices s.thread == 0)) [
      | inl empty ↦ absurd (cc (rw empty at e))
      | inr some_slice ↦ rw some_slice (
          agreed _ _ ns
            (rate_limit_loop-Agree (1000000 * s.thread.timeslice.num / s.thread.timeslice.den)
              (start + s.thread.runtime * 1000000000) (total_timeslices s.thread)
              (s.thread.runtime * s.thread.queryrate) now (now + 100000000) ms)
            (rw some_slice at e) s
          ∙ send_slices-sum ns s)
    ]

-- The same of `runWithoutRateLimit`.
pub send_unlimited_loop-send_queries :
    (fuel end : ℕ) (ms : List Moment) (n : ℕ) (s : Sending)
    → unlimited_loop fuel end 0 0 ms ≡ some n
    → send_unlimited_loop fuel end 0 ms s ≡ send_queries n s
send_unlimited_loop-send_queries fuel end ms n s e =
    agreed_from _ _ n (unlimited_loop-AgreeFrom fuel end 0 0 ms) e s
