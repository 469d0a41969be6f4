-- ===== src/Senders/Steps.antt =====
-- src/dns_sender_thread.cpp: a turn of a thread at each of its points.
use dnsmeter.Base.{
  ℕ, ◌+◌, ◌*◌, ◌≡◌, ◌∙◌, refl, sym, some, arith, ltb, if◌then◌else◌, All, Bool-cases, inl, inr,
}
use dnsmeter.Pplib.{ByteArray}
use dnsmeter.PayloadFile.{PayloadFile}
use dnsmeter.DnsSenderThread.{DnsSenderThread, start_run}
use dnsmeter.DnsSenderThread.Counters.{attempts}
use dnsmeter.DnsSenderThread.Loops.{total_timeslices}
use dnsmeter.DnsSenderThread.Ready.{IsLoadable}
use dnsmeter.DnsSenderThread.Whole.{IsPayload}
use dnsmeter.Senders.{
  Slice, Point, ready, slice, sending, idle, burst, bursting, leaving, waiting, done, threw,
  Reading, Proc, at, waited, went, Move, in_slice, start, next_slice, next_burst, wait, take_query,
  send_taken, turn,
}
use dnsmeter.Senders.Kept.{
  in_hand, Balance, work, in_slice-Balance, in_slice-work, start-Advances, next_slice-Advances,
  next_burst-Advances,
}
use dnsmeter.Senders.Hands.{in_slice-IsFree, start-IsFree, next_slice-IsFree, next_burst-IsFree}
use dnsmeter.Senders.Wire.{Common, Fit, start_run-Fit}
use dnsmeter.Senders.Turns.{Sound, Goes, alone, take_query-Goes, send_taken-Goes}

start_run-work : (t : DnsSenderThread) → work (start_run t) ready ≡ work t ready
unfolding work start_run total_timeslices
start_run-work t = refl

share :
    (c : Common) (u t : DnsSenderThread)
    → Fit c u t
    → t.runtime * t.queryrate ≡ u.runtime * u.queryrate
share c u t fit = rw (fit.runtime, fit.queryrate) refl

module _ (c : Common) (k : ℕ) (f : PayloadFile) (u : DnsSenderThread) (file : IsPayload c.pcap k f)
    (r : Reading) (t : DnsSenderThread) where
  start-Goes :
      Fit c u t → let v = start_run t in Goes c k f u (at t ready) (went, f, at v (start r v))
  start-Goes fit =
      let (fit', zeroed) = start_run-Fit c u t fit in
      let advances = start-Advances r (start_run t) zeroed in
      alone c k f u file t (start_run t) ready (start r (start_run t)) went refl refl tt refl
        (start-IsFree r (start_run t)) zeroed fit' advances.balance
        (λ rate.
          omega (arith, advances.less (omega (arith, rate, fit'.queryrate)), start_run-work t))

  idle-Goes :
      (s : Slice)
      → Fit c u t
      → Balance t (idle s)
      → Goes c k f u (at t (idle s)) (
          if ltb r.now s.next_timeslice
          then (waited, f, at t (idle s))
          else (went, f, at t (next_slice r t s)))
  idle-Goes s fit balance = elim (Bool-cases (ltb r.now s.next_timeslice)) [
    | inl b ↦ rw b (
        alone c k f u file t t (idle s) (idle s) waited refl refl tt refl (refl, λ _. refl) refl fit
          balance (λ _. omega arith))
    | inr b ↦
        let advances = next_slice-Advances r t s (unfold Balance in balance) in
        rw b (
          alone c k f u file t t (idle s) (next_slice r t s) went refl refl tt refl
            (next_slice-IsFree r t s) refl fit advances.balance
            (λ rate. omega (arith, advances.less (omega (arith, rate, fit.queryrate)))))
  ]

  wait-Goes :
      (rest end check : ℕ)
      → Fit c u t
      → Balance t (waiting rest end check)
      → let (e, p) = wait r t rest end check in
        Goes c k f u (at t (waiting rest end check)) (e, f, p)
  unfolding wait
  wait-Goes rest end check fit balance =
      let waits : (check' : ℕ)
          → Goes c k f u (at t (waiting rest end check))
              (waited, f, at t (waiting rest end check')) =
        λ check'.
          alone c k f u file t t (waiting rest end check) (waiting rest end check') waited refl refl
            tt refl (refl, λ _. refl) refl fit (unfold Balance in balance)
            (λ _. unfold work in omega arith) in
      let ends : Goes c k f u (at t (waiting rest end check)) (went, f, at t (done rest)) =
        alone c k f u file t t (waiting rest end check) (done rest) went refl refl tt refl
          (refl, λ _. refl) refl fit (unfold Balance in balance)
          (λ _. unfold work in omega arith) in
      elim (Bool-cases (ltb r.microtime end)) [
        | inl b ↦ elim (Bool-cases (ltb check r.microtime)) [
          | inl d ↦ elim (Bool-cases r.should_stop) [
            | inl stop ↦ rw (b, d, stop, wait) ends
            | inr on ↦ rw (b, d, on, wait) (waits (r.microtime + 100000000))
          ]
          | inr d ↦ rw (b, d, wait) (waits check)
        ]
        | inr b ↦ rw (b, wait) ends
      ]

  leaving-Goes :
      (rest : ℕ)
      → Fit c u t
      → Balance t (leaving rest)
      → (end check : ℕ)
      → Goes c k f u (at t (leaving rest)) (went, f, at t (waiting rest end check))
  leaving-Goes rest fit balance end check =
      alone c k f u file t t (leaving rest) (waiting rest end check) went refl refl tt refl
        (refl, λ _. refl) refl fit (unfold Balance in balance) (λ _. unfold work in omega arith)

  take-Goes :
      (n : ℕ) (s : Slice)
      → Fit c u t
      → Balance t (slice n s)
      → (m : Move) × (take_query f t (λ q. sending q n s) ≡ some m)
        × Goes c k f u (at t (slice n s)) m
  take-Goes n s fit balance =
      take_query-Goes c k f u file t (slice n s) (λ q. sending q n s) fit refl (λ q. refl)
        (λ q. refl) (λ q. unfold Balance in balance) (λ q _. unfold work in omega arith)

  send-Goes :
      (q : ByteArray) (n : ℕ) (s : Slice)
      → Fit c u t
      → Balance t (sending q n s)
      → IsLoadable c.pcap q
      → Goes c k f u (at t (sending q n s)) (send_taken r f t q (slice n s) (in_slice n s))
  send-Goes q n s fit balance l =
      let owed : attempts t + (n + 1 + s.rest) ≡ t.runtime * t.queryrate =
        unfold Balance in balance in
      let before : work t (sending q n s) ≡ 2 * (n + 1 + s.rest) + s.left + 2 =
        unfold work in refl in
      send_taken-Goes c k f u file r t (sending q n s) q (slice n s) (in_slice n s) fit refl l refl
        (in_slice-IsFree n s)
        (λ v fit' once.
          in_slice-Balance v n s (omega (arith, owed, once, share c u t fit, share c u v fit')))
        (λ v _. omega (arith, in_slice-work v n s, before))

  burst-Goes :
      (pc end : ℕ)
      → Fit c u t
      → Balance t (burst pc end)
      → (m : Move) × (take_query f t (λ q. bursting q pc end) ≡ some m)
        × Goes c k f u (at t (burst pc end)) m
  burst-Goes pc end fit balance =
      let none : t.queryrate ≡ 0 = unfold Balance in balance in
      take_query-Goes c k f u file t (burst pc end) (λ q. bursting q pc end) fit refl (λ q. refl)
        (λ q. refl) (λ q. unfold Balance in balance)
        (λ q rate. absurd (omega (arith, rate, none, fit.queryrate)))

  bursting-Goes :
      (q : ByteArray) (pc end : ℕ)
      → Fit c u t
      → Balance t (bursting q pc end)
      → IsLoadable c.pcap q
      → Goes c k f u
          (at t (bursting q pc end))
          (send_taken r f t q (burst pc end) (next_burst r pc end))
  bursting-Goes q pc end fit balance l =
      let none : t.queryrate ≡ 0 = unfold Balance in balance in
      send_taken-Goes c k f u file r t (bursting q pc end) q (burst pc end) (next_burst r pc end)
        fit refl l refl (next_burst-IsFree r pc end)
        (λ v fit' _.
          (next_burst-Advances r v pc end (fit'.queryrate ∙ sym fit.queryrate ∙ none)).balance)
        (λ v rate. absurd (omega (arith, rate, none, fit.queryrate)))

-- A turn of a thread that has kept to its rate does what it should, and leaves it so.
pub turn-Goes :
    (c : Common) (k : ℕ) (f : PayloadFile) (u : DnsSenderThread) (r : Reading) (p : Proc)
    → IsPayload c.pcap k f
    → Sound c u p
    → (m : Move) × (turn r f p.thread p.point ≡ some m) × Goes c k f u p m
unfolding turn
turn-Goes c k f u r p file sound = at_point p.point sound.fit sound.balance sound.loadable
  where
    at_point :
        (x : Point)
        → Fit c u p.thread
        → Balance p.thread x
        → All (IsLoadable c.pcap) (in_hand x)
        → (m : Move) × (turn r f p.thread x ≡ some m) × Goes c k f u (at p.thread x) m
    at_point ready fit b l = (_, refl, start-Goes c k f u file r p.thread fit)
    at_point (slice n s) fit b l = take-Goes c k f u file r p.thread n s fit b
    at_point (sending q n s) fit b (l, _) =
        (_, refl, send-Goes c k f u file r p.thread q n s fit b l)
    at_point (idle s) fit b l = (_, refl, idle-Goes c k f u file r p.thread s fit b)
    at_point (burst pc end) fit b l = burst-Goes c k f u file r p.thread pc end fit b
    at_point (bursting q pc end) fit b (l, _) =
        (_, refl, bursting-Goes c k f u file r p.thread q pc end fit b l)
    at_point (leaving rest) fit b l = (_, refl, leaving-Goes c k f u file r p.thread rest fit b _ _)
    at_point (waiting rest end check) fit b l =
        (_, refl, wait-Goes c k f u file r p.thread rest end check fit b)
    at_point (done rest) fit b l = (
      _,
      refl,
      alone c k f u file p.thread p.thread (done rest) (done rest) waited refl refl tt refl
          (refl, λ _. refl) refl fit b (λ _. omega arith),
    )
    at_point (threw e) fit b l = absurd (unfold Balance in b)
