-- ===== src/Senders/Hands.antt =====
-- src/dns_sender_thread.cpp: a thread between two calls of `sendPacket` has no query in its hands.
use dnsmeter.Base.{ℕ, zero, suc, ◌||◌, refl, arith, ltb, leb, Bool-cases, inl, inr}
use dnsmeter.DnsSenderThread.{DnsSenderThread}
use dnsmeter.Senders.{Slice, Reading, in_slice, enter, start, next_slice, next_burst}
use dnsmeter.Senders.Kept.{IsFree}

pub in_slice-IsFree : (n : ℕ) (s : Slice) → IsFree (in_slice n s)
unfolding in_slice
in_slice-IsFree zero s = (refl, λ t. refl)
in_slice-IsFree (suc n) s = (refl, λ t. refl)

enter-IsFree :
    (timeslice left rest next check end : ℕ) → IsFree (enter timeslice left rest next check end)
unfolding enter
enter-IsFree timeslice zero rest next check end = (refl, λ t. refl)
enter-IsFree timeslice (suc left) rest next check end = in_slice-IsFree _ _

pub start-IsFree : (r : Reading) (t : DnsSenderThread) → IsFree (start r t)
unfolding start
start-IsFree r t = elim (Bool-cases (ltb 0 t.queryrate)) [
  | inl b ↦ rw (b, start) (enter-IsFree _ _ _ _ _ _)
  | inr b ↦ rw (b, start) (refl, λ t. refl)
]

pub next_slice-IsFree : (r : Reading) (t : DnsSenderThread) (s : Slice) → IsFree (next_slice r t s)
unfolding next_slice
next_slice-IsFree r t s = elim (Bool-cases (ltb s.next_checktime r.now)) [
  | inl b ↦ elim (Bool-cases (r.should_stop || leb s.end r.microtime)) [
    | inl d ↦ rw (b, d, next_slice) (refl, λ t. refl)
    | inr d ↦ rw (b, d, next_slice) (enter-IsFree _ _ _ _ _ _)
  ]
  | inr b ↦ rw (b, next_slice) (enter-IsFree _ _ _ _ _ _)
]

pub next_burst-IsFree : (r : Reading) (pc end : ℕ) → IsFree (next_burst r pc end)
unfolding next_burst
next_burst-IsFree r pc end = (ground arith, λ t. ground arith)
