-- ===== src/Senders.antt =====
-- src/dns_sender_thread.cpp: the threads of a session that run at the same time. They share the payload file,
-- whose `getQuery` holds its mutex and is one turn; what a thread does between two calls of `getQuery` and two
-- readings of the clock concerns only the thread itself. A schedule says whose turn it is.
pub mod Kept
pub mod Hands
pub mod Wire
pub mod Turns
pub mod Steps
pub mod Shared
pub mod Schedules
pub mod Session
pub mod Load
pub mod Prepared
pub mod Sample
mod Tests
use dnsmeter.Base.{
  ℕ, zero, suc, ◌+◌, ◌-◌, ◌*◌, ◌/◌, Bool, ◌||◌, List, [], ◌∷◌, Option, none, some, ltb, leb,
  if◌then◌else◌,
}
use dnsmeter.Exceptions.{Exception, ok, throw}
use dnsmeter.Pplib.{ByteArray}
use dnsmeter.Packet.{Packet}
use dnsmeter.PayloadFile.{PayloadFile, get_query}
use dnsmeter.DnsSenderThread.{DnsSenderThread, Attempt, send_query, start_run, catch}
use dnsmeter.DnsSenderThread.Loops.{total_timeslices, queries_per_timeslice}

-- The variables of `runWithRateLimit` in the slice `z`: `left` slices come behind it, for `rest` queries.
pub record Slice : Type 0 where
  pub left : ℕ
  pub rest : ℕ
  pub next_timeslice : ℕ
  pub next_checktime : ℕ
  pub end : ℕ

-- Where a thread stands.
pub data Point : Type 0 where
  -- before `run`
  ready : Point
  -- before a call of `sendPacket` in a slice, with `n` calls behind it
  slice : ℕ → Slice → Point
  -- the same, with the query from the payload
  sending : ByteArray → ℕ → Slice → Point
  -- in the loop that waits for the end of a slice
  idle : Slice → Point
  -- before a call of `sendPacket` in `runWithoutRateLimit`, with the counter `pc` and the end of the run
  burst : ℕ → ℕ → Point
  bursting : ByteArray → ℕ → ℕ → Point
  -- before `waitForTimeout`, with the `queries_rest` of `runWithRateLimit` at its end
  leaving : ℕ → Point
  -- in `waitForTimeout`, with its `end` and `next_checktime`
  waiting : ℕ → ℕ → ℕ → Point
  done : ℕ → Point
  threw : Exception → Point

-- What a turn meets: `getNsec`, `GetMicrotime`, `threadShouldStop`, and what a round of `sendPacket` meets.
pub record Reading : Type 0 where
  pub now : ℕ
  pub microtime : ℕ
  pub should_stop : Bool
  pub attempt : Attempt

-- What a turn does: nothing but look at the clock, a step of its own, a query taken from the payload, or a
-- packet handed to the socket for a query.
pub data Event : Type 0 where
  waited : Event
  went : Event
  took : ByteArray → Event
  handed : ByteArray → Packet → Event

pub record Proc : Type 0 where
  pub thread : DnsSenderThread
  pub point : Point

abbrev pub at : DnsSenderThread → Point → Proc
at t x = record { thread = t; point = x }

-- The loop over the queries of a slice, with `n` to go.
unfoldable pub in_slice : ℕ → Slice → Point
in_slice zero s = idle s
in_slice (suc n) s = slice n s

-- The head of the loop over the slices, with `left` slices to go.
unfoldable pub enter : ℕ → ℕ → ℕ → ℕ → ℕ → ℕ → Point
enter timeslice zero rest next check end = leaving rest
enter timeslice (suc left) rest next check end =
    let n = queries_per_timeslice rest (suc left) in
    in_slice n (record {
      left = left;
      rest = rest - n;
      next_timeslice = next + timeslice;
      next_checktime = check;
      end = end;
    })

-- `Timeslice` in nanoseconds.
abbrev pub nanoseconds : DnsSenderThread → ℕ
nanoseconds t = 1000000 * t.timeslice.num / t.timeslice.den

-- The start of `run`, up to the first round of its loop.
unfoldable pub start : Reading → DnsSenderThread → Point
start r t =
    if ltb 0 t.queryrate
    then enter (nanoseconds t) (total_timeslices t) (t.runtime * t.queryrate) r.now
        (r.now + 100000000) (r.microtime + t.runtime * 1000000000)
    else burst 0 (r.microtime + t.runtime * 1000000000)

-- What follows a slice, once it is over.
unfoldable pub next_slice : Reading → DnsSenderThread → Slice → Point
next_slice r t s =
    let go = enter (nanoseconds t) s.left s.rest s.next_timeslice in
    if ltb s.next_checktime r.now
    then (if r.should_stop || leb s.end r.microtime
        then leaving s.rest
        else go (r.now + 100000000) s.end)
    else go s.next_checktime s.end

-- What follows a call of `sendPacket` in `runWithoutRateLimit`.
unfoldable pub next_burst : Reading → ℕ → ℕ → Point
next_burst r pc end =
    if ltb 10000 (pc + 1)
    then (if r.should_stop
        then leaving 0
        else if ltb end r.microtime
        then leaving 0
        else burst 0 end)
    else burst (pc + 1) end

-- A round of the loop of `waitForTimeout`.
unfoldable pub wait : Reading → DnsSenderThread → ℕ → ℕ → ℕ → Event × Proc
wait r t rest end check =
    if ltb r.microtime end
    then (if ltb check r.microtime
        then (if r.should_stop
            then (went, at t (done rest))
            else (waited, at t (waiting rest end (r.microtime + 100000000))))
        else (waited, at t (waiting rest end check)))
    else (went, at t (done rest))

abbrev pub Move : Type 0
Move = Event × PayloadFile × Proc

-- The call of `getQuery`, whose query leads to a point. `none` is a call on an empty cache.
unfoldable pub take_query : PayloadFile → DnsSenderThread → (ByteArray → Point) → Option Move
take_query f t follows = elim (get_query f) [
  | none ↦ none
  | some (q, g) ↦ some (took q, g, at t (follows q))
]

-- The rest of the round of `sendPacket`. `again` is its start.
unfoldable pub send_taken :
    Reading → PayloadFile → DnsSenderThread → ByteArray → Point → Point → Move
unfolding catch
send_taken r f t q again follows =
    let (result, u) = send_query t r.attempt q in
    elim result [
      | ok _ ↦ (handed q u.pkt, f, at u follows)
      | throw e ↦ (went, f, at u (catch (throw e) again (threw e)))
    ]

-- A turn of a thread.
unfoldable pub turn : Reading → PayloadFile → DnsSenderThread → Point → Option Move
turn r f t ready = let u = start_run t in some (went, f, at u (start r u))
turn r f t (slice n s) = take_query f t λ q. sending q n s
turn r f t (sending q n s) = some (send_taken r f t q (slice n s) (in_slice n s))
turn r f t (idle s) = some (
    if ltb r.now s.next_timeslice
    then (waited, f, at t (idle s))
    else (went, f, at t (next_slice r t s)))
turn r f t (burst pc end) = take_query f t λ q. bursting q pc end
turn r f t (bursting q pc end) = some (send_taken r f t q (burst pc end) (next_burst r pc end))
turn r f t (leaving rest) =
    some (
      went,
      f,
      at t (waiting rest (r.microtime + t.timeout * 1000000000) (r.microtime + 100000000)),
    )
turn r f t (waiting rest end check) = let (e, p) = wait r t rest end check in some (e, f, p)
turn r f t (done rest) = some (waited, f, at t (done rest))
turn r f t (threw e) = some (waited, f, at t (threw e))

-- The turn of the thread number `i`. There is none behind the last.
unfoldable pub turn_of :
    ℕ → Reading → PayloadFile → List Proc → Option (Event × PayloadFile × List Proc)
turn_of i r f [] = some (waited, f, [])
turn_of zero r f (p ∷ ps) = elim (turn r f p.thread p.point) [
  | none ↦ none
  | some (e, g, q) ↦ some (e, g, q ∷ ps)
]
turn_of (suc i) r f (p ∷ ps) = elim (turn_of i r f ps) [
  | none ↦ none
  | some (e, g, qs) ↦ some (e, g, p ∷ qs)
]

-- A schedule: the turns of the threads, with what each meets. The events come out in their order.
unfoldable pub run_schedule :
    List (ℕ × Reading) → PayloadFile → List Proc → Option (List Event × PayloadFile × List Proc)
run_schedule [] f ps = some ([], f, ps)
run_schedule ((i, r) ∷ later) f ps = elim (turn_of i r f ps) [
  | none ↦ none
  | some (e, g, qs) ↦ elim (run_schedule later g qs) [
    | none ↦ none
    | some (es, h, rs) ↦ some (e ∷ es, h, rs)
  ]
]
