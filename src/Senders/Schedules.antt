-- ===== src/Senders/Schedules.antt =====
-- src/dns_sender_thread.cpp: what the threads of a session do over any schedule.
use dnsmeter.Base.{
  ℕ, zero, suc, ◌+◌, ◌≤◌, ◌≡◌, ◌∙◌, refl, sym, ap, subst, List, [], ◌∷◌, ◌++◌, Option, some, map,
  arith, length, length-append, All,
}
use mathlib.Core.List.{map-append}
use dnsmeter.Pplib.{ByteArray}
use dnsmeter.PayloadFile.{PayloadFile}
use dnsmeter.PayloadFile.RoundRobin.{in_turn, turns}
use dnsmeter.DnsSenderThread.{DnsSenderThread}
use dnsmeter.DnsSenderThread.Whole.{IsPayload}
use dnsmeter.Senders.{Reading, Proc, Event, run_schedule}
use dnsmeter.Senders.Wire.{Common}
use dnsmeter.Senders.Turns.{taken, sent, IsRight, weigh}
use dnsmeter.Senders.Shared.{
  tallies, Sounds, weigh_hands, works, all_taken, all_sent, busy_turns, AllLimited, GoesAll,
  turn_of-GoesAll,
}

-- What a schedule of the threads gives, that have been `us` before their runs, with the payload at turn `k`.
pub record Runs (c : Common) (k : ℕ) (f : PayloadFile) (us : List DnsSenderThread) (ps : List Proc)
    (m : List Event × PayloadFile × List Proc) : Type 0 where
  pub sounds : Sounds c us m.2
  pub payload : IsPayload c.pcap (k + length (all_taken m.0)) m.1
  pub order : map some (all_taken m.0) ≡ turns f.querycache k (length (all_taken m.0))
  pub right : All (IsRight c) m.0
  pub weight :
      (w : ByteArray → ℕ)
      → weigh_hands w ps + weigh w (all_taken m.0) ≡ weigh_hands w m.2 + weigh w (all_sent m.0)
  pub counted : tallies m.2 ≡ tallies ps + length (all_sent m.0)
  pub less : AllLimited us → busy_turns m.0 + works m.2 ≤ works ps

weigh-append :
    (w : ByteArray → ℕ) (xs ys : List ByteArray) → weigh w (xs ++ ys) ≡ weigh w xs + weigh w ys
weigh-append w [] ys = omega arith
weigh-append w (x ∷ xs) ys = omega (arith, weigh-append w xs ys)

turns-append :
    (cache : List ByteArray) (k m n : ℕ)
    → turns cache k (m + n) ≡ turns cache k m ++ turns cache (k + m) n
turns-append cache k zero n =
    subst (λ (i : ℕ). turns cache k i ≡ turns cache (k + 0) n) (omega arith)
      (ap (λ (i : ℕ). turns cache i n) (omega arith))
turns-append cache k (suc m) n =
    ap (turns cache k) count
    ∙ ap (λ (os : List (Option ByteArray)). in_turn cache k ∷ os)
        (turns-append cache (k + 1) m n
          ∙ ap (λ (i : ℕ). turns cache (k + 1) m ++ turns cache i n) place)
  where
    count : suc m + n ≡ suc (m + n)
    count = omega arith

    place : k + 1 + m ≡ k + suc m
    place = omega arith

-- Two parts of what is taken in turn, one after the other.
order-append :
    (cache : List ByteArray) (k : ℕ) (xs ys : List ByteArray)
    → map some xs ≡ turns cache k (length xs)
    → map some ys ≡ turns cache (k + length xs) (length ys)
    → map some (xs ++ ys) ≡ turns cache k (length (xs ++ ys))
order-append cache k xs ys e d =
    map-append some xs ys
    ∙ cc (e, d)
    ∙ sym (turns-append cache k (length xs) (length ys))
    ∙ ap (turns cache k) (sym (length-append xs ys))

first-Runs :
    (c : Common) (k : ℕ) (f : PayloadFile) (us : List DnsSenderThread) (ps : List Proc) (e : Event)
    (g : PayloadFile) (qs : List Proc) (es : List Event) (h : PayloadFile) (rs : List Proc)
    → GoesAll c k f us ps (e, g, qs)
    → Runs c (k + length (taken e)) g us qs (es, h, rs)
    → Runs c k f us ps (e ∷ es, h, rs)
first-Runs c k f us ps e g qs es h rs goes runs = record {
  sounds = runs.sounds;
  payload =
      subst (λ (i : ℕ). IsPayload c.pcap i h)
        (omega (arith, length-append (taken e) (all_taken es))) runs.payload;
  order = order-append f.querycache k (taken e) (all_taken es) goes.order (
      subst
        (λ (l : List ByteArray).
          map some (all_taken es) ≡ turns l (k + length (taken e)) (length (all_taken es)))
        goes.cache runs.order);
  right = (goes.right, runs.right);
  weight = λ w. omega (
    arith,
    goes.weight w,
    runs.weight w,
    weigh-append w (taken e) (all_taken es),
    weigh-append w (sent e) (all_sent es),
  );
  counted = omega (arith, goes.counted, runs.counted, length-append (sent e) (all_sent es));
  less = λ rates. omega (arith, goes.less rates, runs.less rates);
}

pub run_schedule-Runs :
    (c : Common) (k : ℕ) (f : PayloadFile) (us : List DnsSenderThread)
    (schedule : List (ℕ × Reading)) (ps : List Proc)
    → IsPayload c.pcap k f
    → Sounds c us ps
    → (m : List Event × PayloadFile × List Proc) × (run_schedule schedule f ps ≡ some m)
      × Runs c k f us ps m
unfolding run_schedule
run_schedule-Runs c k f us [] ps file sounds = (
  ([], f, ps),
  refl,
  record {
    sounds = sounds;
    payload = subst (λ (i : ℕ). IsPayload c.pcap i f) (omega arith) file;
    order = refl;
    right = tt;
    weight = λ w. refl;
    counted = omega arith;
    less = λ _. omega arith;
  },
)
run_schedule-Runs c k f us ((i, r) ∷ later) ps file sounds =
    let ((e, g, qs), moved, goes) = turn_of-GoesAll c k f us i r ps file sounds in
    let ((es, h, rs), rest, runs) =
      run_schedule-Runs c (k + length (taken e)) g us later qs goes.payload goes.sounds in
    (_, rw (moved, rest, run_schedule) refl, first-Runs c k f us ps e g qs es h rs goes runs)
