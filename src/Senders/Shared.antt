-- ===== src/Senders/Shared.antt =====
-- src/dns_sender_thread.cpp: the threads of a session over a schedule.
use dnsmeter.Base.{
  ℕ, zero, suc, ◌+◌, ◌≤◌, ◌≡◌, refl, subst, Bool, List, [], ◌∷◌, ◌++◌, some, map, arith, length,
  All,
}
use dnsmeter.Pplib.{ByteArray}
use dnsmeter.PayloadFile.{PayloadFile}
use dnsmeter.PayloadFile.RoundRobin.{turns}
use dnsmeter.DnsSenderThread.{DnsSenderThread}
use dnsmeter.DnsSenderThread.Whole.{IsPayload}
use dnsmeter.Senders.{Reading, Proc, Event, waited, turn_of}
use dnsmeter.Senders.Kept.{tally, in_hand, work}
use dnsmeter.Senders.Wire.{Common}
use dnsmeter.Senders.Turns.{Sound, taken, sent, busy, IsRight, weigh, Goes}
use dnsmeter.Senders.Steps.{turn-Goes}

-- Each thread is sound, from the thread that it has been before its run.
abbrev pub Sounds : Common → List DnsSenderThread → List Proc → Type 0
Sounds c [] [] = Unit
Sounds c [] (p ∷ ps) = ⊥
Sounds c (u ∷ us) [] = ⊥
Sounds c (u ∷ us) (p ∷ ps) = Sound c u p × Sounds c us ps

-- The sum over the queries that the threads have taken and not sent yet.
abbrev pub weigh_hands : (ByteArray → ℕ) → List Proc → ℕ
weigh_hands w [] = 0
weigh_hands w (p ∷ ps) = weigh w (in_hand p.point) + weigh_hands w ps

abbrev pub works : List Proc → ℕ
works [] = 0
works (p ∷ ps) = work p.thread p.point + works ps

abbrev pub all_taken : List Event → List ByteArray
all_taken [] = []
all_taken (e ∷ es) = taken e ++ all_taken es

abbrev pub all_sent : List Event → List ByteArray
all_sent [] = []
all_sent (e ∷ es) = sent e ++ all_sent es

-- The packets that the threads have tried to send in their runs.
abbrev pub tallies : List Proc → ℕ
tallies [] = 0
tallies (p ∷ ps) = tally p.thread p.point + tallies ps

-- The turns of a schedule that do more than wait.
abbrev pub busy_turns : List Event → ℕ
busy_turns [] = 0
busy_turns (e ∷ es) = busy e + busy_turns es

-- Every thread is rate-limited.
abbrev pub AllLimited : List DnsSenderThread → Type 0
AllLimited us = All (λ (u : DnsSenderThread). 1 ≤ u.queryrate) us

-- What a turn of one of the threads does.
pub record GoesAll (c : Common) (k : ℕ) (f : PayloadFile) (us : List DnsSenderThread)
    (ps : List Proc) (m : Event × PayloadFile × List Proc) : Type 0 where
  pub sounds : Sounds c us m.2
  pub payload : IsPayload c.pcap (k + length (taken m.0)) m.1
  pub cache : m.1.querycache ≡ f.querycache
  pub order : map some (taken m.0) ≡ turns f.querycache k (length (taken m.0))
  pub right : IsRight c m.0
  pub weight :
      (w : ByteArray → ℕ)
      → weigh_hands w ps + weigh w (taken m.0) ≡ weigh_hands w m.2 + weigh w (sent m.0)
  pub counted : tallies m.2 ≡ tallies ps + length (sent m.0)
  pub less : AllLimited us → busy m.0 + works m.2 ≤ works ps

first-GoesAll :
    (c : Common) (k : ℕ) (f : PayloadFile) (u : DnsSenderThread) (us : List DnsSenderThread)
    (p : Proc) (ps : List Proc) (e : Event) (g : PayloadFile) (q : Proc)
    → Sounds c us ps
    → Goes c k f u p (e, g, q)
    → GoesAll c k f (u ∷ us) (p ∷ ps) (e, g, q ∷ ps)
first-GoesAll c k f u us p ps e g q sounds goes = record {
  sounds = (goes.sound, sounds);
  payload = goes.payload;
  cache = goes.cache;
  order = goes.order;
  right = goes.right;
  weight = λ w. omega (arith, goes.weight w);
  counted = omega (arith, goes.counted);
  less = λ (one, _). omega (arith, goes.less one);
}

later-GoesAll :
    (c : Common) (k : ℕ) (f : PayloadFile) (u : DnsSenderThread) (us : List DnsSenderThread)
    (p : Proc) (ps : List Proc) (e : Event) (g : PayloadFile) (qs : List Proc)
    → Sound c u p
    → GoesAll c k f us ps (e, g, qs)
    → GoesAll c k f (u ∷ us) (p ∷ ps) (e, g, p ∷ qs)
later-GoesAll c k f u us p ps e g qs sound goes = record {
  sounds = (sound, goes.sounds);
  payload = goes.payload;
  cache = goes.cache;
  order = goes.order;
  right = goes.right;
  weight = λ w. omega (arith, goes.weight w);
  counted = omega (arith, goes.counted);
  less = λ (_, rates). omega (arith, goes.less rates);
}

IsPayload-still :
    (pcap : Bool) (k : ℕ) (f : PayloadFile) → IsPayload pcap k f → IsPayload pcap (k + 0) f
IsPayload-still pcap k f file = subst (λ (i : ℕ). IsPayload pcap i f) (omega arith) file

pub turn_of-GoesAll :
    (c : Common) (k : ℕ) (f : PayloadFile) (us : List DnsSenderThread) (i : ℕ) (r : Reading)
    (ps : List Proc)
    → IsPayload c.pcap k f
    → Sounds c us ps
    → (m : Event × PayloadFile × List Proc) × (turn_of i r f ps ≡ some m) × GoesAll c k f us ps m
unfolding turn_of
turn_of-GoesAll c k f [] i r [] file sounds = (
  (waited, f, []),
  refl,
  record {
    sounds = tt;
    payload = IsPayload-still c.pcap k f file;
    cache = refl;
    order = refl;
    right = tt;
    weight = λ w. refl;
    counted = omega arith;
    less = λ _. omega arith;
  },
)
turn_of-GoesAll c k f [] i r (p ∷ ps) file sounds = elim sounds [ ]
turn_of-GoesAll c k f (u ∷ us) i r [] file sounds = elim sounds [ ]
turn_of-GoesAll c k f (u ∷ us) zero r (p ∷ ps) file (sound, sounds) =
    let ((e, g, q), moved, goes) = turn-Goes c k f u r p file sound in
    (_, rw (moved, turn_of) refl, first-GoesAll c k f u us p ps e g q sounds goes)
turn_of-GoesAll c k f (u ∷ us) (suc i) r (p ∷ ps) file (sound, sounds) =
    let ((e, g, qs), moved, goes) = turn_of-GoesAll c k f us i r ps file sounds in
    (_, rw (moved, turn_of) refl, later-GoesAll c k f u us p ps e g qs sound goes)
