-- ===== src/Senders/Turns.antt =====
-- src/dns_sender_thread.cpp: what a turn of a thread does to the thread, to the payload and on the wire.
use dnsmeter.Base.{
  ℕ, ◌+◌, ◌%◌, ◌≤◌, ◌≡◌, ◌∙◌, refl, sym, ap, List, [], ◌∷◌, Option, some, map, arith, length, sum,
  All,
}
use dnsmeter.Pplib.{ByteArray}
use dnsmeter.PayloadFile.{PayloadFile}
use dnsmeter.PayloadFile.RoundRobin.{turns, get_query-turn}
use dnsmeter.DnsSenderThread.{DnsSenderThread, send_query}
use dnsmeter.DnsSenderThread.Counters.{attempts}
use dnsmeter.DnsSenderThread.Ready.{IsLoadable}
use dnsmeter.DnsSenderThread.Whole.{IsPayload, get_elem?-All}
use dnsmeter.Senders.{
  Point, Reading, Proc, at, Event, waited, took, handed, Move, take_query, send_taken,
}
use dnsmeter.Senders.Kept.{tally, IsFree, in_hand, Balance, work}
use dnsmeter.Senders.Wire.{Common, OnWire, Fit, send_query-OnWire}

-- What holds of a thread that has been `u` before its run.
pub record Sound (c : Common) (u : DnsSenderThread) (p : Proc) : Type 0 where
  pub fit : Fit c u p.thread
  pub balance : Balance p.thread p.point
  pub loadable : All (IsLoadable c.pcap) (in_hand p.point)

-- The queries that an event takes from the payload, and those that it puts on the wire.
abbrev pub taken : Event → List ByteArray
taken (took q) = q ∷ []
taken _ = []

abbrev pub sent : Event → List ByteArray
sent (handed q p) = q ∷ []
sent _ = []

-- The turns that do more than wait.
abbrev pub busy : Event → ℕ
busy waited = 0
busy _ = 1

-- A packet that is handed to the socket is right.
abbrev pub IsRight : Common → Event → Type 0
IsRight c (handed q p) = OnWire c q p
IsRight c _ = Unit

-- A sum over queries.
abbrev pub weigh : (ByteArray → ℕ) → List ByteArray → ℕ
weigh w qs = sum (map w qs)

-- What a turn does, with the payload at turn `k` before it.
pub record Goes (c : Common) (k : ℕ) (f : PayloadFile) (u : DnsSenderThread) (p : Proc) (m : Move)
    : Type 0 where
  pub sound : Sound c u m.2
  pub payload : IsPayload c.pcap (k + length (taken m.0)) m.1
  pub cache : m.1.querycache ≡ f.querycache
  pub order : map some (taken m.0) ≡ turns f.querycache k (length (taken m.0))
  pub right : IsRight c m.0
  pub weight :
      (w : ByteArray → ℕ)
      → weigh w (in_hand p.point) + weigh w (taken m.0)
        ≡ weigh w (in_hand m.2.point) + weigh w (sent m.0)
  pub counted : tally m.2.thread m.2.point ≡ tally p.thread p.point + length (sent m.0)
  pub less : 1 ≤ u.queryrate → busy m.0 + work m.2.thread m.2.point ≤ work p.thread p.point

module _ (c : Common) (k : ℕ) (f : PayloadFile) (u : DnsSenderThread)
    (file : IsPayload c.pcap k f) where
  -- A turn that leaves the payload alone and sends nothing.
  pub alone :
      (t v : DnsSenderThread) (x y : Point) (e : Event)
      → taken e ≡ []
      → sent e ≡ []
      → IsRight c e
      → in_hand x ≡ []
      → IsFree y
      → attempts v ≡ tally t x
      → Fit c u v
      → Balance v y
      → (1 ≤ u.queryrate → busy e + work v y ≤ work t x)
      → Goes c k f u (at t x) (e, f, at v y)
  alone t v x y e quiet silent right free (free', running) same fit balance less = record {
    sound = record { fit = fit; balance = balance; loadable = rw free' tt };
    payload = record {
      some_query = file.some_query;
      turn = rw quiet (file.turn ∙ ap (λ (i : ℕ). i % length f.querycache) (omega arith));
      loadable = file.loadable;
    };
    cache = refl;
    order = rw quiet refl;
    right = right;
    weight = λ w. rw (free, free', quiet, silent) refl;
    counted = rw (running v, silent) (omega (arith, same));
    less = less;
  }

  -- A turn that takes a query.
  pub take_query-Goes :
      (t : DnsSenderThread) (x : Point) (follows : ByteArray → Point)
      → Fit c u t
      → in_hand x ≡ []
      → ((q : ByteArray) → in_hand (follows q) ≡ q ∷ [])
      → ((q : ByteArray) → tally t (follows q) ≡ tally t x)
      → ((q : ByteArray) → Balance t (follows q))
      → ((q : ByteArray) → 1 ≤ u.queryrate → 1 + work t (follows q) ≤ work t x)
      → (m : Move) × (take_query f t follows ≡ some m) × Goes c k f u (at t x) m
  unfolding take_query
  take_query-Goes t x follows fit free holds same balance less =
      let (q, found, called) = get_query-turn f k file.some_query file.turn in
      let l =
        get_elem?-All (IsLoadable c.pcap) f.querycache (k % length f.querycache) q file.loadable
          found in
      let g = record f { it = (k + 1) % length f.querycache } in
      (
        (took q, g, at t (follows q)),
        rw (called, take_query) refl,
        record {
          sound = record { fit = fit; balance = balance q; loadable = rw (holds q) (l, tt) };
          payload = record { some_query = file.some_query; turn = refl; loadable = file.loadable };
          cache = refl;
          order = ap (λ (o : Option ByteArray). o ∷ []) (sym found);
          right = tt;
          weight = λ w. rw (free, holds q) (omega arith);
          counted = omega (arith, same q);
          less = less q;
        },
      )

  -- A turn that sends the query that the thread has taken.
  pub send_taken-Goes :
      (r : Reading) (t : DnsSenderThread) (x : Point) (q : ByteArray) (again follows : Point)
      → Fit c u t
      → in_hand x ≡ q ∷ []
      → IsLoadable c.pcap q
      → tally t x ≡ attempts t
      → IsFree follows
      → ((v : DnsSenderThread) → Fit c u v → attempts v ≡ attempts t + 1 → Balance v follows)
      → ((v : DnsSenderThread) → 1 ≤ u.queryrate → 1 + work v follows ≤ work t x)
      → Goes c k f u (at t x) (send_taken r f t q again follows)
  unfolding send_taken
  send_taken-Goes r t x q again follows fit holds l before (free, running) balance less =
      let (returns, wire, fit', once) = send_query-OnWire c u t r.attempt q fit l in
      let v = (send_query t r.attempt q).1 in
      rw (returns, send_taken)
        (record {
          sound = record { fit = fit'; balance = balance v fit' once; loadable = rw free tt };
          payload = record {
            some_query = file.some_query;
            turn = file.turn ∙ ap (λ (i : ℕ). i % length f.querycache) (omega arith);
            loadable = file.loadable;
          };
          cache = refl;
          order = refl;
          right = wire;
          weight = λ w. rw (free, holds) (omega arith);
          counted = omega (arith, running v, once, before);
          less = less v;
        })
