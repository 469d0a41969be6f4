-- ===== src/DnsReceiverThread/Run.antt =====
-- src/dns_receiver_thread.cpp: what the counters of the thread say when it has stopped.
use dnsmeter.Base.{List, [], ◌∷◌, Option, none, some, if◌then◌else◌}
use dnsmeter.RawSocketReceiver.{recvfrom, is_answer}
use dnsmeter.RawSocketReceiver.Totals.{Answer}
use dnsmeter.DnsReceiverThread.{DnsReceiverThread, Round, receive_round}

-- The answer of a round, if it brings one that passes the filter.
unfoldable pub answer : DnsReceiverThread → Round → Option Answer
answer t m =
    let (s, used) = recvfrom t.socket m.arrived in
    if m.ready
    then (elim used [
      | none ↦ none
      | some n ↦
          if is_answer s n
          then some (record { clock = m.clock; frame = s.buffer; size = n })
          else none
    ])
    else none

abbrev pub prepend : Option Answer → List Answer → List Answer
prepend none as' = as'
prepend (some a) as' = a ∷ as'

-- The answers of the rounds, in order.
abbrev pub answers : DnsReceiverThread → List Round → List Answer
answers t [] = []
answers t (m ∷ ms) = prepend (answer t m) (answers (receive_round t m) ms)
