-- ===== src/RawSocketSender/Resources.antt =====
-- src/raw_socket_sender.cpp: the constructor and the destructor, with what they hold of the system.
use dnsmeter.Base.{ℕ, Bool, true, false, [], ◌∷◌, Option, none, some}
use dnsmeter.Exceptions.{out_of_memory, system_call_failed}
use dnsmeter.System.{
  World, Act, return, fail, ◌>>=◌, ◌>>◌, free, close, ask, malloc, open_descriptor,
}
use dnsmeter.System.Held.{
  Holds, Holds-refl, IsGiven, OrNone, Leaves, Returns, chain-Leaves_sure, chain-Returns, free-first,
  close-first, ask-Returns, malloc-Returns, open_descriptor-Returns, Leaves-also,
}
use dnsmeter.System.Throws.{fail-Leaves, return-Leaves, free-fail, close-free-fail}

-- `buffer` and `sd`.
pub record Handles : Type 0 where
  pub buffer : ℕ
  pub sd : ℕ

-- The destructor.
unfoldable pub delete_sender : Handles → Act (Unit {0})
delete_sender s = close s.sd >> free s.buffer

module _ (answers : ℕ → Bool) where
  -- The constructor, from the last call back to the first.
  unfoldable pub with_header : ℕ → ℕ → Bool → Act Handles
  with_header buffer sd true = return (record { buffer = buffer; sd = sd })
  with_header buffer sd false = close sd >> free buffer >> fail system_call_failed

  unfoldable pub open_raw_socket : ℕ → Option ℕ → Act Handles
  open_raw_socket buffer none = free buffer >> fail system_call_failed
  open_raw_socket buffer (some sd) = ask answers >>= with_header buffer sd

  unfoldable pub with_sockaddr : Option ℕ → Act Handles
  with_sockaddr none = fail out_of_memory
  with_sockaddr (some buffer) = open_descriptor answers >>= open_raw_socket buffer

  unfoldable pub new_sender : Act Handles
  new_sender = malloc answers >>= with_sockaddr

abbrev pub IsOpen : World → Handles → World → Type 0
IsOpen w s v = Holds w (s.buffer ∷ []) (s.sd ∷ []) v

abbrev pub Released : World → Unit {0} → World → Type 0
Released w _ v = Holds w [] [] v

module _ (w : World) where
  delete_sender-IsOpen :
      (v : World) (s : Handles) → IsOpen w s v → Returns (Released w) (delete_sender s v)
  unfolding delete_sender
  delete_sender-IsOpen v s h =
      chain-Returns (λ (_ : Unit {0}). Holds w (s.buffer ∷ []) []) (Released w) (close s.sd v)
        (λ (_ : Unit {0}). free s.buffer) (close-first w v s.sd (s.buffer ∷ []) [] h)
        (λ _ u k. free-first w u s.buffer [] [] k)

  module _ (answers : ℕ → Bool) where
    with_header-Leaves :
        (v : World) (buffer sd : ℕ) (b : Bool)
        → Holds w (buffer ∷ []) (sd ∷ []) v
        → Leaves w (IsOpen w) (with_header answers buffer sd b v)
    unfolding with_header
    with_header-Leaves v buffer sd true h =
        return-Leaves (IsOpen w) w v (record { buffer = buffer; sd = sd }) h
    with_header-Leaves v buffer sd false h =
        close-free-fail (IsOpen w) w v buffer sd system_call_failed h

    open_raw_socket-Leaves :
        (v : World) (buffer : ℕ) (sd : Option ℕ)
        → OrNone (λ (p : ℕ). Holds w (buffer ∷ []) (p ∷ [])) (Holds w (buffer ∷ []) []) sd v
        → Leaves w (IsOpen w) (open_raw_socket answers buffer sd v)
    unfolding open_raw_socket
    open_raw_socket-Leaves v buffer none h = free-fail (IsOpen w) w v buffer system_call_failed h
    open_raw_socket-Leaves v buffer (some sd) h =
        chain-Leaves_sure w (λ (_ : Bool). Holds w (buffer ∷ []) (sd ∷ [])) (IsOpen w)
          (ask answers v) (with_header answers buffer sd)
          (ask-Returns answers w v (buffer ∷ []) (sd ∷ []) h)
          (λ b u k. with_header-Leaves u buffer sd b k)

    with_sockaddr-Leaves :
        (v : World) (buffer : Option ℕ)
        → OrNone (IsGiven w w [] []) (Holds w [] []) buffer v
        → Leaves w (IsOpen w) (with_sockaddr answers buffer v)
    unfolding with_sockaddr
    with_sockaddr-Leaves v none h = fail-Leaves (IsOpen w) w v out_of_memory h
    with_sockaddr-Leaves v (some buffer) given =
        chain-Leaves_sure w
          (OrNone (λ (p : ℕ). Holds w (buffer ∷ []) (p ∷ [])) (Holds w (buffer ∷ []) [])) (IsOpen w)
          (open_descriptor answers v) (open_raw_socket answers buffer)
          (open_descriptor-Returns answers w v (buffer ∷ []) [] given.held)
          (λ sd u k. open_raw_socket-Leaves u buffer sd k)

    -- The constructor of a sender, whatever the system answers: where it throws, the address and the socket that it had
    -- are released; where it returns, the destructor releases both and nothing else. Nothing is released twice.
    pub new_sender-Leaves :
        Leaves w
          (λ (s : Handles) (v : World). IsOpen w s v × Returns (Released w) (delete_sender s v))
          (new_sender answers w)
    unfolding new_sender
    new_sender-Leaves =
        Leaves-also w (IsOpen w)
          (λ (s : Handles) (v : World). Returns (Released w) (delete_sender s v))
          (new_sender answers w)
          (chain-Leaves_sure w (OrNone (IsGiven w w [] []) (Holds w [] [])) (IsOpen w)
            (malloc answers w) (with_sockaddr answers)
            (malloc-Returns answers w w [] [] (Holds-refl w))
            (λ buffer v h. with_sockaddr-Leaves v buffer h))
          (λ s v h. delete_sender-IsOpen v s h)
