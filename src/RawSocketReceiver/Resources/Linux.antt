-- ===== src/RawSocketReceiver/Resources/Linux.antt =====
-- src/raw_socket_receiver.cpp: what a receiver holds of the system, as compiled for Linux.
use dnsmeter.Base.{◌≡◌, refl, ℕ, Bool, true, false, [], ◌∷◌, Option, none, some}
use dnsmeter.Exceptions.{out_of_memory, system_call_failed}
use dnsmeter.System.{World, free, close, ask, malloc, open_descriptor}
use dnsmeter.System.Held.{
  Holds, Holds-refl, IsGiven, OrNone, Leaves, Returns, chain-Leaves_sure, chain-Returns, free-first,
  close-first, ask-Returns, malloc-Returns, open_descriptor-Returns, Leaves-also,
}
use dnsmeter.System.Throws.{fail-Leaves, return-Leaves, free-fail, close-free-fail}
use dnsmeter.RawSocketReceiver.Resources.{
  Handles, delete_buffers, delete_receiver, non_blocking, open_socket, with_buffer, new_receiver,
}

-- The buffer and the socket.
pub record IsOpen (w : World) (r : Handles) (v : World) : Type 0 where
  pub held : Holds w (r.buffer ∷ []) (r.sd ∷ []) v
  pub copying : r.zero_copy ≡ none

abbrev pub Released : World → Unit {0} → World → Type 0
Released w _ v = Holds w [] [] v

-- The destructor releases both.
pub delete_receiver-IsOpen :
    (w v : World) (r : Handles) → IsOpen w r v → Returns (Released w) (delete_receiver r v)
unfolding delete_receiver delete_buffers
delete_receiver-IsOpen w v r both =
    rw (both.copying, delete_receiver, delete_buffers)
      (chain-Returns (λ (_ : Unit {0}). Holds w (r.buffer ∷ []) []) (Released w) (close r.sd v)
        (λ (_ : Unit {0}). free r.buffer) (close-first w v r.sd (r.buffer ∷ []) [] both.held)
        (λ a u h. free-first w u r.buffer [] [] h))

module _ (answers : ℕ → Bool) where
  non_blocking-Leaves :
      (w v : World) (buffer sd : ℕ) (b : Bool)
      → Holds w (buffer ∷ []) (sd ∷ []) v
      → Leaves w (IsOpen w) (non_blocking answers buffer sd b v)
  unfolding non_blocking
  non_blocking-Leaves w v buffer sd true h =
      return-Leaves (IsOpen w) w v (record { buffer = buffer; sd = sd; zero_copy = none })
        (record { held = h; copying = refl })
  non_blocking-Leaves w v buffer sd false h =
      close-free-fail (IsOpen w) w v buffer sd system_call_failed h

  open_socket-Leaves :
      (w v : World) (buffer : ℕ) (sd : Option ℕ)
      → OrNone (λ (p : ℕ). Holds w (buffer ∷ []) (p ∷ [])) (Holds w (buffer ∷ []) []) sd v
      → Leaves w (IsOpen w) (open_socket answers buffer sd v)
  unfolding open_socket
  open_socket-Leaves w v buffer none h = free-fail (IsOpen w) w v buffer system_call_failed h
  open_socket-Leaves w v buffer (some sd) h =
      chain-Leaves_sure w (λ (_ : Bool). Holds w (buffer ∷ []) (sd ∷ [])) (IsOpen w) (ask answers v)
        (non_blocking answers buffer sd) (ask-Returns answers w v (buffer ∷ []) (sd ∷ []) h)
        (λ b u k. non_blocking-Leaves w u buffer sd b k)

  with_buffer-Leaves :
      (w v : World) (buffer : Option ℕ)
      → OrNone (IsGiven w w [] []) (Holds w [] []) buffer v
      → Leaves w (IsOpen w) (with_buffer answers buffer v)
  unfolding with_buffer
  with_buffer-Leaves w v none h = fail-Leaves (IsOpen w) w v out_of_memory h
  with_buffer-Leaves w v (some buffer) given =
      chain-Leaves_sure w
        (OrNone (λ (p : ℕ). Holds w (buffer ∷ []) (p ∷ [])) (Holds w (buffer ∷ []) [])) (IsOpen w)
        (open_descriptor answers v) (open_socket answers buffer)
        (open_descriptor-Returns answers w v (buffer ∷ []) [] given.held)
        (λ sd u k. open_socket-Leaves w u buffer sd k)

  -- The constructor on Linux, whatever the system answers: where it throws, the buffer and the socket that it had are
  -- released; where it returns, the destructor releases both and nothing else. Nothing is released twice.
  pub new_receiver-Leaves :
      (w : World)
      → Leaves w
          (λ (r : Handles) (v : World). IsOpen w r v × Returns (Released w) (delete_receiver r v))
          (new_receiver answers w)
  unfolding new_receiver
  new_receiver-Leaves w =
      Leaves-also w (IsOpen w)
        (λ (r : Handles) (v : World). Returns (Released w) (delete_receiver r v))
        (new_receiver answers w)
        (chain-Leaves_sure w (OrNone (IsGiven w w [] []) (Holds w [] [])) (IsOpen w)
          (malloc answers w) (with_buffer answers) (malloc-Returns answers w w [] [] (Holds-refl w))
          (λ buffer v h. with_buffer-Leaves w v buffer h))
        (λ r v both. delete_receiver-IsOpen w v r both)
