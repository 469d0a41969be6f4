-- ===== src/RawSocketReceiver/Resources/FreeBsd.antt =====
-- src/raw_socket_receiver.cpp: what a receiver holds of the system, as compiled for FreeBSD.
use dnsmeter.Base.{ℕ, zero, suc, ◌≢◌, Bool, List, [], ◌∷◌, Option, none, some}
use dnsmeter.Exceptions.{Exception, out_of_memory, system_call_failed}
use dnsmeter.System.{
  World, Act, return, fail, ◌>>=◌, ◌>>◌, handle, free, close, ask, malloc, open_descriptor,
}
use dnsmeter.System.Held.{
  Holds, Holds-refl, Holds-trans, IsGiven, OrNone, Leaves, Returns, chain-Leaves_sure,
  chain-Returns, chain-Leaves, handle-Leaves, free-first, free-second, close-first, malloc-Returns,
  open_descriptor-Returns, Leaves-also,
}
use dnsmeter.System.Throws.{fail-Leaves, return-Leaves, close-fail, free-close-fail}
use dnsmeter.RawSocketReceiver.Resources.{
  Handles, delete_buffers, delete_receiver, require, use_device, set_mode, open_bpf,
  init_zero_copy_buffer, use_zero_copy, init_buffered_mode, buffered, choose_mode, with_zbuf,
  new_bpf_receiver,
}
use dnsmeter.RawSocketReceiver.Resources.Linux.{Released}
use dnsmeter.RawSocketReceiver.Resources.ZeroCopy.{
  IsZbuf, required-then, asked-Leaves, init_zero_copy_buffer-Leaves,
}

-- The descriptor and the buffer are held, and the two others for zero copy.
abbrev HoldsAll : World → ℕ → ℕ → World → Option (ℕ × ℕ) → Type 0
HoldsAll w buffer sd v none = Holds w (buffer ∷ []) (sd ∷ []) v
HoldsAll w buffer sd v (some (a, b)) = Holds w (b ∷ a ∷ buffer ∷ []) (sd ∷ []) v × (b ≢ a)

abbrev pub IsOpenBpf : World → Handles → World → Type 0
IsOpenBpf w r v = HoldsAll w r.buffer r.sd v r.zero_copy

module _ (w : World) where
  delete_buffers-HoldsAll :
      (v : World) (buffer : ℕ) (sd : ℕ) (zbuf : Option (ℕ × ℕ))
      → HoldsAll w buffer sd v zbuf
      → Returns (Released w) ((close sd >> delete_buffers zbuf >> free buffer) v)
  unfolding delete_buffers
  delete_buffers-HoldsAll v buffer sd none h =
      chain-Returns (λ (_ : Unit {0}). Holds w (buffer ∷ []) []) (Released w) (close sd v)
        (λ (_ : Unit {0}). delete_buffers none >> free buffer)
        (close-first w v sd (buffer ∷ []) [] h) (λ _ u k. free-first w u buffer [] [] k)
  delete_buffers-HoldsAll v buffer sd (some (a, b)) (h, two) =
      chain-Returns (λ (_ : Unit {0}). Holds w (b ∷ a ∷ buffer ∷ []) []) (Released w) (close sd v)
        (λ (_ : Unit {0}). (free a >> free b) >> free buffer)
        (close-first w v sd (b ∷ a ∷ buffer ∷ []) [] h)
        (λ _ u k.
          chain-Returns (λ (_ : Unit {0}). Holds w (buffer ∷ []) []) (Released w)
            ((free a >> free b) u) (λ (_ : Unit {0}). free buffer)
            (chain-Returns (λ (_ : Unit {0}). Holds w (b ∷ buffer ∷ []) [])
              (λ (_ : Unit {0}). Holds w (buffer ∷ []) []) (free a u) (λ (_ : Unit {0}). free b)
              (free-second w u b a (buffer ∷ []) [] two k)
              (λ _ u' k'. free-first w u' b (buffer ∷ []) [] k'))
            (λ _ u' k'. free-first w u' buffer [] [] k'))

  -- The destructor releases them all.
  pub delete_receiver-IsOpenBpf :
      (v : World) (r : Handles) → IsOpenBpf w r v → Returns (Released w) (delete_receiver r v)
  unfolding delete_receiver
  delete_receiver-IsOpenBpf v r h = delete_buffers-HoldsAll v r.buffer r.sd r.zero_copy h

-- The buffers of a first `try` that ends without an exception.
abbrev IsSome : World → Option (ℕ × ℕ) → World → Type 0
IsSome w none v = ⊥
IsSome w (some zbuf) v = IsZbuf w zbuf v

module _ (answers : ℕ → Bool) where
  use_zero_copy-Leaves :
      (w v : World) → Holds w [] [] v → Leaves w (IsSome w) (use_zero_copy answers v)
  unfolding use_zero_copy
  use_zero_copy-Leaves w v h =
      chain-Leaves w (IsZbuf w) (IsSome w) (init_zero_copy_buffer answers v)
        (λ zbuf. return (some zbuf)) (init_zero_copy_buffer-Leaves answers w v h)
        (λ zbuf u k. return-Leaves (IsSome w) w u (some zbuf) k)

  set_mode-Leaves :
      (w v : World)
      → Holds w [] [] v
      → Leaves w (λ (_ : Unit {0}). Holds w [] []) (set_mode answers v)
  unfolding set_mode init_buffered_mode
  set_mode-Leaves w v h =
      chain-Leaves w (λ (_ : Unit {0}). Holds w [] []) (λ (_ : Unit {0}). Holds w [] [])
        (init_buffered_mode answers v) (λ (_ : Unit {0}). ask answers >>= require)
        (required-then answers w v (λ (_ : Unit {0}). Holds w [] []) (ask answers >>= require) h
          (λ u k. asked-Leaves answers w u k))
        (λ _ u k. asked-Leaves answers w u k)

module _ (answers : ℕ → Bool) (w : World) where
  use_device-Leaves :
      (next : Act ℕ) (v : World) (sd : Option ℕ)
      → ((u : World) → Holds w [] [] u → Leaves w (λ (sd : ℕ). Holds w [] (sd ∷ [])) (next u))
      → OrNone (λ (p : ℕ). Holds w [] (p ∷ [])) (Holds w [] []) sd v
      → Leaves w (λ (sd : ℕ). Holds w [] (sd ∷ [])) (use_device answers next sd v)
  unfolding use_device
  use_device-Leaves next v none later h = later v h
  use_device-Leaves next v (some sd) later h =
      return-Leaves (λ (sd : ℕ). Holds w [] (sd ∷ [])) w v sd h

  open_bpf-Leaves :
      (n : ℕ) (v : World)
      → Holds w [] [] v
      → Leaves w (λ (sd : ℕ). Holds w [] (sd ∷ [])) (open_bpf answers n v)
  unfolding open_bpf
  open_bpf-Leaves zero v h = fail-Leaves (λ (sd : ℕ). Holds w [] (sd ∷ [])) w v system_call_failed h
  open_bpf-Leaves (suc n) v h =
      chain-Leaves_sure w (OrNone (λ (p : ℕ). Holds w [] (p ∷ [])) (Holds w [] []))
        (λ (sd : ℕ). Holds w [] (sd ∷ [])) (open_descriptor answers v)
        (use_device answers (open_bpf answers n)) (open_descriptor-Returns answers w v [] [] h)
        (λ sd u k. use_device-Leaves (open_bpf answers n) u sd (open_bpf-Leaves n) k)

  held_of :
      (v : World) (ds : List ℕ) (u : World) (buffer : Option ℕ)
      → OrNone (IsGiven w v [] ds) (Holds w [] ds) buffer u
      → OrNone (λ (p : ℕ). Holds w (p ∷ []) ds) (Holds w [] ds) buffer u
  held_of v ds u none h = h
  held_of v ds u (some p) h = h.held

  -- What the choice of the mode leaves.
  abbrev Mode : ℕ → ℕ → Option (ℕ × ℕ) → World → Type 0
  Mode buffer sd none v = Holds w [] (sd ∷ []) v
  Mode buffer sd (some (a, b)) v = Holds w (b ∷ a ∷ buffer ∷ []) (sd ∷ []) v × (b ≢ a)

  buffered-Leaves :
      (sd : ℕ) (v : World) (buffer : Option ℕ)
      → OrNone (λ (p : ℕ). Holds w (p ∷ []) (sd ∷ [])) (Holds w [] (sd ∷ [])) buffer v
      → Leaves w (IsOpenBpf w) (buffered answers sd buffer v)
  unfolding buffered
  buffered-Leaves sd v none h = close-fail (IsOpenBpf w) w v sd out_of_memory h
  buffered-Leaves sd v (some buffer) h =
      let handler = λ (e : Exception). free buffer >> close sd >> fail e in
      chain-Leaves w (λ (_ : Unit {0}). Holds w (buffer ∷ []) (sd ∷ [])) (IsOpenBpf w)
        (handle handler (set_mode answers v))
        (λ (_ : Unit {0}). return (record { buffer = buffer; sd = sd; zero_copy = none }))
        (handle-Leaves v w (λ (_ : Unit {0}). Holds v [] [])
          (λ (_ : Unit {0}). Holds w (buffer ∷ []) (sd ∷ [])) (set_mode answers v) handler
          (set_mode-Leaves answers v v (Holds-refl v))
          (λ _ u k. Holds-trans w v u (buffer ∷ []) (sd ∷ []) [] [] h k)
          (λ e u k.
            free-close-fail (λ (_ : Unit {0}). Holds w (buffer ∷ []) (sd ∷ [])) w u buffer sd e
              (Holds-trans w v u (buffer ∷ []) (sd ∷ []) [] [] h k)))
        (λ _ u k.
          return-Leaves (IsOpenBpf w) w u (record { buffer = buffer; sd = sd; zero_copy = none }) k)

  choose_mode-Leaves :
      (sd buffer : ℕ) (v : World) (zbuf : Option (ℕ × ℕ))
      → Mode buffer sd zbuf v
      → Leaves w (IsOpenBpf w) (choose_mode answers sd buffer zbuf v)
  unfolding choose_mode
  choose_mode-Leaves sd buffer v none h =
      chain-Leaves_sure w (OrNone (IsGiven w v [] (sd ∷ [])) (Holds w [] (sd ∷ []))) (IsOpenBpf w)
        (malloc answers v) (buffered answers sd) (malloc-Returns answers w v [] (sd ∷ []) h)
        (λ buffer u k. buffered-Leaves sd u buffer (held_of v (sd ∷ []) u buffer k))
  choose_mode-Leaves sd buffer v (some (a, b)) h =
      return-Leaves (IsOpenBpf w) w v (record { buffer = buffer; sd = sd; zero_copy = some (a, b) })
        h

  zbuf-Mode :
      (buffer sd : ℕ) (v u : World) (zbuf : Option (ℕ × ℕ))
      → Holds w (buffer ∷ []) (sd ∷ []) v
      → IsSome v zbuf u
      → Mode buffer sd zbuf u
  zbuf-Mode buffer sd v u none h k = elim k [ ]
  zbuf-Mode buffer sd v u (some (a, b)) h k =
      (Holds-trans w v u (buffer ∷ []) (sd ∷ []) (b ∷ a ∷ []) [] h k.held, k.two)

  with_zbuf-Leaves :
      (sd : ℕ) (v : World) (buffer : Option ℕ)
      → OrNone (λ (p : ℕ). Holds w (p ∷ []) (sd ∷ [])) (Holds w [] (sd ∷ [])) buffer v
      → Leaves w (IsOpenBpf w) (with_zbuf answers sd buffer v)
  unfolding with_zbuf
  with_zbuf-Leaves sd v none h = close-fail (IsOpenBpf w) w v sd out_of_memory h
  with_zbuf-Leaves sd v (some buffer) h =
      let given_up = λ (_ : Exception). free buffer >> return none in
      chain-Leaves w (Mode buffer sd) (IsOpenBpf w) (handle given_up (use_zero_copy answers v))
        (choose_mode answers sd buffer)
        (handle-Leaves v w (IsSome v) (Mode buffer sd) (use_zero_copy answers v) given_up
          (use_zero_copy-Leaves answers v v (Holds-refl v))
          (λ zbuf u k. zbuf-Mode buffer sd v u zbuf h k)
          (λ e u k.
            chain-Leaves_sure w (λ (_ : Unit {0}). Holds w [] (sd ∷ [])) (Mode buffer sd)
              (free buffer u) (λ (_ : Unit {0}). return none)
              (free-first w u buffer [] (sd ∷ [])
                (Holds-trans w v u (buffer ∷ []) (sd ∷ []) [] [] h k))
              (λ _ u' k'. return-Leaves (Mode buffer sd) w u' none k')))
        (λ zbuf u k. choose_mode-Leaves sd buffer u zbuf k)

  -- The constructor on FreeBSD, whatever the system answers: where it throws, all buffers and the descriptor that it
  -- had are released; where it returns, the destructor releases the descriptor, the buffer and, with zero copy,
  -- the two buffers behind it, and nothing else. Nothing is released twice.
  pub new_bpf_receiver-Leaves :
      Leaves w
        (λ (r : Handles) (v : World). IsOpenBpf w r v × Returns (Released w) (delete_receiver r v))
        (new_bpf_receiver answers w)
  unfolding new_bpf_receiver
  new_bpf_receiver-Leaves =
      Leaves-also w (IsOpenBpf w)
        (λ (r : Handles) (v : World). Returns (Released w) (delete_receiver r v))
        (new_bpf_receiver answers w)
        (chain-Leaves w (λ (sd : ℕ). Holds w [] (sd ∷ [])) (IsOpenBpf w) (open_bpf answers 255 w)
          (λ (sd : ℕ). malloc answers >>= with_zbuf answers sd)
          (open_bpf-Leaves 255 w (Holds-refl w))
          (λ sd u k.
            chain-Leaves_sure w (OrNone (IsGiven w u [] (sd ∷ [])) (Holds w [] (sd ∷ [])))
              (IsOpenBpf w) (malloc answers u) (with_zbuf answers sd)
              (malloc-Returns answers w u [] (sd ∷ []) k)
              (λ buffer v h. with_zbuf-Leaves sd v buffer (held_of u (sd ∷ []) v buffer h))))
        (λ r v open_now. delete_receiver-IsOpenBpf w v r open_now)
