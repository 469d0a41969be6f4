-- ===== src/RawSocketReceiver/Resources/ZeroCopy.antt =====
-- src/raw_socket_receiver.cpp: the zero copy buffers of FreeBSD.
use dnsmeter.Base.{ℕ, ◌≢◌, Bool, true, false, [], ◌∷◌, Option, none, some, arith}
use dnsmeter.Exceptions.{out_of_memory, system_call_failed, failed_to_initialize_packetfilter}
use dnsmeter.System.{World, Act, return, ◌>>=◌, ◌>>◌, free, ask, malloc}
use dnsmeter.System.Held.{
  Holds, IsGiven, OrNone, Leaves, chain-Leaves_sure, chain-Leaves, free-first, free-second,
  ask-Returns, malloc-Returns,
}
use dnsmeter.System.Throws.{fail-Leaves, return-Leaves, free-fail}
use dnsmeter.RawSocketReceiver.Resources.{
  require, set_zbuf, alloc_second, alloc_first, try_alloc_zero_copy_buffer, or_give_up, try_again,
  init_zero_copy_buffer,
}

-- The two buffers are held, and are not the same.
pub record IsZbuf (w : World) (zbuf : ℕ × ℕ) (v : World) : Type 0 where
  pub held : Holds w (zbuf.1 ∷ zbuf.0 ∷ []) [] v
  pub two : zbuf.1 ≢ zbuf.0

abbrev pub OrNothing : World → Option (ℕ × ℕ) → World → Type 0
OrNothing w none v = Holds w [] [] v
OrNothing w (some zbuf) v = IsZbuf w zbuf v

module _ (answers : ℕ → Bool) where
  set_zbuf-Leaves :
      (w v : World) (a b : ℕ) (accepted : Bool)
      → IsZbuf w (a, b) v
      → Leaves w (OrNothing w) (set_zbuf answers a b accepted v)
  unfolding set_zbuf
  set_zbuf-Leaves w v a b true h = return-Leaves (OrNothing w) w v (some (a, b)) h
  set_zbuf-Leaves w v a b false h =
      chain-Leaves_sure w (λ (_ : Unit {0}). Holds w (b ∷ []) []) (OrNothing w) (free a v)
        (λ (_ : Unit {0}). free b >> return none) (free-second w v b a [] [] h.two h.held)
        (λ _ u k.
          chain-Leaves_sure w (λ (_ : Unit {0}). Holds w [] []) (OrNothing w) (free b u)
            (λ (_ : Unit {0}). return none) (free-first w u b [] [] k)
            (λ _ u' k'. return-Leaves (OrNothing w) w u' none k'))

  alloc_second-Leaves :
      (w u v : World) (a : ℕ) (b : Option ℕ)
      → IsGiven w u [] [] a v
      → (v' : World) → OrNone (IsGiven w v (a ∷ []) []) (Holds w (a ∷ []) []) b v'
      → Leaves w (OrNothing w) (alloc_second answers a b v')
  unfolding alloc_second
  alloc_second-Leaves w u v a none given v' h = free-fail (OrNothing w) w v' a out_of_memory h
  alloc_second-Leaves w u v a (some b) given v' h =
      chain-Leaves_sure w (λ (_ : Bool). Holds w (b ∷ a ∷ []) []) (OrNothing w) (ask answers v')
        (set_zbuf answers a b) (ask-Returns answers w v' (b ∷ a ∷ []) [] h.held)
        (λ c u' k.
          set_zbuf-Leaves w u' a b c
            (record { held = k; two = ground (arith, given.number, given.later, h.number) }))

  alloc_first-Leaves :
      (w u v : World) (a : Option ℕ)
      → OrNone (IsGiven w u [] []) (Holds w [] []) a v
      → Leaves w (OrNothing w) (alloc_first answers a v)
  unfolding alloc_first
  alloc_first-Leaves w u v none h = fail-Leaves (OrNothing w) w v out_of_memory h
  alloc_first-Leaves w u v (some a) given =
      chain-Leaves_sure w (OrNone (IsGiven w v (a ∷ []) []) (Holds w (a ∷ []) [])) (OrNothing w)
        (malloc answers v) (alloc_second answers a)
        (malloc-Returns answers w v (a ∷ []) [] given.held)
        (λ b v' h. alloc_second-Leaves w u v a b given v' h)

  try_alloc_zero_copy_buffer-Leaves :
      (w v : World)
      → Holds w [] [] v
      → Leaves w (OrNothing w) (try_alloc_zero_copy_buffer answers v)
  unfolding try_alloc_zero_copy_buffer
  try_alloc_zero_copy_buffer-Leaves w v h =
      chain-Leaves_sure w (OrNone (IsGiven w v [] []) (Holds w [] [])) (OrNothing w)
        (malloc answers v) (alloc_first answers) (malloc-Returns answers w v [] [] h)
        (λ a u k. alloc_first-Leaves w v u a k)

  or_give_up-Leaves :
      (w v : World) (zbuf : Option (ℕ × ℕ))
      → OrNothing w zbuf v
      → Leaves w (IsZbuf w) (or_give_up answers zbuf v)
  unfolding or_give_up
  or_give_up-Leaves w v (some zbuf) h = return-Leaves (IsZbuf w) w v zbuf h
  or_give_up-Leaves w v none h = fail-Leaves (IsZbuf w) w v failed_to_initialize_packetfilter h

  try_again-Leaves :
      (w v : World) (zbuf : Option (ℕ × ℕ))
      → OrNothing w zbuf v
      → Leaves w (IsZbuf w) (try_again answers zbuf v)
  unfolding try_again
  try_again-Leaves w v (some zbuf) h = return-Leaves (IsZbuf w) w v zbuf h
  try_again-Leaves w v none h =
      chain-Leaves w (OrNothing w) (IsZbuf w) (try_alloc_zero_copy_buffer answers v)
        (or_give_up answers) (try_alloc_zero_copy_buffer-Leaves w v h)
        (λ again u k. or_give_up-Leaves w u again k)

  require-Leaves :
      (w v : World) (b : Bool)
      → Holds w [] [] v
      → Leaves w (λ (_ : Unit {0}). Holds w [] []) (require b v)
  require-Leaves w v true h = return-Leaves (λ (_ : Unit {0}). Holds w [] []) w v tt h
  require-Leaves w v false h =
      fail-Leaves (λ (_ : Unit {0}). Holds w [] []) w v system_call_failed h

  -- A call that must not be refused, and what follows it.
  pub required-then {ℓ} :
      {B : Type ℓ} (w v : World) (Q : B → World → Type 0) (next : Act B)
      → Holds w [] [] v
      → ((u : World) → Holds w [] [] u → Leaves w Q (next u))
      → Leaves w Q ((ask answers >>= λ b. require b >>= λ (_ : Unit {0}). next) v)
  required-then w v Q next h k =
      chain-Leaves_sure w (λ (_ : Bool). Holds w [] []) Q (ask answers v)
        (λ b. require b >>= λ (_ : Unit {0}). next) (ask-Returns answers w v [] [] h)
        (λ b u h'.
          chain-Leaves w (λ (_ : Unit {0}). Holds w [] []) Q (require b u) (λ (_ : Unit {0}). next)
            (require-Leaves w u b h') (λ _ u' h''. k u' h''))

  pub asked-Leaves :
      (w v : World)
      → Holds w [] [] v
      → Leaves w (λ (_ : Unit {0}). Holds w [] []) ((ask answers >>= require) v)
  asked-Leaves w v h =
      chain-Leaves_sure w (λ (_ : Bool). Holds w [] []) (λ (_ : Unit {0}). Holds w [] [])
        (ask answers v) require (ask-Returns answers w v [] [] h) (λ b u k. require-Leaves w u b k)

  pub init_zero_copy_buffer-Leaves :
      (w v : World) → Holds w [] [] v → Leaves w (IsZbuf w) (init_zero_copy_buffer answers v)
  unfolding init_zero_copy_buffer
  init_zero_copy_buffer-Leaves w v h = required-then w v (IsZbuf w) _ h (λ u k.
      required-then w u (IsZbuf w) _ k (λ u' k'.
        chain-Leaves w (OrNothing w) (IsZbuf w) (try_alloc_zero_copy_buffer answers u')
          (try_again answers) (try_alloc_zero_copy_buffer-Leaves w u' k')
          (λ zbuf v' h'. try_again-Leaves w v' zbuf h')))
