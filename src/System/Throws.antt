-- ===== src/System/Throws.antt =====
-- Ways in which constructors of src/raw_socket_sender.cpp and src/raw_socket_receiver.cpp end, after what they release.
use dnsmeter.Base.{ℕ, [], ◌∷◌}
use dnsmeter.Exceptions.{Exception}
use dnsmeter.System.{World, return, fail, ◌>>◌, free, close}
use dnsmeter.System.Held.{Holds, Leaves, chain-Leaves_sure, free-first, close-first}

module _ {ℓ} {A : Type ℓ} (Q : A → World → Type 0) where
  pub fail-Leaves : (w v : World) (e : Exception) → Holds w [] [] v → Leaves w Q (fail e v)
  unfolding Leaves
  fail-Leaves w v e h = h

  pub return-Leaves : (w v : World) (a : A) → Q a v → Leaves w Q (return a v)
  unfolding Leaves
  return-Leaves w v a q = q

  -- An exception after a block is released.
  pub free-fail :
      (w v : World) (p : ℕ) (e : Exception)
      → Holds w (p ∷ []) [] v
      → Leaves w Q ((free p >> fail e) v)
  free-fail w v p e h =
      chain-Leaves_sure w (λ (_ : Unit {0}). Holds w [] []) Q (free p v) (λ (_ : Unit {0}). fail e)
        (free-first w v p [] [] h) (λ a u k. fail-Leaves w u e k)

  -- An exception after a descriptor is closed.
  pub close-fail :
      (w v : World) (sd : ℕ) (e : Exception)
      → Holds w [] (sd ∷ []) v
      → Leaves w Q ((close sd >> fail e) v)
  close-fail w v sd e h =
      chain-Leaves_sure w (λ (_ : Unit {0}). Holds w [] []) Q (close sd v)
        (λ (_ : Unit {0}). fail e) (close-first w v sd [] [] h) (λ a u k. fail-Leaves w u e k)

  pub close-free-fail :
      (w v : World) (p sd : ℕ) (e : Exception)
      → Holds w (p ∷ []) (sd ∷ []) v
      → Leaves w Q ((close sd >> free p >> fail e) v)
  close-free-fail w v p sd e h =
      chain-Leaves_sure w (λ (_ : Unit {0}). Holds w (p ∷ []) []) Q (close sd v)
        (λ (_ : Unit {0}). free p >> fail e) (close-first w v sd (p ∷ []) [] h)
        (λ a u k. free-fail w u p e k)

  pub free-close-fail :
      (w v : World) (p sd : ℕ) (e : Exception)
      → Holds w (p ∷ []) (sd ∷ []) v
      → Leaves w Q ((free p >> close sd >> fail e) v)
  free-close-fail w v p sd e h =
      chain-Leaves_sure w (λ (_ : Unit {0}). Holds w [] (sd ∷ [])) Q (free p v)
        (λ (_ : Unit {0}). close sd >> fail e) (free-first w v p [] (sd ∷ []) h)
        (λ a u k. close-fail w u sd e k)
