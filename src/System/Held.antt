-- ===== src/System/Held.antt =====
-- What code of src/raw_socket_sender.cpp and src/raw_socket_receiver.cpp holds of the system after a call.
use mathlib.Core.List.{append_assoc}
use dnsmeter.Base.{
  ℕ, ◌+◌, ◌≡◌, ◌≢◌, refl, sym, ap, ◌∙◌, Bool, List, [], ◌∷◌, ◌++◌, Option, none, some, arith,
  Bool-cases, inl, inr,
}
use dnsmeter.Exceptions.{Exception, Result, ok, throw}
use dnsmeter.System.{World, Act, chain, handle, remove, free, close, ask, malloc, open_descriptor}

-- `v` holds the blocks and descriptors of `w`, and before them `bs` and `ds`; nothing has been misused since.
pub record Holds (w : World) (bs ds : List ℕ) (v : World) : Type 0 where
  pub blocks : v.blocks ≡ bs ++ w.blocks
  pub descriptors : v.descriptors ≡ ds ++ w.descriptors
  pub misused : v.misused ≡ w.misused

-- Code that may throw, started in `w`: what holds where it returns. Where it throws, it holds nothing more.
unfoldable pub Leaves {ℓ} : {A : Type ℓ} → World → (A → World → Type 0) → Result A × World → Type 0
Leaves w P (ok a, v) = P a v
Leaves w P (throw e, v) = Holds w [] [] v

-- Code that returns.
unfoldable pub Returns {ℓ} : {A : Type ℓ} → (A → World → Type 0) → Result A × World → Type 0
Returns P (ok a, v) = P a v
Returns P (throw e, v) = ⊥

-- A call that returns, and what follows it.
pub chain-Leaves_sure {ℓ κ} :
    {A : Type ℓ} {B : Type κ} (w : World) (P : A → World → Type 0) (Q : B → World → Type 0)
    (x : Result A × World) (f : A → Act B)
    → Returns P x
    → ((a : A) (u : World) → P a u → Leaves w Q (f a u))
    → Leaves w Q (chain f x)
unfolding Returns
chain-Leaves_sure w P Q (ok a, v) f first next = next a v first
chain-Leaves_sure w P Q (throw e, v) f first next = elim first [ ]

-- Two calls that return.
pub chain-Returns {ℓ κ} :
    {A : Type ℓ} {B : Type κ} (P : A → World → Type 0) (Q : B → World → Type 0)
    (x : Result A × World) (f : A → Act B)
    → Returns P x
    → ((a : A) (u : World) → P a u → Returns Q (f a u))
    → Returns Q (chain f x)
unfolding Returns
chain-Returns P Q (ok a, v) f first next = next a v first
chain-Returns P Q (throw e, v) f first next = elim first [ ]

-- A call that may throw, and what follows it.
pub chain-Leaves {ℓ κ} :
    {A : Type ℓ} {B : Type κ} (w : World) (P : A → World → Type 0) (Q : B → World → Type 0)
    (x : Result A × World) (f : A → Act B)
    → Leaves w P x
    → ((a : A) (u : World) → P a u → Leaves w Q (f a u))
    → Leaves w Q (chain f x)
unfolding Leaves
chain-Leaves w P Q (ok a, v) f first next = next a v first
chain-Leaves w P Q (throw e, v) f first next = first

-- A call under `try`, started in `v`: its handler takes over where it throws.
pub handle-Leaves {ℓ} :
    {A : Type ℓ} (v w : World) (P Q : A → World → Type 0) (x : Result A × World)
    (handler : Exception → Act A)
    → Leaves v P x
    → ((a : A) (u : World) → P a u → Q a u)
    → ((e : Exception) (u : World) → Holds v [] [] u → Leaves w Q (handler e u))
    → Leaves w Q (handle handler x)
unfolding Leaves
handle-Leaves v w P Q (ok a, u) handler first good caught = unfold Leaves in good a u first
handle-Leaves v w P Q (throw e, u) handler first good caught = caught e u first

pub Holds-trans :
    (w v u : World) (bs ds cs es : List ℕ)
    → Holds w bs ds v
    → Holds v cs es u
    → Holds w (cs ++ bs) (es ++ ds) u
Holds-trans w v u bs ds cs es h k = record {
  blocks = k.blocks ∙ ap (λ (l : List ℕ). cs ++ l) h.blocks ∙ sym (append_assoc cs bs w.blocks);
  descriptors =
      k.descriptors
      ∙ ap (λ (l : List ℕ). es ++ l) h.descriptors
      ∙ sym (append_assoc es ds w.descriptors);
  misused = k.misused ∙ h.misused;
}

remove-first : (p : ℕ) (bs : List ℕ) → remove p (p ∷ bs) ≡ some bs
remove-first p bs = ground arith

pub free-first :
    (w v : World) (p : ℕ) (bs ds : List ℕ)
    → Holds w (p ∷ bs) ds v
    → Returns (λ (_ : Unit {0}) (u : World). Holds w bs ds u) (free p v)
unfolding free Returns
free-first w v p bs ds h =
    let removed = ap (remove p) h.blocks ∙ remove-first p (bs ++ w.blocks) in
    rw (removed, free) (record { blocks = refl; descriptors = h.descriptors; misused = h.misused })

pub free-second :
    (w v : World) (q p : ℕ) (bs ds : List ℕ)
    → q ≢ p
    → Holds w (q ∷ p ∷ bs) ds v
    → Returns (λ (_ : Unit {0}) (u : World). Holds w (q ∷ bs) ds u) (free p v)
unfolding free Returns
free-second w v q p bs ds ne h =
    let later : remove p (q ∷ p ∷ (bs ++ w.blocks)) ≡ some (q ∷ (bs ++ w.blocks)) =
      ground (arith, ne, remove-first p (bs ++ w.blocks)) in
    let removed = ap (remove p) h.blocks ∙ later in
    rw (removed, free) (record { blocks = refl; descriptors = h.descriptors; misused = h.misused })

pub close-first :
    (w v : World) (p : ℕ) (bs ds : List ℕ)
    → Holds w bs (p ∷ ds) v
    → Returns (λ (_ : Unit {0}) (u : World). Holds w bs ds u) (close p v)
unfolding close Returns
close-first w v p bs ds h =
    let removed = ap (remove p) h.descriptors ∙ remove-first p (ds ++ w.descriptors) in
    rw (removed, close) (record { blocks = h.blocks; descriptors = refl; misused = h.misused })

-- What a call that asks for a block or a descriptor leaves.
abbrev pub OrNone : (ℕ → World → Type 0) → (World → Type 0) → Option ℕ → World → Type 0
OrNone P Q none v = Q v
OrNone P Q (some p) v = P p v

-- A block of `malloc`, with its number.
pub record IsGiven (w v : World) (bs ds : List ℕ) (p : ℕ) (u : World) : Type 0 where
  pub held : Holds w (p ∷ bs) ds u
  pub number : p ≡ v.fresh
  pub later : u.fresh ≡ v.fresh + 1

module _ (answers : ℕ → Bool) where
  pub ask-Returns :
      (w v : World) (bs ds : List ℕ)
      → Holds w bs ds v
      → Returns (λ (_ : Bool) (u : World). Holds w bs ds u) (ask answers v)
  unfolding ask Returns
  ask-Returns w v bs ds h = record {
    blocks = h.blocks;
    descriptors = h.descriptors;
    misused = h.misused;
  }

  pub malloc-Returns :
      (w v : World) (bs ds : List ℕ)
      → Holds w bs ds v
      → Returns (OrNone (IsGiven w v bs ds) (Holds w bs ds)) (malloc answers v)
  unfolding malloc Returns
  malloc-Returns w v bs ds h = elim (Bool-cases (answers v.calls)) [
    | inl given ↦ rw given (record {
      held = record {
        blocks = ap (λ (l : List ℕ). v.fresh ∷ l) h.blocks;
        descriptors = h.descriptors;
        misused = h.misused;
      };
      number = refl;
      later = refl;
    })
    | inr refused ↦
        rw refused (record { blocks = h.blocks; descriptors = h.descriptors; misused = h.misused })
  ]

  pub open_descriptor-Returns :
      (w v : World) (bs ds : List ℕ)
      → Holds w bs ds v
      → Returns
          (OrNone (λ (p : ℕ). Holds w bs (p ∷ ds)) (Holds w bs ds))
          (open_descriptor answers v)
  unfolding open_descriptor Returns
  open_descriptor-Returns w v bs ds h = elim (Bool-cases (answers v.calls)) [
    | inl given ↦ rw given (record {
      blocks = h.blocks;
      descriptors = ap (λ (l : List ℕ). v.fresh ∷ l) h.descriptors;
      misused = h.misused;
    })
    | inr refused ↦
        rw refused (record { blocks = h.blocks; descriptors = h.descriptors; misused = h.misused })
  ]

pub Holds-refl : (w : World) → Holds w [] [] w
Holds-refl w = record { blocks = refl; descriptors = refl; misused = refl }

pub Leaves-also {ℓ} :
    {A : Type ℓ} (w : World) (P Q : A → World → Type 0) (x : Result A × World)
    → Leaves w P x
    → ((a : A) (v : World) → P a v → Q a v)
    → Leaves w (λ (a : A) (v : World). P a v × Q a v) x
unfolding Leaves
Leaves-also w P Q (ok a, v) p q = (p, q a v p)
Leaves-also w P Q (throw e, v) p q = p
