-- ===== src/System.antt =====
-- What src/raw_socket_sender.cpp and src/raw_socket_receiver.cpp hold of the system: blocks of `malloc` and open
-- descriptors. Each call asks the system, whose answers are a parameter.
pub mod Held
pub mod Throws
use dnsmeter.Base.{
  ℕ, ◌+◌, Bool, true, false, List, [], ◌∷◌, Option, none, some, ◌==◌, if◌then◌else◌,
}
use dnsmeter.Exceptions.{Exception, Result, ok, throw}

-- The blocks and descriptors that are held, under numbers that are not given twice. `misused` says that something
-- has been released that was not held.
pub record World : Type 0 where
  pub blocks : List ℕ
  pub descriptors : List ℕ
  pub fresh : ℕ
  pub calls : ℕ
  pub misused : Bool

-- Code that works on the system and may throw.
abbrev pub Act {ℓ} : Type ℓ → Type ℓ
Act A = World → Result A × World

abbrev pub return {ℓ} : {A : Type ℓ} → A → Act A
return a w = (ok a, w)

abbrev pub fail {ℓ} : {A : Type ℓ} → Exception → Act A
fail e w = (throw e, w)

-- What follows a call, on its outcome.
abbrev pub chain {ℓ κ} :
    {A : Type ℓ} {B : Type κ} → (A → Act B) → Result A × World → Result B × World
chain f (ok a, v) = f a v
chain f (throw e, v) = (throw e, v)

-- A handler for every exception, on an outcome.
abbrev pub handle {ℓ} : {A : Type ℓ} → (Exception → Act A) → Result A × World → Result A × World
handle handler (ok a, v) = (ok a, v)
handle handler (throw e, v) = handler e v

infixl 5 ◌>>=◌
infixr 5 ◌>>◌
abbrev pub ◌>>=◌ {ℓ κ} : {A : Type ℓ} {B : Type κ} → Act A → (A → Act B) → Act B
(m >>= f) w = chain f (m w)

abbrev pub ◌>>◌ {ℓ κ} : {A : Type ℓ} {B : Type κ} → Act A → Act B → Act B
m >> k = m >>= λ _. k

-- `try` and `catch`.
abbrev pub try_catch {ℓ} : {A : Type ℓ} → Act A → (Exception → Act A) → Act A
try_catch m handler w = handle handler (m w)

abbrev pub remove : ℕ → List ℕ → Option (List ℕ)
remove n [] = none
remove n (x ∷ xs) =
    let rest = remove n xs in
    if x == n then some xs else elim rest [ none ↦ none | some ys ↦ some (x ∷ ys) ]

unfoldable pub free : ℕ → Act (Unit {0})
free p w = elim (remove p w.blocks) [
  | none ↦ (ok tt, record w { misused = true })
  | some bs ↦ (ok tt, record w { blocks = bs })
]

unfoldable pub close : ℕ → Act (Unit {0})
close sd w = elim (remove sd w.descriptors) [
  | none ↦ (ok tt, record w { misused = true })
  | some ds ↦ (ok tt, record w { descriptors = ds })
]

module _ (answers : ℕ → Bool) where
  -- A call that is refused or not: `ioctl`, `fcntl` and `setsockopt`.
  unfoldable pub ask : Act Bool
  ask w = (ok (answers w.calls), record w { calls = w.calls + 1 })

  unfoldable pub malloc : Act (Option ℕ)
  malloc w =
      if answers w.calls
      then (
        ok (some w.fresh),
        record w { blocks = w.fresh ∷ w.blocks; fresh = w.fresh + 1; calls = w.calls + 1 },
      )
      else (ok none, record w { calls = w.calls + 1 })

  -- `socket` and `open`.
  unfoldable pub open_descriptor : Act (Option ℕ)
  open_descriptor w =
      if answers w.calls
      then (
        ok (some w.fresh),
        record w {
          descriptors = w.fresh ∷ w.descriptors;
          fresh = w.fresh + 1;
          calls = w.calls + 1;
        },
      )
      else (ok none, record w { calls = w.calls + 1 })
