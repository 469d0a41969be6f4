-- ===== src/PayloadFile/RoundRobin.antt =====
-- src/payload_file.cpp: `getQuery` hands the queries out in turn.
use dnsmeter.Base.{
  ℕ, zero, suc, ◌+◌, ◌%◌, ◌<◌, ◌≡◌, ◌∙◌, refl, sym, ap, inl, inr, List, [], ◌∷◌, Option, some,
  arith, length, get_elem?, ◌==◌, if◌then◌else◌,
}
use mathlib.Core.Option
use mathlib.Core.List.{map}
use native.Mathlib.Nat.{mod-lt, mod-add-mod, mod_self, mod-eq_of_lt, eq-or-lt_of_le, add-zero}
use dnsmeter.Pplib.{ByteArray}
use dnsmeter.PayloadFile.{PayloadFile, get_query}

-- The iterator stands at a query.
abbrev pub IsOpen : PayloadFile → Type 0
IsOpen f = f.it < length f.querycache

-- The queries of `n` calls of `getQuery`, and the file after them.
abbrev pub get_queries : ℕ → PayloadFile → Option (List ByteArray × PayloadFile)
get_queries zero f = some ([], f)
get_queries (suc n) f =
    Option.bind (get_query f) λ (q, g). Option.map (λ (qs, h). (q ∷ qs, h)) (get_queries n g)

-- Element `k` of the list gone round and round.
abbrev pub in_turn : List ByteArray → ℕ → Option ByteArray
in_turn cache k = get_elem? cache (k % length cache)

abbrev pub turns : List ByteArray → ℕ → ℕ → List (Option ByteArray)
turns cache k zero = []
turns cache k (suc n) = in_turn cache k ∷ turns cache (k + 1) n

step_around : (a l : ℕ) → a < l → (if a + 1 == l then 0 else a + 1) ≡ (a + 1) % l
step_around a l h = elim (eq-or-lt_of_le h) [
  | inl e ↦ let last : a + 1 ≡ l = omega arith in rw last (ground (arith, mod_self l))
  | inr below ↦ ground (arith, mod-eq_of_lt {n = a + 1} {m = l})
]

next_turn : (k l : ℕ) → 0 < l → (if k % l + 1 == l then 0 else k % l + 1) ≡ (k + 1) % l
next_turn k l pos = step_around (k % l) l (mod-lt k pos) ∙ mod-add-mod k l 1

get_elem?-some :
    (xs : List ByteArray) (i : ℕ) → i < length xs → (x : ByteArray) × (get_elem? xs i ≡ some x)
get_elem?-some [] i h = absurd (omega arith)
get_elem?-some (x ∷ xs) zero h = (x, refl)
get_elem?-some (x ∷ xs) (suc i) h = get_elem?-some xs i (omega arith)

at_turn :
    (f : PayloadFile) (k : ℕ)
    → 0 < length f.querycache
    → f.it ≡ k % length f.querycache
    → (q : ByteArray) → in_turn f.querycache k ≡ some q
    → get_query f ≡ some (q, record f { it = (k + 1) % length f.querycache })
unfolding get_query
at_turn f k pos turn q found =
    simp (turn, found)
      (ap (λ (i : ℕ). some (q, record f { it = i })) (next_turn k (length f.querycache) pos))

-- One call at turn `k`.
pub get_query-turn :
    (f : PayloadFile) (k : ℕ)
    → 0 < length f.querycache
    → f.it ≡ k % length f.querycache
    → (q : ByteArray) × (in_turn f.querycache k ≡ some q)
      × (get_query f ≡ some (q, record f { it = (k + 1) % length f.querycache }))
unfolding get_query
get_query-turn f k pos turn =
    let (q, found) = get_elem?-some f.querycache (k % length f.querycache) (mod-lt k pos) in
    (q, found, at_turn f k pos turn q found)

-- The calls of `getQuery` on a file that holds queries all succeed: they return the queries one after
-- the other from where the iterator stands, and start again at the first one behind the last.
pub get_queries-turns :
    (n : ℕ) (f : PayloadFile) (k : ℕ)
    → 0 < length f.querycache
    → f.it ≡ k % length f.querycache
    → (qs : List ByteArray) × (g : PayloadFile) × (get_queries n f ≡ some (qs, g))
      × (map some qs ≡ turns f.querycache k n)
      × (g.it ≡ (k + n) % length f.querycache)
      × (g.querycache ≡ f.querycache)
unfolding Option.bind
get_queries-turns zero f k pos turn =
    ([], f, refl, refl, turn ∙ ap (λ (t : ℕ). t % length f.querycache) (sym (add-zero k)), refl)
get_queries-turns (suc n) f k pos turn =
    let (q, found, called) = get_query-turn f k pos turn in
    let g = record f { it = (k + 1) % length f.querycache } in
    let (qs, h, rest, order, at, same) = get_queries-turns n g (k + 1) pos refl in
    let count : k + 1 + n ≡ k + suc n = omega arith in
    (
      q ∷ qs,
      h,
      rw called (rw rest),
      cc (found, order),
      at ∙ ap (λ (t : ℕ). t % length f.querycache) count,
      same,
    )
