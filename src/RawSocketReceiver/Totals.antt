-- ===== src/RawSocketReceiver/Totals.antt =====
-- src/raw_socket_receiver.cpp: what the counters say of the answers that `count_packet` has counted.
use dnsmeter.Base.{
  ℕ, suc, ◌+◌, ◌≤◌, ◌<◌, ◌≡◌, ◌⊎◌, inl, refl, Bool, List, [], ◌∷◌, map, Option, arith, length, sum,
  All, ◌==◌, if◌then◌else◌, htons, load16, Memory,
}
use dnsmeter.Query.{TimeVal, get_query_rtt}
use dnsmeter.RawSocketReceiver.{Counter, clear, rcode, tc, count_packet}

-- An answer as it is counted: the clock, the frame and its size.
pub record Answer : Type 0 where
  pub clock : Option TimeVal
  pub frame : Memory
  pub size : ℕ

abbrev pub rtt : Answer → ℕ
rtt a = get_query_rtt a.clock (htons (load16 a.frame 42))

abbrev pub count_answer : Answer → Counter → Counter
count_answer a c = count_packet c a.clock a.frame 0 a.size

abbrev pub count_all : List Answer → Counter → Counter
count_all [] c = c
count_all (a ∷ as') c = count_all as' (count_answer a c)

-- How many elements pass a test.
abbrev pub count {ℓ} : {A : Type ℓ} → (A → Bool) → List A → ℕ
count p [] = 0
count p (x ∷ xs) = if p x then suc (count p xs) else count p xs

-- The numbers of `c'` are those of `c` and of the answers.
pub record IsTotal (c : Counter) (answers : List Answer) (c' : Counter) : Type 0 where
  pub packages : c'.num_pkgs ≡ c.num_pkgs + length answers
  pub bytes : c'.bytes_rcv ≡ c.bytes_rcv + sum (map (λ (a : Answer). a.size) answers)
  pub truncations : c'.truncated ≡ c.truncated + count (λ (a : Answer). tc a.frame 0) answers
  pub total : c'.rtt_total ≡ c.rtt_total + sum (map rtt answers)
  pub codes :
      (k : ℕ) → c'.rcodes k ≡ c.rcodes k + count (λ (a : Answer). k == rcode a.frame 0) answers

pub count_all-IsTotal :
    (answers : List Answer) (c : Counter) → IsTotal c answers (count_all answers c)
unfolding count_packet
count_all-IsTotal [] c = record {
  packages = omega arith;
  bytes = omega arith;
  truncations = omega arith;
  total = omega arith;
  codes = λ k. omega arith;
}
count_all-IsTotal (a ∷ as') c =
    let t = count_all-IsTotal as' (count_answer a c) in
    record {
      packages = omega (arith, t.packages);
      bytes = omega (arith, t.bytes);
      truncations = ground (arith, t.truncations);
      total = omega (arith, t.total);
      codes = λ k. ground (arith, t.codes k);
    }

abbrev pub Occurs : ℕ → List ℕ → Type 0
Occurs x [] = ⊥
Occurs x (y ∷ ys) = (x ≡ y) ⊎ Occurs x ys

-- `m` is the largest number of `xs`, and `l` the smallest.
pub record IsMaximum (m : ℕ) (xs : List ℕ) : Type 0 where
  pub above : All (λ x. x ≤ m) xs
  pub attained : Occurs m xs

pub record IsMinimum (l : ℕ) (xs : List ℕ) : Type 0 where
  pub below : All (λ x. l ≤ x) xs
  pub attained : Occurs l xs

count_all-max :
    (answers : List Answer) (c : Counter)
    → let m = (count_all answers c).rtt_max in
      All (λ x. x ≤ m) (map rtt answers)
      × (c.rtt_max ≤ m)
      × ((m ≡ c.rtt_max) ⊎ Occurs m (map rtt answers))
unfolding count_packet
count_all-max [] c = (tt, omega arith, inl refl)
count_all-max (a ∷ as') c =
    let (all, up, from) = count_all-max as' (count_answer a c) in
    ((ground (arith, up), all), ground (arith, up), ground (arith, from))

count_all-min :
    (answers : List Answer) (c : Counter)
    → 0 < c.rtt_min
    → All (λ x. 0 < x) (map rtt answers)
    → let l = (count_all answers c).rtt_min in
      All (λ x. l ≤ x) (map rtt answers)
      × (l ≤ c.rtt_min)
      × ((l ≡ c.rtt_min) ⊎ Occurs l (map rtt answers))
unfolding count_packet
count_all-min [] c pos all = (tt, omega arith, inl refl)
count_all-min (a ∷ as') c pos (here, later) =
    let (all, down, from) = count_all-min as' (count_answer a c) (ground arith) later in
    ((ground (arith, down), all), ground (arith, down), ground (arith, from))

-- From cleared counters on, one answer or more leaves the longest round trip time in `rtt_max`.
pub count_all-IsMaximum :
    (a : Answer) (as' : List Answer) (c : Counter)
    → IsMaximum (count_all (a ∷ as') (clear c)).rtt_max (map rtt (a ∷ as'))
unfolding count_packet clear
count_all-IsMaximum a as' c =
    let (all, up, from) = count_all-max as' (count_answer a (clear c)) in
    record { above = (ground (arith, up), all); attained = ground (arith, from) }

-- From cleared counters on, one answer or more leaves the shortest round trip time in `rtt_min`, where none of
-- them is 0.
pub count_all-IsMinimum :
    (a : Answer) (as' : List Answer) (c : Counter)
    → All (λ x. 0 < x) (map rtt (a ∷ as'))
    → IsMinimum (count_all (a ∷ as') (clear c)).rtt_min (map rtt (a ∷ as'))
unfolding count_packet clear
count_all-IsMinimum a as' c (here, later) =
    let (all, down, from) = count_all-min as' (count_answer a (clear c)) (ground arith) later in
    record { below = (ground (arith, down), all); attained = ground (arith, from) }
