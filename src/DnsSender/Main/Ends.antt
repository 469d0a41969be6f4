-- ===== src/DnsSender/Main/Ends.antt =====
-- src/dns_sender.cpp: every way in which the loop of `main` over the rates ends.
use dnsmeter.Base.{ℕ, zero, suc, true, ◌<◌, ◌≡◌, ◌⊎◌, List, [], ◌∷◌, Option, none, some, length}
use dnsmeter.DnsSenderThread.{DnsSenderThread}
use dnsmeter.DnsSender.{Results}
use dnsmeter.DnsSender.Main.{Watched, Output}
use dnsmeter.DnsSender.Main.Publishes.{Publishes}

-- The run number `shown`, from 1 on, is interrupted.
abbrev pub StopsAt : ℕ → List (List DnsSenderThread → Watched) → Type 0
StopsAt shown [] = ⊥
StopsAt zero (meets ∷ world) = ⊥
StopsAt (suc zero) (meets ∷ world) = (us : List DnsSenderThread) × ((meets us).stopped ≡ true)
StopsAt (suc (suc shown)) (meets ∷ world) = StopsAt (suc shown) world

-- The exit code is 0 with results for all rates, or for those up to the one whose run is interrupted, or it is 1
-- with results for the rates before one that cannot be set up.
abbrev pub Exits : ℕ → ℕ → ℕ → List (List DnsSenderThread → Watched) → Type 0
Exits code shown rates world =
    ((code ≡ 0) × (shown ≡ rates))
    ⊎ (((code ≡ 0) × StopsAt shown world) ⊎ ((code ≡ 1) × (shown < rates)))

-- An end after `rates` rates.
abbrev pub IsEnd : ℕ → ℕ → List (List DnsSenderThread → Watched) → Output → ℕ × Output → Type 0
IsEnd runtime rates world before (code, after) =
    (rs : List Results) × Publishes runtime before rs after × Exits code (length rs) rates world

unfoldable OnEnd : (ℕ × Output → Type 0) → Option (ℕ × Output) → Type 0
OnEnd P none = Unit
OnEnd P (some end) = P end
