-- ===== src/Base/Floats.antt =====
-- The floating point numbers of IEEE 754, as far as they are positive and neither denormal nor infinite: a value is
-- a fraction, and an operation rounds its exact result to a number of binary digits, to the nearest one, and of two
-- as near to the even one.
use Prim.Native.Nat.{ℕ, zero, suc, ◌+◌, ◌*◌, ◌/◌, ◌%◌, ◌^◌, ◌-◌}
use dnsmeter.Base.Tests.{ltb, leb, ◌==◌, if◌then◌else◌}

-- A fraction doubled and halved until it has `digits` digits before the point, with what it was multiplied by and
-- what it was divided by.
unfoldable pub scale : ℕ → ℕ → ℕ → ℕ → ℕ → ℕ → ℕ × ℕ × ℕ × ℕ
scale zero digits num den up down = (num, den, up, down)
scale (suc fuel) digits num den up down =
    let low = ltb num (2 ^ (digits - 1) * den) in
    let high = leb (2 ^ digits * den) num in
    scale fuel digits (if low then 2 * num else num) (if high then 2 * den else den)
      (if low then 2 * up else up) (if high then 2 * down else down)

-- The quotient, to the nearest number, and to the even one of two.
unfoldable pub nearest : ℕ → ℕ → ℕ
nearest num den =
    let q = num / den in
    let r = 2 * (num % den) in if ltb r den then q else if ltb den r then q + 1 else q + q % 2

-- `num / den` in so many digits. 128 steps scale what lies between `2 ^ -64` and `2 ^ 64`.
unfoldable pub rounded : ℕ → ℕ → ℕ → ℕ × ℕ
rounded digits num den =
    let (n, d, up, down) = scale 128 digits num den 1 1 in
    if num == 0 then (0, 1) else (nearest n d * down, up)

-- `float` and `double`.
abbrev pub single : ℕ → ℕ → ℕ × ℕ
single num den = rounded 24 num den

abbrev pub double : ℕ → ℕ → ℕ × ℕ
double num den = rounded 53 num den
