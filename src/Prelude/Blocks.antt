-- ===== src/Prelude/Blocks.antt =====
-- Rounding a division up, as code does that cuts a length into blocks.
use Prim.Native.Nat.{ℕ, ◌+◌, ◌-◌, ◌*◌, ◌/◌, ◌≤◌, ◌<◌}
use native.Mathlib.Nat.{div-lt_iff_lt-mul, mod-lt, mod-add-div'}
use native.Mathlib.Omega.{arith}

pub le-ceil-mul : (n c : ℕ) → 0 < c → n ≤ (n + c - 1) / c * c
le-ceil-mul n c h = omega (arith, mod-add-div' (n + c - 1) c, mod-lt (n + c - 1) h)

pub ceil-le : (n c k : ℕ) → 0 < c → n ≤ k * c → (n + c - 1) / c ≤ k
ceil-le n c k h fits =
    omega (arith, (div-lt_iff_lt-mul {k = c} {x = n + c - 1} {y = k + 1} h).1 below)
  where
    below : n + c - 1 < (k + 1) * c
    below = grind arith
