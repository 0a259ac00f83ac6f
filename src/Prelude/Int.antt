-- ===== src/Prelude/Int.antt =====
-- Go's `int` where the program tests its sign, and what a page size is that is clamped.
use Prim.Native.Nat.{ℕ, ◌≤◌, ◌<◌}
use mathlib.Core.Path.{◌≡◌}
use mathlib.Core.Logic.{◌⊎◌}

-- `negsuc n` is -(n + 1).
pub data ℤ : Type 0 where
  pos : ℕ → ℤ
  negsuc : ℕ → ℤ

-- The page size `n` for an asked one: `usual` where it is not over 0, and `most` where it is over `most`
abbrev pub IsClamped : ℕ → ℕ → ℤ → ℕ → Type 0
IsClamped usual most (negsuc k) n = n ≡ usual
IsClamped usual most (pos k) n =
    ((k ≡ 0) × (n ≡ usual)) ⊎ (((0 < k) × (k ≤ most) × (n ≡ k)) ⊎ ((most < k) × (n ≡ most)))
