-- ===== src/Base/Int.antt =====
-- Python's integers, and moments of the clock moved by a timedelta.
use Prim.Native.Nat.{ℕ, suc, ◌+◌, ◌-◌, ◌≤◌}
use mathlib.Core.Path.{◌≡◌}
use mathlib.Core.Bool.{Bool, true, false, false≢true}
use native.Mathlib.Omega.{arith}

-- `negsuc n` is -(n + 1).
pub data ℤ : Type 0 where
  pos : ℕ → ℤ
  negsuc : ℕ → ℤ

-- now + delta, in microseconds since the first moment that a datetime can be. Below that moment Python
-- raises OverflowError, where this stays at 0: the bounds of the schemas, all of the kind ge=0, keep
-- negative deltas out.
abbrev pub later : ℕ → ℤ → ℕ
later now (pos d) = now + d
later now (negsuc d) = now - suc d

abbrev pub is_nonnegative : ℤ → Bool
is_nonnegative (pos d) = true
is_nonnegative (negsuc d) = false

pub later-le : (now : ℕ) (d : ℤ) → is_nonnegative d ≡ true → now ≤ later now d
later-le now (pos d) h = omega arith
later-le now (negsuc d) h = absurd (false≢true h)
