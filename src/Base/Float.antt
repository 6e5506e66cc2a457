-- ===== src/Base/Float.antt =====
-- Python's floats and integers are given from outside: a float is its bit pattern, and the
-- operations that the program calls on it are a record. No law of them is assumed here.
use Prim.Native.Nat.{ℕ}
use mathlib.Core.Bool.{Bool}
use agentops_workflow_platfo.Base.Int.{ℤ}

abbrev pub Float : Type 0
Float = ℕ

-- `plus`, `minus`, `times`, `power` are `+ - * **` on floats, `less` and `less_equal` are `<` and `<=`, `of_number` is the
-- conversion of a nonnegative integer, and `timedelta` is `timedelta(seconds=x)` in microseconds, which may be negative.
pub record FloatOps : Type 0 where
  pub less : Float → Float → Bool
  pub less_equal : Float → Float → Bool
  pub plus : Float → Float → Float
  pub minus : Float → Float → Float
  pub times : Float → Float → Float
  pub power : Float → ℕ → Float
  pub of_number : ℕ → Float
  pub timedelta : Float → ℤ
