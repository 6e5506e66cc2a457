-- ===== src/Examples/Floats.antt =====
-- Operations on floats for the examples: whole numbers of seconds.
use agentops_workflow_platfo.Base.{ℕ, zero, suc, ◌+◌, ◌-◌, ◌*◌, ltb, leb}
use agentops_workflow_platfo.Base.Int.{pos}
use agentops_workflow_platfo.Base.Float.{FloatOps}

abbrev power : ℕ → ℕ → ℕ
power a zero = 1
power a (suc n) = a * power a n

abbrev pub floats : FloatOps
floats = record {
  less = ltb;
  less_equal = leb;
  plus = λ a b. a + b;
  minus = λ a b. a - b;
  times = λ a b. a * b;
  power = power;
  of_number = λ n. n;
  timedelta = λ x. pos x;
}
