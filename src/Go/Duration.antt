-- ===== src/Go/Duration.antt =====
-- time.Duration: a signed count of nanoseconds. (The int64 range is not modelled: the source
-- compares a duration with zero and adds it to a time, and its own constants are seconds.)
use go_health.Prelude.{ℕ, suc, zero, ◌+◌, ◌-◌, ◌*◌, Bool, true, false}

-- `negsuc n` is -(n + 1).
pub data ℤ : Type 0 where
  pos : ℕ → ℤ
  negsuc : ℕ → ℤ

-- d > 0
abbrev pub is_positive : ℤ → Bool
is_positive (pos zero) = false
is_positive (pos (suc n)) = true
is_positive (negsuc n) = false

-- t.Add(d)
abbrev pub add : ℕ → ℤ → ℕ
add t (pos n) = t + n
add t (negsuc n) = t - suc n

abbrev pub seconds : ℕ → ℤ
seconds n = pos (n * 1000000000)
