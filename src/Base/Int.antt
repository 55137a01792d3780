-- ===== src/Base/Int.antt =====
-- The integers of C, as a sign and a number: `negsuc n` is -(n + 1).
use Prim.Native.Nat.{ℕ, zero, suc, ◌+◌, ◌-◌, ◌^◌, ◌%◌, ◌<◌}
use mathlib.Core.Path.{◌≡◌}
use native.Mathlib.Omega.{arith}
use systems_projects.Base.Tests.{◌==◌, if◌then◌else◌}

pub data ℤ : Type 0 where
  pos : ℕ → ℤ
  negsuc : ℕ → ℤ

-- -n
abbrev pub minus : ℕ → ℤ
minus zero = pos 0
minus (suc n) = negsuc n

abbrev pub negate : ℤ → ℤ
negate (pos n) = minus n
negate (negsuc n) = pos (suc n)

-- `%` of C rounds towards zero: the result has the sign of the left side.
abbrev pub rem : ℤ → ℕ → ℤ
rem (pos n) m = pos (n % m)
rem (negsuc n) m = minus (suc n % m)

-- `-k` of an `int`: -INT_MIN does not fit, and comes out as INT_MIN on a machine that wraps around.
unfoldable pub negate_int : ℤ → ℤ
negate_int (pos n) = minus n
negate_int (negsuc n) = if n == 2 ^ 31 - 1 then negsuc n else pos (suc n)

-- The `int`s that have an opposite: all but INT_MIN.
abbrev pub HasOpposite : ℤ → Type 0
HasOpposite (pos n) = n < 2 ^ 31
HasOpposite (negsuc n) = n + 1 < 2 ^ 31

pub negate_int-negate : (k : ℤ) → HasOpposite k → negate_int k ≡ negate k
unfolding negate_int
negate_int-negate (pos n) h = ground arith
negate_int-negate (negsuc n) h = ground (arith, h)
