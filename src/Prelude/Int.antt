-- ===== src/Prelude/Int.antt =====
-- Signed integers over the native numbers; `negsuc n` is -(n + 1).
use Prim.Native.Nat.{ℕ, zero, suc, ◌+◌, ◌-◌, ◌*◌, ◌%◌, ◌<◌}
use native.Mathlib.Omega.{arith}
use native.Mathlib.Numerals.{add-one}
use mathlib.Core.Path.{◌≡◌, refl}
use mathlib.Core.Bool.{Bool, true, false}
use yaagents_gateway.Prelude.Tests.{ltb, eqb, if◌then◌else◌}

pub data ℤ : Type 0 where
  pos : ℕ → ℤ
  negsuc : ℕ → ℤ

-- `n <= 0`
abbrev pub is_nonpos : ℤ → Bool
is_nonpos (pos n) = eqb n 0
is_nonpos (negsuc n) = true

-- `n < 0`
abbrev pub is_neg : ℤ → Bool
is_neg (pos n) = false
is_neg (negsuc n) = true

-- `n == 0`
abbrev pub is_zero : ℤ → Bool
is_zero (pos n) = eqb n 0
is_zero (negsuc n) = false

-- `n > k`
abbrev pub exceeds : ℤ → ℕ → Bool
exceeds (pos n) k = ltb k n
exceeds (negsuc n) k = false

-- The value of an integer that is known not to be negative.
abbrev pub to_ℕ : ℤ → ℕ
to_ℕ (pos n) = n
to_ℕ (negsuc n) = 0

-- A time moved by a duration, at the earliest to 0.
abbrev pub moved : ℕ → ℤ → ℕ
moved t (pos n) = t + n
moved t (negsuc n) = t - (n + 1)

abbrev times : ℕ → ℤ → ℤ
times k (pos n) = pos (n * k)
times k (negsuc n) = negsuc ((n + 1) * k - 1)

-- The int64 of a residue modulo 2 ^ 64.
abbrev signed : ℕ → ℤ
signed m = if ltb m 9223372036854775808 then pos m else negsuc (18446744073709551615 - m)

-- An int64 result: the residue modulo 2 ^ 64, from -2 ^ 63 to 2 ^ 63 - 1.
abbrev pub int64 : ℤ → ℤ
int64 (pos n) = signed (n % 18446744073709551616)
int64 (negsuc n) = signed (18446744073709551615 - n % 18446744073709551616)

-- `time.Duration(n) * time.Second` and `time.Duration(n) * time.Millisecond`, in nanoseconds.
unfoldable pub seconds : ℤ → ℤ
seconds n = int64 (times 1000000000 n)

unfoldable pub milliseconds : ℤ → ℤ
milliseconds n = int64 (times 1000000 n)

abbrev plus : ℕ → ℤ → ℤ
plus k (pos n) = pos (n + k)
plus k (negsuc n) = if ltb n k then pos (k - (n + 1)) else negsuc (n - k)

-- `d + k`
unfoldable pub longer_by : ℕ → ℤ → ℤ
longer_by k d = int64 (plus k d)

-- A number of seconds whose nanoseconds are within int64 is not wrapped.
pub seconds_fits :
    (n : ℕ) → n * 1000000000 < 9223372036854775808 → seconds (pos n) ≡ pos (n * 1000000000)
unfolding seconds
seconds_fits n small = ground arith

pub longer_fits : (k n : ℕ) → n + k < 9223372036854775808 → longer_by k (pos n) ≡ pos (n + k)
unfolding longer_by
longer_fits k n small = ground arith

-- `n + 1` and `n - 1`
abbrev pub inc : ℤ → ℤ
inc (pos n) = pos (n + 1)
inc (negsuc zero) = pos 0
inc (negsuc (suc n)) = negsuc n

abbrev pub dec : ℤ → ℤ
dec (pos zero) = negsuc 0
dec (pos (suc n)) = pos n
dec (negsuc n) = negsuc (n + 1)

pub dec-inc : (n : ℤ) → dec (inc n) ≡ n
dec-inc (pos n) = rw add-one
dec-inc (negsuc zero) = refl
dec-inc (negsuc (suc n)) = rw add-one
