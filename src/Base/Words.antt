-- ===== src/Base/Words.antt =====
-- Machine words as native numbers below a power of two: `atomic_t` is an `int`, `atomic64_t` an
-- `s64`, each kept as its bit pattern. Also `int` results, as a signed number.
use Prim.Native.Nat.{ℕ, ◌+◌, ◌-◌, ◌%◌, ◌^◌, min}
use mathlib.Core.Option.{Option, none, some}
use soa_repo.Base.Tests.{ltb, if◌then◌else◌}

-- `negsuc n` is -(n + 1).
pub data ℤ : Type 0 where
  pos : ℕ → ℤ
  negsuc : ℕ → ℤ

abbrev pub u32 : ℕ → ℕ
u32 n = n % 2 ^ 32

abbrev pub u64 : ℕ → ℕ
u64 n = n % 2 ^ 64

-- The number that the pattern of an `int` stands for.
abbrev pub int_of : ℕ → ℤ
int_of w = if ltb (u32 w) (2 ^ 31) then pos (u32 w) else negsuc (2 ^ 32 - u32 w - 1)

-- The number that the pattern of an `s64` stands for.
abbrev pub long_of : ℕ → ℤ
long_of w = if ltb (u64 w) (2 ^ 63) then pos (u64 w) else negsuc (2 ^ 64 - u64 w - 1)

-- The smaller of two signed bounds, as a number of entries to allocate: a negative one becomes a size that
-- is too large for kmalloc.
abbrev pub room : ℤ → ℤ → Option ℕ
room (pos a) (pos b) = some (min a b)
room (pos a) (negsuc b) = none
room (negsuc a) b = none

-- An `int` widened to `unsigned long`: the sign is extended.
abbrev pub sign_extend : ℕ → ℕ
sign_extend w = if ltb w (2 ^ 31) then w else w + 2 ^ 64 - 2 ^ 32

-- Error codes, negated.
abbrev pub eperm : ℤ
eperm = negsuc 0

abbrev pub enoent : ℤ
enoent = negsuc 1

abbrev pub eintr : ℤ
eintr = negsuc 3

abbrev pub enomem : ℤ
enomem = negsuc 11

abbrev pub efault : ℤ
efault = negsuc 13

abbrev pub eexist : ℤ
eexist = negsuc 16

abbrev pub einval : ℤ
einval = negsuc 21

abbrev pub enosys : ℤ
enosys = negsuc 37

abbrev pub ealready : ℤ
ealready = negsuc 113
