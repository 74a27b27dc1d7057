-- ===== src/Prelude/Words.antt =====
-- The integers of C as bit patterns, and byte arrays.
use Prim.Native.Nat.{ℕ, ◌+◌, ◌-◌, ◌/◌, ◌%◌, ◌^◌, ◌<◌}
use mathlib.Core.Bool.{Bool}
use boz_os.Prelude.Tests.{ltb, ◌==◌, if◌then◌else◌}

-- An `int32_t` is its bit pattern, below 2 ^ 32; this is -1.
abbrev pub minus_one : ℕ
minus_one = 2 ^ 32 - 1

-- a < b for two `int32_t` values given by their bit patterns below 2 ^ 32.
abbrev pub slt32 : ℕ → ℕ → Bool
slt32 a b = ltb ((a + 2 ^ 31) % 2 ^ 32) ((b + 2 ^ 31) % 2 ^ 32)

-- `uint32_t` sum and difference.
abbrev pub add32 : ℕ → ℕ → ℕ
add32 a b = (a + b) % 2 ^ 32

abbrev pub sub32 : ℕ → ℕ → ℕ
sub32 a b = (a + 2 ^ 32 - b) % 2 ^ 32

-- `int32_t` division by a positive constant, towards zero.
abbrev pub sdiv32 : ℕ → ℕ → ℕ
sdiv32 a k = if ltb a (2 ^ 31) then a / k else (2 ^ 32 - (2 ^ 32 - a) / k) % 2 ^ 32

-- The bytes of a C object, or of an address range, by position.
abbrev pub Buf : Type 0
Buf = ℕ → ℕ

-- `b[p] = v`
abbrev pub store : Buf → ℕ → ℕ → Buf
store b p v q = if q == p then v else b q

-- Every byte of the object is one.
abbrev pub IsBytes : Buf → Type 0
IsBytes m = (q : ℕ) → m q < 256
