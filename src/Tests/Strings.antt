-- ===== src/Tests/Strings.antt =====
-- Concrete runs of the memory and string functions of student-distrib/lib.c.
use boz_os.Prelude.{ℕ, ◌≡◌, inl, refl, arith, some, Buf}
use boz_os.Clib.Asm.{memset, memcpy}
use boz_os.Clib.Fill.{filled, memset-filled}
use boz_os.Clib.Copy.{copied, memcpy-copied}
use boz_os.Clib.Strings.Length.{HasLength}
use boz_os.Clib.Numbers.{itoa}
use boz_os.Clib.Numbers.Value.{Prints, itoa-Prints}
use boz_os.Tests.{letters, letters-IsBytes}

memset-filled_example : memset letters 3 300 6 5 ≡ filled letters 3 44 6 5
memset-filled_example = memset-filled letters 3 300 6 5

memcpy-copied_example : memcpy letters 1 4 3 2 ≡ copied letters 1 4 3 2
memcpy-copied_example = memcpy-copied letters 1 4 3 2 letters-IsBytes (inl (omega arith))

letters-HasLength : HasLength letters 4 3
letters-HasLength = (refl, λ i h. ground arith)

itoa-Prints_example :
    (r : Buf) × (n : ℕ) × (itoa 255 letters 0 16 ≡ some r) × Prints 255 16 letters 0 r n
itoa-Prints_example = itoa-Prints 255 letters 0 16 (omega arith) (omega arith) (omega arith)
