-- ===== src/Clib/Move.antt =====
-- memmove of student-distrib/lib.c copies whatever the overlap of the two regions is.
use boz_os.Prelude.{ℕ, zero, suc, ◌+◌, ◌≤◌, ◌≡◌, arith, Buf, store}
use boz_os.Clib.Asm.{copy_down, memmove}
use boz_os.Clib.Copy.{copied, copy_up_lem}

-- The copy that starts at the last byte is right where the regions are shifted up.
copy_down_lem : (m : Buf) (n d s q : ℕ) → s ≤ d → copy_down m n d s q ≡ copied m d s n q
unfolding copy_down
copy_down_lem m zero d s q h = ground arith
copy_down_lem m (suc n) d s q h =
    ground (arith, copy_down_lem (store m (d + n) (m (s + n))) n d s q h)

-- memmove puts the `n` bytes that stood from `src` on at `dest`, and changes no other byte, however
-- the two regions overlap.
pub memmove-copied : (m : Buf) (dest src n q : ℕ) → memmove m dest src n q ≡ copied m dest src n q
unfolding memmove
memmove-copied m dest src n q =
    ground (arith, copy_down_lem m n dest src q, copy_up_lem m n dest src q)
