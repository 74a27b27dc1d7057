-- ===== src/Clib/Asm.antt =====
-- memset and memcpy of student-distrib/lib.c, as their inline assembly runs: bytes up to an aligned
-- destination, then double words, then the bytes that are left.
use boz_os.Prelude.{
  leb, ℕ, zero, suc, ◌+◌, ◌*◌, ◌/◌, ◌%◌, ◌^◌, bit_or, ◌==◌, if◌then◌else◌, Buf, store,
}

-- A loop's edi, esi and ecx when it is left, with the memory.
pub record Regs : Type 0 where
  pub memory : Buf
  pub edi : ℕ
  pub esi : ℕ
  pub ecx : ℕ

-- A double word is stored with its low byte first.
unfoldable pub store_dword : Buf → ℕ → ℕ → Buf
store_dword m p w =
    store (store (store (store m p (w % 256)) (p + 1) (w / 2 ^ 8 % 256)) (p + 2) (w / 2 ^ 16 % 256))
      (p + 3) (w / 2 ^ 24 % 256)

-- The double word at `p`.
unfoldable pub load_dword : Buf → ℕ → ℕ
load_dword m p = m p + m (p + 1) * 2 ^ 8 + m (p + 2) * 2 ^ 16 + m (p + 3) * 2 ^ 24

-- .memset_top: bytes until ecx is 0 or edi is aligned.
unfoldable pub memset_top : Buf → ℕ → ℕ → ℕ → Regs
memset_top m al zero edi = record { memory = m; edi = edi; esi = 0; ecx = 0 }
memset_top m al (suc n) edi =
    let rest = memset_top (store m edi al) al n (edi + 1) in
    if edi % 4 == 0 then record { memory = m; edi = edi; esi = 0; ecx = suc n } else rest

-- rep stosl
unfoldable pub rep_stosl : Buf → ℕ → ℕ → ℕ → Buf
rep_stosl m eax zero edi = m
rep_stosl m eax (suc k) edi = rep_stosl (store_dword m edi eax) eax k (edi + 4)

-- .memset_bottom
unfoldable pub memset_bottom : Buf → ℕ → ℕ → ℕ → Buf
memset_bottom m al zero edi = m
memset_bottom m al (suc n) edi = memset_bottom (store m edi al) al n (edi + 1)

-- c << 24 | c << 16 | c << 8 | c
unfoldable pub splat : ℕ → ℕ
splat c = bit_or (bit_or (bit_or (c * 2 ^ 24) (c * 2 ^ 16)) (c * 2 ^ 8)) c

unfoldable pub memset : Buf → ℕ → ℕ → ℕ → Buf
unfolding memset_top rep_stosl memset_bottom splat store_dword
memset m s c n =
    let al = c % 256 in
    let r = memset_top m al n s in
    let words = r.ecx / 4 in
    memset_bottom (rep_stosl r.memory (splat al) words r.edi) al (r.ecx % 4) (r.edi + 4 * words)

-- .memcpy_top
unfoldable pub memcpy_top : Buf → ℕ → ℕ → ℕ → Regs
memcpy_top m zero edi esi = record { memory = m; edi = edi; esi = esi; ecx = 0 }
memcpy_top m (suc n) edi esi =
    let rest = memcpy_top (store m edi (m esi)) n (edi + 1) (esi + 1) in
    if edi % 4 == 0 then record { memory = m; edi = edi; esi = esi; ecx = suc n } else rest

-- rep movsl: a double word is read whole before it is written.
unfoldable pub rep_movsl : Buf → ℕ → ℕ → ℕ → Buf
rep_movsl m zero edi esi = m
rep_movsl m (suc k) edi esi = rep_movsl (store_dword m edi (load_dword m esi)) k (edi + 4) (esi + 4)

-- .memcpy_bottom; also rep movsb with the direction flag clear.
unfoldable pub copy_up : Buf → ℕ → ℕ → ℕ → Buf
copy_up m zero edi esi = m
copy_up m (suc n) edi esi = copy_up (store m edi (m esi)) n (edi + 1) (esi + 1)

unfoldable pub memcpy : Buf → ℕ → ℕ → ℕ → Buf
unfolding memcpy_top rep_movsl copy_up store_dword load_dword
memcpy m dest src n =
    let r = memcpy_top m n dest src in
    let words = r.ecx / 4 in
    copy_up (rep_movsl r.memory words r.edi r.esi) (r.ecx % 4) (r.edi + 4 * words)
      (r.esi + 4 * words)

-- memcpy between two objects: no byte that is read has been written, so the grouping into double
-- words leaves no trace.
unfoldable pub memcpy_from : Buf → ℕ → Buf → ℕ → ℕ → Buf
memcpy_from dst dest src from zero = dst
memcpy_from dst dest src from (suc n) =
    memcpy_from (store dst dest (src from)) (dest + 1) src (from + 1) n

-- rep movsb with the direction flag set, from the last byte on.
unfoldable pub copy_down : Buf → ℕ → ℕ → ℕ → Buf
copy_down m zero edi esi = m
copy_down m (suc n) edi esi = copy_down (store m (edi + n) (m (esi + n))) n edi esi

unfoldable pub memmove : Buf → ℕ → ℕ → ℕ → Buf
memmove m dest src n = if leb dest src then copy_up m n dest src else copy_down m n dest src

-- rep stosw
unfoldable pub memset_word : Buf → ℕ → ℕ → ℕ → Buf
memset_word m s c zero = m
memset_word m s c (suc n) =
    memset_word (store (store m s (c % 256)) (s + 1) (c / 2 ^ 8 % 256)) (s + 2) c n

unfoldable pub memset_dword : Buf → ℕ → ℕ → ℕ → Buf
unfolding rep_stosl store_dword
memset_dword m s c n = rep_stosl m c n s
