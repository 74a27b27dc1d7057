-- ===== src/Clib/Numbers.antt =====
-- itoa of student-distrib/lib.c, which syscalls/ece391support.c repeats as ece391_itoa.
pub mod Value
use boz_os.Prelude.{
  ℕ, zero, suc, ◌+◌, ◌/◌, ◌%◌, Option, none, some, ◌==◌, if◌then◌else◌, ◌>>=◌, Buf, store, literal,
}
use boz_os.Clib.Strings.{strrev}

-- The table of digits.
unfoldable pub lookup : ℕ → ℕ
unfolding literal
lookup i = literal "0123456789ABCDEFGHIJKLMNOPQRSTUVWXYZ" i

-- The loop, which puts the lowest digit first: the buffer and `newbuf` at its end.
unfoldable pub itoa_loop : ℕ → ℕ → ℕ → Buf → ℕ → Option (Buf × ℕ)
itoa_loop zero newval radix buf newbuf = none
itoa_loop (suc fuel) newval radix buf newbuf =
    let rest =
      itoa_loop fuel (newval / radix) radix (store buf newbuf (lookup (newval % radix)))
        (newbuf + 1) in
    if newval == 0 then some (buf, newbuf) else rest

-- A 32-bit value has at most 32 digits.
unfoldable pub itoa : ℕ → Buf → ℕ → ℕ → Option Buf
itoa value buf at radix =
    if value == 0
    then some (store (store buf at b'0') (at + 1) 0)
    else do (digits, newbuf) ← itoa_loop 33 value radix buf at; strrev 34 (store digits newbuf 0) at
