-- ===== src/Programs/Small.antt =====
-- The programs ls, hello, testprint and counter: syscalls/ece391ls.c, ece391hello.c, ece391testprint.c and
-- ece391counter.c.
use boz_os.Prelude.{
  ℕ, zero, suc, ◌+◌, ◌||◌, ◌&&◌, Option, none, some, ltb, ◌==◌, if◌then◌else◌, ◌>>=◌, minus_one,
  Buf, store,
}
use boz_os.Clib.Support.{ece391_strlen, ece391_itoa}
use boz_os.Programs.{placed, Calls, local_at, ece391_fdputs, message}

module _ {S : Type 0} (c : Calls S) where
  -- The loop of ls.
  unfoldable pub ls_loop : ℕ → ℕ → Buf → S → Option (ℕ × S)
  ls_loop zero fd buf st = none
  ls_loop (suc fuel) fd buf st = do
    (cnt, buf1, st1) ← c.ece391_read fd buf local_at 32 st
    let failed = (do st2 ← message c "directory entry read failed\n" st1; some (3, st2))
    let more = (do
      let line = store buf1 (local_at + cnt) b'\n'
      (status, st2) ← c.ece391_write 1 line local_at (cnt + 1) st1
      let rest = ls_loop fuel fd line st2
      if status == minus_one then some (3, st2) else rest)
    if cnt == 0 then some (0, st1) else if cnt == minus_one then failed else more

  unfoldable pub ls : ℕ → Buf → S → Option (ℕ × S)
  unfolding ls_loop
  ls fuel buf st = do
    (fd, st1) ← c.ece391_open (placed ".") local_at st
    let missing = (do st2 ← message c "directory open failed\n" st1; some (2, st2))
    if fd == minus_one then missing else ls_loop fuel fd buf st1

  unfoldable pub hello : Buf → S → Option (ℕ × S)
  hello buf st = do
    st1 ← message c "Hi, what's your name? " st
    (cnt, buf1, st2) ← c.ece391_read 0 buf local_at 1023 st1
    let failed = (do st3 ← message c "Can't read name from keyboard.\n" st2; some (3, st3))
    let go = (do
      let name = store buf1 (local_at + cnt) 0
      st3 ← message c "Hello, " st2
      st4 ← ece391_fdputs c 1024 1 name local_at st3
      some (0, st4))
    if cnt == minus_one then failed else go

  unfoldable pub testprint : S → Option (ℕ × S)
  testprint st = do
    st1 ← message c "Hello, if this ran, the program was correct. Yay!\n" st
    some (0, st1)

  -- `for (i = 0; i < max; i++)`, with `rounds` to go at `i`.
  unfoldable pub count : ℕ → ℕ → Buf → S → Option S
  count zero i buf st = some st
  count (suc rounds) i buf st = do
    number ← ece391_itoa (i + 1) buf local_at 10
    st1 ← ece391_fdputs c 34 1 number local_at st
    st2 ← message c "\n" st1
    count rounds (i + 1) number st2

  -- The switch: `max` stays 0 for any other character.
  unfoldable pub chosen_max : ℕ → ℕ
  chosen_max digit =
      if digit == b'0'
      then 100
      else if digit == b'1'
      then 10000
      else if digit == b'2'
      then 100000
      else 0

  unfoldable pub counter : Buf → S → Option (ℕ × S)
  unfolding count chosen_max
  counter buf st = do
    st1 ← message c "Enter the Test Number: (0): 100, (1): 10000, (2): 100000\n" st
    (cnt, buf1, st2) ← c.ece391_read 0 buf local_at 1023 st1
    let failed = (do st3 ← message c "Can't read the number from keyboard.\n" st2; some (3, st3))
    let go = (do
      let line = store buf1 (local_at + cnt) 0
      len ← ece391_strlen 1024 line local_at
      let digit = line local_at
      let wrong = (do st3 ← message c "Wrong Choice!\n" st2; some (0, st3))
      let counted = (do st3 ← count (chosen_max digit) 0 line st2; some (0, st3))
      if ltb 2 len || ((len == 2) && (ltb digit b'0' || ltb b'2' digit)) then wrong else counted)
    if cnt == minus_one then failed else go
