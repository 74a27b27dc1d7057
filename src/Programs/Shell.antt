-- ===== src/Programs/Shell.antt =====
-- The program shell, syscalls/ece391shell.c. Its loop ends only at "exit" or when a read fails, so it is
-- modelled round by round.
use boz_os.Prelude.{
  ℕ, zero, suc, ◌+◌, ◌-◌, ◌&&◌, not, Option, some, ◌==◌, if◌then◌else◌, ◌>>=◌, minus_one, slt32,
  Buf, store,
}
use boz_os.Clib.Strings.{ece391_strcmp}
use boz_os.Programs.{Calls, local_at, message, placed}

-- A round leaves main with a status, or goes on with what the array holds.
pub data Turn (S : Type 0) : Type 0 where
  leaves : ℕ → S → Turn S
  again : Buf → S → Turn S

module _ {S : Type 0} (c : Calls S) where
  -- The message on the status of a program.
  unfoldable pub report : ℕ → S → Option S
  report rval st =
      if rval == minus_one
      then message c "no such command\n" st
      else if rval == 256
      then message c "program terminated by exception\n" st
      else if not (rval == 0)
      then message c "program terminated abnormally\n" st
      else some st

  -- The line without the line end that the count includes.
  unfoldable pub trimmed : Buf → ℕ → ℕ
  trimmed buf cnt = if slt32 0 cnt && (buf (local_at + cnt - 1) == b'\n') then cnt - 1 else cnt

  -- What a round does with a line that was read.
  unfoldable pub obey : Buf → S → Option (Turn S)
  unfolding report
  obey line st = do
    exit_test ← ece391_strcmp 1024 line local_at (placed "exit") local_at
    let run = (do
      (rval, st1) ← c.ece391_execute line local_at st
      st2 ← report rval st1
      some (again line st2))
    if exit_test == 0
        then some (leaves 0 st)
        else if line local_at == 0
        then some (again line st)
        else run

  unfoldable pub shell_turn : Buf → S → Option (Turn S)
  unfolding obey trimmed
  shell_turn buf st = do
    st1 ← message c "391OS> " st
    (cnt, buf1, st2) ← c.ece391_read 0 buf local_at 1023 st1
    let failed = (do st3 ← message c "read from keyboard failed\n" st2; some (leaves 3 st3))
    let go = obey (store buf1 (local_at + trimmed buf1 cnt) 0) st2
    if cnt == minus_one then failed else go

  -- `rounds` rounds at most.
  unfoldable pub shell_loop : ℕ → Buf → S → Option (Turn S)
  shell_loop zero buf st = some (again buf st)
  shell_loop (suc rounds) buf st = do
    turn ← shell_turn buf st
    elim turn [
      | leaves status st1 ↦ some (leaves status st1)
      | again buf1 st1 ↦ shell_loop rounds buf1 st1
    ]

  unfoldable pub shell : ℕ → Buf → S → Option (Turn S)
  unfolding shell_loop
  shell rounds buf st = do st1 ← message c "Starting 391 Shell\n" st; shell_loop rounds buf st1
