-- ===== src/Programs/Syserr.antt =====
-- The program syserr, syscalls/ece391syserr.c, which tries bad arguments on every call. A test gives 0 if
-- it passes and 2 if it fails.
use boz_os.Prelude.{
  ℕ, zero, suc, ◌+◌, ◌-◌, ◌^◌, not, Option, some, ◌==◌, if◌then◌else◌, ◌>>=◌, minus_one, Buf,
  String,
}
use boz_os.Programs.{Calls, local_at, message, placed}

-- NEG_FD and NEG_NUM, BIG_FD and BIG_NUM.
abbrev pub neg_num : ℕ
neg_num = 2 ^ 32 - 1073741823

abbrev pub big_num : ℕ
big_num = 1073741823

module _ {S : Type 0} (c : Calls S) where
  -- `if (-1 != status) { fail = 2; ece391_fdputs (1, s); }`, on what `fail` is.
  unfoldable pub expect : ℕ → String → ℕ → S → Option (ℕ × S)
  expect status s fail st =
      let failed = (do st1 ← message c s st; some (2, st1)) in
      if not (status == minus_one) then failed else some (fail, st)

  -- The verdict at the end of a test.
  unfoldable pub verdict : String → String → ℕ → S → Option (ℕ × S)
  verdict fail_text pass_text fail st =
      let failed = (do st1 ← message c fail_text st; some (fail, st1)) in
      let passed = (do st1 ← message c pass_text st; some (fail, st1)) in
      if not (fail == 0) then failed else passed

  -- A read and a write of 31 bytes of the array, a close, a vidmap and a call by number, as the tests make
  -- them.
  unfoldable pub try_read : ℕ → Buf → String → ℕ → S → Option (ℕ × Buf × S)
  unfolding expect
  try_read fd buf s fail st = do
    (status, buf1, st1) ← c.ece391_read fd buf local_at 31 st
    (f1, st2) ← expect status s fail st1
    some (f1, buf1, st2)

  unfoldable pub try_write : ℕ → Buf → String → ℕ → S → Option (ℕ × S)
  unfolding expect
  try_write fd buf s fail st = do
    (status, st1) ← c.ece391_write fd buf local_at 31 st
    expect status s fail st1

  unfoldable pub try_close : ℕ → String → ℕ → S → Option (ℕ × S)
  unfolding expect
  try_close fd s fail st = do (status, st1) ← c.ece391_close fd st; expect status s fail st1

  unfoldable pub try_open : String → String → ℕ → S → Option (ℕ × S)
  unfolding expect
  try_open name s fail st = do
    (status, st1) ← c.ece391_open (placed name) local_at st
    expect status s fail st1

  unfoldable pub try_vidmap : ℕ → String → ℕ → S → Option (ℕ × S)
  unfolding expect
  try_vidmap at s fail st = do (status, st1) ← c.ece391_vidmap at st; expect status s fail st1

  unfoldable pub try_call : ℕ → String → ℕ → S → Option (ℕ × S)
  unfolding expect
  try_call num s fail st = do (status, st1) ← c.call_sys num st; expect status s fail st1

  -- The array `buf` is the one that a test has on its stack.
  unfoldable pub err_neg_fd : Buf → S → Option (ℕ × S)
  unfolding try_read try_write try_close verdict
  err_neg_fd buf st = do
    (f1, buf1, st1) ← try_read neg_num buf "read fail\n" 0 st
    (f2, st2) ← try_write neg_num buf1 "write fail\n" f1 st1
    (f3, st3) ← try_close neg_num "close fail\n" f2 st2
    verdict "err_neg_fd: FAIL\n" "err_neg_fd: PASS\n" f3 st3

  unfoldable pub err_big_fd : Buf → S → Option (ℕ × S)
  unfolding try_read try_write try_close verdict
  err_big_fd buf st = do
    (f1, buf1, st1) ← try_read big_num buf "read fail\n" 0 st
    (f2, st2) ← try_write big_num buf1 "write fail\n" f1 st1
    (f3, st3) ← try_close big_num "close fail\n" f2 st2
    verdict "err_big_fd: FAIL\n" "err_big_fd: PASS\n" f3 st3

  -- Seven opens of the directory; how many fail.
  unfoldable pub open_lots : ℕ → ℕ → S → Option (ℕ × S)
  open_lots zero cnt st = some (cnt, st)
  open_lots (suc rounds) cnt st = do
    (status, st1) ← c.ece391_open (placed ".") local_at st
    open_lots rounds (if status == minus_one then cnt + 1 else cnt) st1

  -- The descriptors from `fd` on are closed.
  unfoldable pub close_lots : ℕ → ℕ → S → Option S
  close_lots zero fd st = some st
  close_lots (suc rounds) fd st = do (_, st1) ← c.ece391_close fd st; close_lots rounds (fd + 1) st1

  unfoldable pub err_open_lots : S → Option (ℕ × S)
  unfolding open_lots close_lots
  err_open_lots st = do
    (cnt, st1) ← open_lots 7 0 st
    st2 ← close_lots 6 2 st1
    let passed = (do st3 ← message c "err_open_lots: PASS\n" st2; some (0, st3))
    let failed = (do st3 ← message c "err_open_lots: FAIL\n" st2; some (2, st3))
    if cnt == 1 then passed else failed

  unfoldable pub err_open : S → Option (ℕ × S)
  unfolding try_open verdict
  err_open st = do
    (f1, st1) ← try_open "helloo" "'helloo' fail\n" 0 st
    (f2, st2) ← try_open "shel" "'shel' fail\n" f1 st1
    (f3, st3) ← try_open "" "empty string fail\n" f2 st2
    verdict "err_open: FAIL\n" "err_open: PASS\n" f3 st3

  -- The three loops of err_unopened, with `rounds` to go at `i`.
  unfoldable pub close_all : ℕ → ℕ → ℕ → S → Option (ℕ × S)
  close_all zero i fail st = some (fail, st)
  close_all (suc rounds) i fail st = do
    (f1, st1) ← try_close i "close unopened or invalid fd fail\n" fail st
    close_all rounds (i + 1) f1 st1

  unfoldable pub read_all : Buf → ℕ → ℕ → ℕ → S → Option (ℕ × Buf × S)
  read_all buf zero i fail st = some (fail, buf, st)
  read_all buf (suc rounds) i fail st = do
    (f1, buf1, st1) ← try_read i buf "read from unopened fd fail\n" fail st
    read_all buf1 rounds (i + 1) f1 st1

  unfoldable pub write_all : Buf → ℕ → ℕ → ℕ → S → Option (ℕ × S)
  write_all buf zero i fail st = some (fail, st)
  write_all buf (suc rounds) i fail st = do
    (f1, st1) ← try_write i buf "write to unopened fd fail\n" fail st
    write_all buf rounds (i + 1) f1 st1

  unfoldable pub err_unopened : Buf → S → Option (ℕ × S)
  unfolding close_all read_all write_all verdict
  err_unopened buf st = do
    (f1, st1) ← close_all 8 0 0 st
    (f2, buf1, st2) ← read_all buf 6 2 f1 st1
    (f3, st3) ← write_all buf1 6 2 f2 st2
    verdict "err_unopened: FAIL\n" "err_unopened: PASS\n" f3 st3

  unfoldable pub err_vidmap : S → Option (ℕ × S)
  unfolding try_vidmap verdict
  err_vidmap st = do
    (f1, st1) ← try_vidmap 0 "Null pointer fail\n" 0 st
    (f2, st2) ← try_vidmap 0x400000 "Kernel pointer fail fail\n" f1 st1
    verdict "err_vidmap: FAIL\n" "err_vidmap: PASS\n" f2 st2

  unfoldable pub err_stdin_out : Buf → S → Option (ℕ × S)
  unfolding try_read try_write verdict
  err_stdin_out buf st = do
    (f1, st1) ← try_write 0 buf "write to stdin fail\n" 0 st
    (f2, _, st2) ← try_read 1 buf "read from stdout fail\n" f1 st1
    verdict "err_stdin_out: FAIL\n" "err_stdin_out: PASS\n" f2 st2

  unfoldable pub err_syscall_num : S → Option (ℕ × S)
  unfolding try_call verdict
  err_syscall_num st = do
    (f1, st1) ← try_call big_num "syscall 0 fail\n" 0 st
    (f2, st2) ← try_call neg_num "big num syscall fail\n" f1 st1
    (f3, st3) ← try_call 0 "neg num syscall fail\n" f2 st2
    verdict "err_syscall_num: FAIL\n" "err_syscall_num: PASS\n" f3 st3

  -- The cases 1 to 8 of the switch in main, on the character that was typed.
  unfoldable pub one_test : Buf → ℕ → S → Option (ℕ × S)
  unfolding err_neg_fd err_big_fd err_open_lots err_open err_unopened err_vidmap err_stdin_out
      err_syscall_num
  one_test buf digit st =
      let invalid = (do
        st1 ← message c "Invalid test number. Choose from tests 1-8 or 0" st
        some (0, st1)) in
      if digit == b'1'
      then err_neg_fd buf st
      else if digit == b'2'
      then err_big_fd buf st
      else if digit == b'3'
      then err_open_lots st
      else if digit == b'4'
      then err_open st
      else if digit == b'5'
      then err_unopened buf st
      else if digit == b'6'
      then err_vidmap st
      else if digit == b'7'
      then err_stdin_out buf st
      else if digit == b'8'
      then err_syscall_num st
      else invalid

  -- Case 0: all tests, with the sum of their results.
  unfoldable pub all_tests : Buf → S → Option (ℕ × S)
  unfolding err_neg_fd err_big_fd err_open_lots err_open err_unopened err_vidmap err_stdin_out
      err_syscall_num
  all_tests buf st = do
    (f1, st1) ← err_neg_fd buf st
    (f2, st2) ← err_big_fd buf st1
    (f3, st3) ← err_open_lots st2
    (f4, st4) ← err_open st3
    (f5, st5) ← err_unopened buf st4
    (f6, st6) ← err_vidmap st5
    (f7, st7) ← err_stdin_out buf st6
    (f8, st8) ← err_syscall_num st7
    let fail = f1 + f2 + f3 + f4 + f5 + f6 + f7 + f8
    let failed = (do st9 ← message c "\nOverall Tests: FAIL\n" st8; some (fail, st9))
    let passed = (do st9 ← message c "\nOverall Tests: PASS\n" st8; some (fail, st9))
    if not (fail == 0) then failed else passed

  -- main, with what its array and those of the tests hold before.
  unfoldable pub syserr : Buf → Buf → S → Option (ℕ × S)
  unfolding one_test all_tests
  syserr buf stack st = do
    st1 ← message c "Choose from tests 1-8. 0 to run all: " st
    (cnt, line, st2) ← c.ece391_read 0 buf local_at 127 st1
    let unread = (do st3 ← message c "Can't read test #\n" st2; some (2, st3))
    let go =
        if line local_at == b'0' then all_tests stack st2 else one_test stack (line local_at) st2
    if cnt == minus_one then unread else go
