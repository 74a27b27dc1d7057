-- ===== src/Programs/Passing.antt =====
-- Tests of syscalls/ece391syserr.c that pass on the kernel's calls, student-distrib/syscalls.c.
use boz_os.Prelude.{
  not, ℕ, zero, suc, ◌+◌, ◌-◌, ◌<◌, ◌≤◌, ◌≡◌, refl, ◌∙◌, arith, true, false, ◌||◌, Option, some,
  length, codes, String, slt32, ◌==◌, Buf,
}
use boz_os.Clib.Strings.Length.{strlen-HasLength}
use boz_os.Clib.Support.{ece391_strlen, ece391_strlen-strlen}
use boz_os.State.{Kernel, max_files}
use boz_os.Screen.Frame.{Shown}
use boz_os.Files.{
  Env, bad_arguments, fd_at, read_entry, write_entry, sys_read, sys_write, terminal_write,
}
use boz_os.Programs.{Calls, local_at, placed, ece391_fdputs, message}
use boz_os.Programs.Syserr.{
  neg_num, big_num, expect, verdict, try_read, try_write, try_close, try_vidmap, try_call,
  err_neg_fd, err_big_fd, close_all, read_all, write_all, err_unopened, err_vidmap, err_stdin_out,
  err_syscall_num,
}
use boz_os.Paging.{vidmap}
use boz_os.Syscalls.{dispatch, handle_syscall}
use boz_os.Programs.Probing.{
  Prober, terminal_write-Shown, is_message, placed-HasLength, good_pcb, refused_read, refused_write,
  refused_close,
}
use boz_os.Programs.OnKernel.{kernel_calls}

module _ (env : Env) (eflags esp ebp table_at p : ℕ) where
  abbrev calls : Calls Kernel
  calls = kernel_calls env eflags esp ebp table_at

  -- A test that passes, and has only printed.
  abbrev pub Passes : Kernel → Option (ℕ × Kernel) → Type 0
  Passes k r = (k' : Kernel) × (r ≡ some (0, k')) × Shown k k'

  message-Shown :
      (k : Kernel) (s : String)
      → Prober p k
      → is_message s ≡ true
      → (k' : Kernel) × (message calls s k ≡ some k') × Shown k k'
  unfolding message ece391_fdputs sys_write write_entry
  message-Shown k s r ok =
      let n = length (codes s) in
      let (short, string) = placed-HasLength s ok in
      let counted : ece391_strlen 64 (placed s) local_at ≡ some n =
        ece391_strlen-strlen 64 (placed s) local_at
        ∙ (strlen-HasLength 64 (placed s) local_at n).1 (short, string) in
      let fine : bad_arguments 1 local_at n ≡ false = ground (arith, short) in
      let used : ((fd_at k p 1).in_use_flag == 0) ≡ false = ground (arith, r.out_use) in
      (
        (terminal_write k p 1 (placed s) local_at n).1,
        rw (counted, r.tail, good_pcb env p k r, fine, used, r.out_table) refl,
        terminal_write-Shown k p 1 (placed s) local_at n,
      )

  verdict-Passes :
      (k : Kernel) (fail_text pass_text : String)
      → Prober p k
      → is_message pass_text ≡ true
      → Passes k (verdict calls fail_text pass_text 0 k)
  unfolding verdict
  verdict-Passes k fail_text pass_text r ok =
      let (k', run, shown) = message-Shown k pass_text r ok in (k', rw run refl, shown)

  -- A step of a test on such a call leaves everything as it is.
  abbrev Unmoved : (ℕ → Kernel → Option (ℕ × Kernel)) → Kernel → Type 0
  Unmoved f k = (fail : ℕ) → f fail k ≡ some (fail, k)

  step_read :
      (k : Kernel) (fd : ℕ) (buf : Buf) (s : String)
      → Prober p k
      → (bad_arguments fd local_at 31 || ((fd_at k p fd).in_use_flag == 0)) ≡ true
      → (fail : ℕ) → try_read calls fd buf s fail k ≡ some (fail, buf, k)
  unfolding try_read
  step_read k fd buf s r bad fail = rw (refused_read env p k fd buf r bad) refl

  step_write :
      (k : Kernel) (fd : ℕ) (buf : Buf) (s : String)
      → Prober p k
      → (bad_arguments fd local_at 31 || ((fd_at k p fd).in_use_flag == 0)) ≡ true
      → Unmoved (try_write calls fd buf s) k
  unfolding try_write
  step_write k fd buf s r bad fail = rw (refused_write env p k fd buf r bad) refl

  step_close :
      (k : Kernel) (fd : ℕ) (s : String)
      → Prober p k
      → ((fd == 0)
          || (fd == 1)
          || slt32 fd 0
          || slt32 (max_files - 1) fd
          || not ((fd_at k p fd).in_use_flag == 1))
        ≡ true
      → Unmoved (try_close calls fd s) k
  unfolding try_close
  step_close k fd s r bad fail = rw (refused_close env p k fd r bad) refl

  -- The loops of err_unopened.
  closes :
      (k : Kernel) (rounds i : ℕ)
      → Prober p k
      → i + rounds ≤ max_files
      → Unmoved (close_all calls rounds i) k
  unfolding close_all
  closes k zero i r l fail = refl
  closes k (suc rounds) i r l fail =
      let bad : ((i == 0)
            || (i == 1)
            || slt32 i 0
            || slt32 (max_files - 1) i
            || not ((fd_at k p i).in_use_flag == 1))
          ≡ true =
        ground (arith, r.unused i, l) in
      rw (step_close k i "close unopened or invalid fd fail\n" r bad fail)
        (closes k rounds (i + 1) r (omega arith) fail)

  reads :
      (k : Kernel) (buf : Buf) (rounds i : ℕ)
      → Prober p k
      → 1 < i
      → i + rounds ≤ max_files
      → (fail : ℕ) → read_all calls buf rounds i fail k ≡ some (fail, buf, k)
  unfolding read_all
  reads k buf zero i r o l fail = refl
  reads k buf (suc rounds) i r o l fail =
      let bad : (bad_arguments i local_at 31 || ((fd_at k p i).in_use_flag == 0)) ≡ true =
        ground (arith, r.unused i o (omega arith)) in
      rw (step_read k i buf "read from unopened fd fail\n" r bad fail)
        (reads k buf rounds (i + 1) r (omega arith) (omega arith) fail)

  writes :
      (k : Kernel) (buf : Buf) (rounds i : ℕ)
      → Prober p k
      → 1 < i
      → i + rounds ≤ max_files
      → Unmoved (write_all calls buf rounds i) k
  unfolding write_all
  writes k buf zero i r o l fail = refl
  writes k buf (suc rounds) i r o l fail =
      let bad : (bad_arguments i local_at 31 || ((fd_at k p i).in_use_flag == 0)) ≡ true =
        ground (arith, r.unused i o (omega arith)) in
      rw (step_write k i buf "write to unopened fd fail\n" r bad fail)
        (writes k buf rounds (i + 1) r (omega arith) (omega arith) fail)

  neg_fd-Passes : (k : Kernel) (buf : Buf) → Prober p k → Passes k (err_neg_fd calls buf k)
  unfolding err_neg_fd
  neg_fd-Passes k buf r = rw (step_read k neg_num buf "read fail\n" r refl 0) (
      rw (step_write k neg_num buf "write fail\n" r refl 0) (
        rw (step_close k neg_num "close fail\n" r refl 0)
          (verdict-Passes k "err_neg_fd: FAIL\n" "err_neg_fd: PASS\n" r refl)))

  big_fd-Passes : (k : Kernel) (buf : Buf) → Prober p k → Passes k (err_big_fd calls buf k)
  unfolding err_big_fd
  big_fd-Passes k buf r = rw (step_read k big_num buf "read fail\n" r refl 0) (
      rw (step_write k big_num buf "write fail\n" r refl 0) (
        rw (step_close k big_num "close fail\n" r refl 0)
          (verdict-Passes k "err_big_fd: FAIL\n" "err_big_fd: PASS\n" r refl)))

  unopened-Passes : (k : Kernel) (buf : Buf) → Prober p k → Passes k (err_unopened calls buf k)
  unfolding err_unopened
  unopened-Passes k buf r = rw (closes k 8 0 r (omega arith) 0) (
      rw (reads k buf 6 2 r (omega arith) (omega arith) 0) (
        rw (writes k buf 6 2 r (omega arith) (omega arith) 0)
          (verdict-Passes k "err_unopened: FAIL\n" "err_unopened: PASS\n" r refl)))

  vidmap-Passes : (k : Kernel) → Prober p k → Passes k (err_vidmap calls k)
  unfolding err_vidmap try_vidmap expect vidmap
  vidmap-Passes k r = verdict-Passes k "err_vidmap: FAIL\n" "err_vidmap: PASS\n" r refl

  stdin_out-Passes : (k : Kernel) (buf : Buf) → Prober p k → Passes k (err_stdin_out calls buf k)
  unfolding err_stdin_out try_write try_read expect sys_read sys_write read_entry write_entry
  stdin_out-Passes k buf r = rw (step_stdin k buf r) (
      rw (step_stdout k buf r)
        (verdict-Passes k "err_stdin_out: FAIL\n" "err_stdin_out: PASS\n" r refl))
    where
      step_stdin :
          (k : Kernel) (buf : Buf)
          → Prober p k
          → try_write calls 0 buf "write to stdin fail\n" 0 k ≡ some (0, k)
      step_stdin k buf r =
          let used : ((fd_at k p 0).in_use_flag == 0) ≡ false = ground (arith, r.in_use) in
          rw (r.tail, good_pcb env p k r, used, r.in_table) refl

      step_stdout :
          (k : Kernel) (buf : Buf)
          → Prober p k
          → try_read calls 1 buf "read from stdout fail\n" 0 k ≡ some (0, buf, k)
      step_stdout k buf r =
          let used : ((fd_at k p 1).in_use_flag == 0) ≡ false = ground (arith, r.out_use) in
          rw (r.tail, good_pcb env p k r, used, r.out_table) refl

  syscall_num-Passes : (k : Kernel) → Prober p k → Passes k (err_syscall_num calls k)
  unfolding err_syscall_num try_call expect handle_syscall dispatch
  syscall_num-Passes k r =
      verdict-Passes k "err_syscall_num: FAIL\n" "err_syscall_num: PASS\n" r refl

  -- The tests of negative, too big and closed descriptors, of bad pointers for vidmap, of the input written
  -- and the output read, and of bad call numbers, run by a process that has its input and its output
  -- and no other descriptor in use: each passes, and only prints.
  pub syserr-Passes :
      (k : Kernel) (buf : Buf)
      → Prober p k
      → Passes k (err_neg_fd calls buf k)
        × Passes k (err_big_fd calls buf k)
        × Passes k (err_unopened calls buf k)
        × Passes k (err_vidmap calls k)
        × Passes k (err_stdin_out calls buf k)
        × Passes k (err_syscall_num calls k)
  syserr-Passes k buf r = (
    neg_fd-Passes k buf r,
    big_fd-Passes k buf r,
    unopened-Passes k buf r,
    vidmap-Passes k r,
    stdin_out-Passes k buf r,
    syscall_num-Passes k r,
  )
