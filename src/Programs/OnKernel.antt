-- ===== src/Programs/OnKernel.antt =====
-- The user programs' calls on the kernel: student-distrib/syscalls.c.
use boz_os.Prelude.{ℕ, Option, none, some, Buf}
use boz_os.State.{Kernel, blocked, done}
use boz_os.Files.{Env, Reading, sys_open, sys_close, sys_read, sys_write, getargs}
use boz_os.Execute.{Launch, answers, enters, execute}
use boz_os.Paging.{vidmap}
use boz_os.Syscalls.{handle_syscall}
use boz_os.Programs.{Calls}

-- A read that does not wait.
abbrev pub answered : Reading → Option (ℕ × Buf × Kernel)
answered none = none
answered (some blocked) = none
answered (some (done r)) = some r

-- An execute that comes back at once.
abbrev returned : Option Launch → Option (ℕ × Kernel)
returned none = none
returned (some (answers n k)) = some (n, k)
returned (some (enters eip cs eflags esp ss k)) = none

abbrev pub with_kernel : Kernel → Option (ℕ × Buf) → Option (ℕ × Buf × Kernel)
with_kernel k none = none
with_kernel k (some (n, buf)) = some (n, buf, k)

-- The calls of the running process. A read that waits, and an execute that starts a program, have no
-- answer in the state of the call, nor has a call by number that reaches a function with what the
-- registers hold. The registers at an execute, and where vidmap's table stands, are arguments.
abbrev pub kernel_calls : Env → (eflags esp ebp table_at : ℕ) → Calls Kernel
kernel_calls env eflags esp ebp table_at = record {
  ece391_execute = λ command at k. returned (execute env k eflags esp ebp command at);
  ece391_read = λ fd buf at n k. answered (sys_read env k fd buf at n);
  ece391_write = λ fd buf at n k. sys_write env k fd buf at n;
  ece391_open = λ name at k. sys_open env k name at;
  ece391_close = λ fd k. sys_close k fd;
  ece391_getargs = λ buf at n k. with_kernel k (getargs k buf at n);
  ece391_vidmap =
      λ screen_start k. let (status, _, k') = vidmap table_at k screen_start in some (status, k');
  call_sys = λ num k. handle_syscall (λ f k. none) num k;
}
