-- ===== src/Tests/Users.antt =====
-- Concrete runs of the programs of syscalls/: ece391cat.c, ece391grep.c, ece391pingpong.c and ece391syserr.c,
-- and of the system call handler of student-distrib/IDT_asm.S.
use boz_os.Prelude.{
  inr, ℕ, ◌+◌, ◌<◌, ◌≤◌, ◌≡◌, ◌↔◌, refl, arith, some, true, Buf, IsBytes, ◌==◌, if◌then◌else◌,
}
use boz_os.Clib.Asm.{load_dword, memcpy_from, memset}
use boz_os.Clib.Strings.{strncmp, strlen}
use boz_os.Clib.Strings.Length.{HasLength}
use boz_os.State.{Kernel, Fd, file_fotp, stdin_fotp, stdout_fotp, null}
use boz_os.Process.{get_pcb_tail, walk}
use boz_os.Filesystem.{fopen, find_dentry, read_dentry_by_name, inode_length}
use boz_os.Files.{open_type, first_closed, set_fd, open_at, opened, Env, fd_at, getargs, sys_open}
use boz_os.Programs.{local_at}
use boz_os.Programs.Cat.{cat}
use boz_os.Programs.Grep.{search_line}
use boz_os.Programs.OnKernel.{kernel_calls}
use boz_os.Programs.Showing.{cat-prints}
use boz_os.Programs.Reading.{Reader, AtByte, Printed}
use boz_os.Programs.Search.{OccursAt, search_line_iff}
use boz_os.Programs.Pingpong.{bufmax, init_walls, draw}
use boz_os.Programs.Pictures.{picture_at, set_up, Drawn-picture}
use boz_os.Programs.Syserr.{
  err_neg_fd, err_big_fd, err_unopened, err_vidmap, err_stdin_out, err_syscall_num,
}
use boz_os.Programs.Passing.{Passes, syserr-Passes}
use boz_os.Programs.Probing.{Prober}
use boz_os.Syscalls.{open_file, dispatch, number_of, dispatch_iff}
use boz_os.Tests.{running, shell_pcb, disk, zeros, letters, letters-IsBytes}

dispatch_iff_example : (dispatch 5 ≡ some open_file) ↔ (5 ≡ number_of open_file)
dispatch_iff_example = dispatch_iff 5 open_file (omega arith)

Drawn-picture_example :
    ((i : ℕ) → i < bufmax → draw (init_walls zeros) 40 b'A' (local_at + i) ≡ picture_at 40 b'A' i)
    × HasLength (draw (init_walls zeros) 40 b'A') local_at 80
Drawn-picture_example =
    Drawn-picture (init_walls zeros) 40 b'A' (set_up zeros) (omega arith) (omega arith)
      (omega arith)

-- The pattern "bc", as a program has it.
abbrev bc : Buf
bc q = if q == 4 then b'b' else if q == 5 then b'c' else 0

bc-IsBytes : IsBytes bc
bc-IsBytes q = ground arith

search_line_iff_example :
    (search_line bc 2 letters 2 0 ≡ true)
    ↔ ((p : ℕ) × (0 ≤ p) × (p < 0 + 2) × OccursAt bc 2 letters p)
search_line_iff_example =
    search_line_iff bc letters 2 bc-IsBytes letters-IsBytes (refl, λ i h. ground (arith, h))
      (omega arith) (omega arith) 2 0

-- The word "a", as getargs leaves it.
abbrev argument : Buf
argument q = if q == 0 then b'a' else 0

-- Process 0 with its input and its output only.
abbrev only : ℕ → Fd
only fd = record {
  fotp = if fd == 0 then stdin_fotp else if fd == 1 then stdout_fotp else null;
  inode_number = 0;
  file_position = 0;
  in_use_flag = if fd == 0 then 1 else if fd == 1 then 1 else 0;
  arg = argument;
  text_file_flag = 0;
}

abbrev alone : Kernel
alone = record (running 0) { pcb = λ a. record ((running 0).pcb a) { fd_arr = only } }

alone-tail : get_pcb_tail alone 0 ≡ some shell_pcb
unfolding get_pcb_tail walk
alone-tail = refl

abbrev calling : Env
calling = record { fuel = 65; temp = zeros; previous = 0x26 }

alone-Prober : Prober shell_pcb alone
alone-Prober = record {
  tail = alone-tail;
  not_null = omega arith;
  below = omega arith;
  in_table = refl;
  in_use = refl;
  out_table = refl;
  out_use = refl;
  unused = λ fd l h. ground (arith, l);
}

syserr-Passes_example :
    Passes calling 0x2 100 200 0x40B000 shell_pcb alone
      (err_neg_fd (kernel_calls calling 0x2 100 200 0x40B000) zeros alone)
    × Passes calling 0x2 100 200 0x40B000 shell_pcb alone
        (err_big_fd (kernel_calls calling 0x2 100 200 0x40B000) zeros alone)
    × Passes calling 0x2 100 200 0x40B000 shell_pcb alone
        (err_unopened (kernel_calls calling 0x2 100 200 0x40B000) zeros alone)
    × Passes calling 0x2 100 200 0x40B000 shell_pcb alone
        (err_vidmap (kernel_calls calling 0x2 100 200 0x40B000) alone)
    × Passes calling 0x2 100 200 0x40B000 shell_pcb alone
        (err_stdin_out (kernel_calls calling 0x2 100 200 0x40B000) zeros alone)
    × Passes calling 0x2 100 200 0x40B000 shell_pcb alone
        (err_syscall_num (kernel_calls calling 0x2 100 200 0x40B000) alone)
syserr-Passes_example =
    syserr-Passes calling 0x2 100 200 0x40B000 shell_pcb alone zeros alone-Prober

abbrev name : Buf
name = memcpy_from (memset zeros 4 0 1024) 4 argument 0 1024

got : getargs alone zeros 4 1024 ≡ some (0, name)
unfolding getargs strlen get_pcb_tail walk
got = refl

-- The file "a" is open at 2.
abbrev opened_a : Kernel
opened_a = opened alone shell_pcb 2 file_fotp 0

opened_run : sys_open calling alone name 4 ≡ some (2, opened_a)
unfolding sys_open get_pcb_tail walk strlen open_at read_dentry_by_name find_dentry memcpy_from
    strncmp first_closed open_type load_dword boz_os.Files.open_file fopen
opened_run = refl

abbrev file_a : Fd
file_a = record (only 2) { fotp = file_fotp; in_use_flag = 1 }

a-length : inode_length disk 0 ≡ 10
unfolding load_dword
a-length = refl

a-Reader : Reader disk shell_pcb 2 file_a (only 1)
unfolding load_dword
a-Reader = record {
  not_null = omega arith;
  below = omega arith;
  other = omega arith;
  small = omega arith;
  table = refl;
  in_use = refl;
  file = record { inode_ok = omega arith; file_fits = omega arith; chain = λ j h. ground arith };
  out_table = refl;
  out_in_use = refl;
  out_plain = refl;
}

opened-AtByte : AtByte disk shell_pcb 2 file_a (only 1) 0 10 opened_a
unfolding get_pcb_tail walk opened set_fd load_dword
opened-AtByte = record {
  tail = refl;
  same_fs = refl;
  file = refl;
  out = refl;
  position = (refl, inr (refl, omega arith));
}

cat-prints_example :
    (k' : Kernel) × (cat (kernel_calls calling 0x2 100 200 0x40B000) 11 zeros alone ≡ some (0, k'))
    × Printed disk 0 0 10 opened_a k'
unfolding load_dword
cat-prints_example =
    cat-prints calling 0x2 100 200 0x40B000 disk shell_pcb 2 file_a (only 1) a-Reader 11 zeros name
      alone opened_a got opened_run opened-AtByte (omega arith)
