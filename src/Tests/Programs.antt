-- ===== src/Tests/Programs.antt =====
-- Concrete runs of execute and halt, student-distrib/syscalls.c, on a disk with one executable.
use boz_os.Prelude.{
  if_true, ap, ◌∙◌, true, ℕ, zero, suc, ◌≤◌, ◌≡◌, refl, arith, some, none, List, [], ◌∷◌, Buf, ◌==◌,
  if◌then◌else◌, bit_or,
}
use boz_os.Clib.Asm.{
  memset, memset_top, memset_bottom, rep_stosl, store_dword, splat, load_dword, memcpy_from,
}
use boz_os.Clib.Strings.{strncpy, strncpy_pad, strlen, strncmp}
use boz_os.Filesystem.{Fs, read_dentry_by_name, find_dentry, dentry_inode}
use boz_os.Filesystem.Blocks.{stream}
use boz_os.State.{Kernel}
use boz_os.Process.{get_pcb_base}
use boz_os.Process.Chain.{Chain}
use boz_os.Process.Invariant.{IsTidy}
use boz_os.Files.{Env}
use boz_os.Scheduler.{resumes, halt}
use boz_os.Execute.{
  user_cs, user_ds, user_stack, int_flag, Command, enters, parse_command, scan_word, skip_spaces,
  check_file, is_text_file, execute,
}
use boz_os.Execute.Starting.{Runnable, Entered, execute-Entered}
use boz_os.Execute.Returning.{Back, execute-halt}
use boz_os.Execute.Refusing.{HasHeader, has_magic, entry_of, check_file-magic}
use boz_os.Screen.{putc}
use boz_os.Lifecycle.{Steps, Events, event, no_event, starts, ends, prints, StandsFor, actions}
use boz_os.Lifecycle.Refinement.{sequence-Steps}
use boz_os.Tests.{zeros, image, disk, running}

-- The file "a" of 40 bytes, an executable.
abbrev pub program : Buf
program q =
    if q == 4096
    then 40
    else if q == 12288
    then 0x7F
    else if q == 12289
    then 0x45
    else if q == 12290
    then 0x4C
    else if q == 12291
    then 0x46
    else if q == 12312
    then 0xE8
    else if q == 12313
    then 0x83
    else if q == 12314
    then 0x04
    else if q == 12315
    then 0x08
    else image q

abbrev pub boot_disk : Fs
boot_disk = record disk { image = program }

-- Process 0 on terminal 0, as after boot.
abbrev pub ready : Kernel
ready = record (running 0) { fs = boot_disk }

abbrev pub lists : ℕ → List ℕ
lists zero = 0 ∷ []
lists (suc n) = []

pub ready-IsTidy : IsTidy lists ready
unfolding get_pcb_base
ready-IsTidy = record {
  chain = chain;
  counted = λ p h. ground arith;
  flag = λ p h. ground arith;
  free = λ p h u. refl;
}
  where
    chain : (t : ℕ) → t ≤ 2 → Chain ready.pcb (ready.terminal_table t).pcb_head (lists t)
    chain zero h = (omega arith, refl, refl)
    chain (suc n) h = ground arith

abbrev pub surroundings : Env
surroundings = record { fuel = 65; temp = zeros; previous = 0x26 }

abbrev pub cleared : Buf
cleared = memset zeros 0 0 128

-- The command "a", which ends at 1.
abbrev pub line : Buf
line q = if q == 0 then b'a' else 0

abbrev pub words : Command
words = record {
  cmd1 = strncpy cleared 0 line 0 1;
  cmd2 = strncpy cleared 0 line 1 0;
  arg_nbytes = 0;
}

pub line-parsed : parse_command zeros line 0 ≡ some words
unfolding parse_command scan_word skip_spaces
line-parsed = refl

abbrev pub entry_a : Buf
entry_a = memcpy_from zeros 0 program 64 64

pub a-found : read_dentry_by_name 65 boot_disk words.cmd1 0 zeros ≡ some (0, entry_a)
unfolding read_dentry_by_name strlen find_dentry strncmp strncpy strncpy_pad memset memset_top
    memset_bottom rep_stosl store_dword splat
a-found = refl

pub header : HasHeader boot_disk 0
unfolding load_dword
header = record {
  inode_ok = omega arith;
  long = omega arith;
  fits = omega arith;
  chain = λ j h. ground arith;
}

check_file-magic_example :
    check_file zeros boot_disk 0
    ≡ (if has_magic boot_disk 0 then some (entry_of boot_disk 0) else none)
check_file-magic_example = check_file-magic zeros boot_disk 0 header

no_argument : is_text_file words.cmd2 ≡ some 0
unfolding is_text_file strlen strncpy strncpy_pad memset memset_top memset_bottom rep_stosl
    store_dword splat
no_argument = refl

magic : has_magic boot_disk 0 ≡ true
unfolding stream load_dword
magic = refl

entry_point : entry_of boot_disk 0 ≡ 0x080483E8
unfolding stream load_dword
entry_point = refl

pub a-checked : check_file zeros boot_disk (dentry_inode entry_a) ≡ some 0x080483E8
unfolding load_dword memcpy_from
a-checked =
    check_file-magic zeros boot_disk 0 header
    ∙ if_true (some (entry_of boot_disk 0)) none magic
    ∙ ap some entry_point

a-Runnable : Runnable surroundings ready line 0 words entry_a 0x080483E8 0
unfolding load_dword memcpy_from
a-Runnable = record {
  parsed = line-parsed;
  found = a-found;
  checked = a-checked;
  argument = no_argument;
  program = record {
    inode_ok = omega arith;
    some_bytes = omega arith;
    fits = omega arith;
    chain = λ j h. ground arith;
  };
}

execute-Entered_example :
    Entered lists ready 100 200
      (dentry_inode entry_a)
      0
      words
      0x2
      0x080483E8
      (execute surroundings ready 0x2 100 200 line 0)
execute-Entered_example =
    execute-Entered surroundings lists ready 0x2 100 200 line 0 words entry_a 0x080483E8 0 3
      ready-IsTidy (omega arith) a-Runnable (omega arith) refl

execute-halt_example :
    (k' : Kernel) × (k'' : Kernel) × (execute surroundings ready 0x2 100 200 line 0
      ≡ some (enters 0x080483E8 user_cs (bit_or 0x2 int_flag) user_stack user_ds k'))
    × (halt k' 255 ≡ some (resumes 100 200 256 k''))
    × Back lists ready 0 k''
execute-halt_example =
    execute-halt surroundings lists ready 0x2 100 200 line 0 words entry_a 0x080483E8 0 3 0 [] 255
      ready-IsTidy (omega arith) refl a-Runnable (omega arith) refl

ready-StandsFor : StandsFor lists ready
ready-StandsFor = record {
  tidy = ready-IsTidy;
  here = omega arith;
  named = λ p h used. ground (arith, used);
}

a_runs :
    (k' : Kernel) × (k'' : Kernel) × (execute surroundings ready 0x2 100 200 line 0
      ≡ some (enters 0x080483E8 user_cs (bit_or 0x2 int_flag) user_stack user_ds k'))
    × (halt k' 0 ≡ some (resumes 100 200 0 k''))
    × Back lists ready 0 k''
a_runs =
    execute-halt surroundings lists ready 0x2 100 200 line 0 words entry_a 0x080483E8 0 3 0 [] 0
      ready-IsTidy (omega arith) refl a-Runnable (omega arith) refl

-- The program starts, ends, and a character is printed.
a_session : Events ready (putc a_runs.1 b'x')
a_session =
    event
      (starts surroundings 0x2 100 200 line 0 words entry_a 0x080483E8 0 3 0x080483E8 user_cs
        (bit_or 0x2 int_flag) user_stack user_ds a_runs.0 a-Runnable (omega arith) refl a_runs.2)
      (event (ends 0 100 200 0 a_runs.1 a_runs.3) (event (prints b'x') no_event))

sequence-Steps_example :
    (s' : ℕ → List ℕ) × Steps lists (actions a_session) s' × StandsFor s' (putc a_runs.1 b'x')
sequence-Steps_example = sequence-Steps lists ready (putc a_runs.1 b'x') ready-StandsFor a_session
