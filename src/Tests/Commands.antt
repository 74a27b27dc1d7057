-- ===== src/Tests/Commands.antt =====
-- Concrete commands that execute takes apart: student-distrib/syscalls.c.
use boz_os.Prelude.{
  ◌+◌, ℕ, ◌<◌, ◌≡◌, inl, refl, arith, some, Buf, minus_one, ◌==◌, if◌then◌else◌, ltb, bit_or,
}
use boz_os.Clib.Asm.{
  memset, memset_top, memset_bottom, rep_stosl, store_dword, splat, load_dword, memcpy_from,
}
use boz_os.Clib.Strings.{strncpy, strncpy_pad, strlen, strncmp}
use boz_os.Filesystem.{read_dentry_by_name, find_dentry}
use boz_os.State.{Kernel}
use boz_os.Execute.Argument.{execute-getargs}
use boz_os.Files.{getargs}
use boz_os.Execute.{
  user_cs, user_ds, user_stack, int_flag, Command, answers, enters, parse_command, scan_word,
  skip_spaces, is_text_file, execute,
}
use boz_os.Execute.Words.{IsLine, HoldsWord, parse_command-words}
use boz_os.Execute.Starting.{Runnable}
use boz_os.Execute.Refusing.{execute-refused}
use boz_os.Tests.{letters, zeros}
use boz_os.Tests.Programs.{
  boot_disk, ready, lists, surroundings, cleared, entry_a, a-checked, ready-IsTidy,
}

-- The command "b".
abbrev other : Buf
other q = if q == 0 then b'b' else 0

abbrev other_words : Command
other_words = record {
  cmd1 = strncpy cleared 0 other 0 1;
  cmd2 = strncpy cleared 0 other 1 0;
  arg_nbytes = 0;
}

b-parsed : parse_command zeros other 0 ≡ some other_words
unfolding parse_command scan_word skip_spaces
b-parsed = refl

b-missing : read_dentry_by_name 65 boot_disk other_words.cmd1 0 zeros ≡ some (minus_one, zeros)
unfolding read_dentry_by_name strlen find_dentry strncmp strncpy strncpy_pad memset memset_top
    memset_bottom rep_stosl store_dword splat
b-missing = refl

execute-refused_example :
    execute surroundings ready 0x2 100 200 other 0 ≡ some (answers minus_one ready)
execute-refused_example =
    execute-refused surroundings ready 0x2 100 200 other 0 other_words minus_one zeros b-parsed
      b-missing (inl refl)

-- The line "ab  c" at 4.
abbrev two_words : Buf
two_words q =
    if q == 4
    then b'a'
    else if q == 5
    then b'b'
    else if q == 6
    then b' '
    else if q == 7
    then b' '
    else if q == 8
    then b'c'
    else 0

two_words-IsLine : IsLine two_words 4 2 4 1
two_words-IsLine = record {
  first = record { inside = λ j h. ground arith; ends = refl };
  behind = omega arith;
  spaces = λ j h h'. ground arith;
  stop = λ e. omega (arith, e);
  second = record { inside = λ j h. ground arith; ends = refl };
  fits = omega arith;
}

parse_command-words_example :
    (c : Command) × (parse_command zeros two_words 4 ≡ some c)
    × HoldsWord c.cmd1 two_words 4 2
    × HoldsWord c.cmd2 two_words 8 1
    × (c.arg_nbytes ≡ 1)
parse_command-words_example = parse_command-words zeros two_words 4 2 4 1 two_words-IsLine

-- The command "a x".
abbrev with_x : Buf
with_x q = if q == 0 then b'a' else if q == 1 then b' ' else if q == 2 then b'x' else 0

with_x-IsLine : IsLine with_x 0 1 2 1
with_x-IsLine = record {
  first = record { inside = λ j h. ground arith; ends = refl };
  behind = omega arith;
  spaces = λ j h h'. ground arith;
  stop = λ e. omega (arith, e);
  second = record { inside = λ j h. ground arith; ends = refl };
  fits = omega arith;
}

abbrev x_words : Command
x_words = record {
  cmd1 = strncpy cleared 0 with_x 0 1;
  cmd2 = strncpy cleared 0 with_x 2 1;
  arg_nbytes = 1;
}

x-parsed : parse_command zeros with_x 0 ≡ some x_words
unfolding parse_command scan_word skip_spaces
x-parsed = refl

x-found : read_dentry_by_name 65 boot_disk x_words.cmd1 0 zeros ≡ some (0, entry_a)
unfolding read_dentry_by_name strlen find_dentry strncmp strncpy strncpy_pad memset memset_top
    memset_bottom rep_stosl store_dword splat
x-found = refl

x-argument : is_text_file x_words.cmd2 ≡ some 0
unfolding is_text_file strlen strncpy strncpy_pad memset memset_top memset_bottom rep_stosl
    store_dword splat
x-argument = refl

x-Runnable : Runnable surroundings ready with_x 0 x_words entry_a 0x080483E8 0
unfolding load_dword memcpy_from
x-Runnable = record {
  parsed = x-parsed;
  found = x-found;
  checked = a-checked;
  argument = x-argument;
  program = record {
    inode_ok = omega arith;
    some_bytes = omega arith;
    fits = omega arith;
    chain = λ j h. ground arith;
  };
}

execute-getargs_example :
    (k' : Kernel) × (buf' : Buf) × (execute surroundings ready 0x2 100 200 with_x 0
      ≡ some (enters 0x080483E8 user_cs (bit_or 0x2 int_flag) user_stack user_ds k'))
    × (getargs k' letters 4 3 ≡ some (0, buf'))
    × ((q : ℕ) → q < 3 → buf' (4 + q) ≡ (if ltb q 1 then with_x (2 + q) else 0))
execute-getargs_example =
    execute-getargs surroundings lists ready 0x2 100 200 with_x 0 1 2 1 x_words entry_a 0x080483E8 0
      3 letters 4 3 ready-IsTidy (omega arith) with_x-IsLine (omega arith) x-Runnable (omega arith)
      refl (omega arith)
