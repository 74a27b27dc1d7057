-- ===== src/Execute.antt =====
-- execute of student-distrib/syscalls.c, with set_handler and sigreturn. The processor's flags and
-- stack registers at the call are arguments.
pub mod Words
pub mod Loading
pub mod Starting
pub mod Returning
pub mod Refusing
pub mod Argument
pub mod Full
use boz_os.Prelude.{
  false, ℕ, zero, suc, ◌+◌, ◌*◌, ◌-◌, ◌^◌, ◌%◌, bit_or, ◌||◌, not, Bool, Option, some, none, ◌>>=◌,
  [], ltb, ◌==◌, if◌then◌else◌, minus_one, Buf, String, literal,
}
use boz_os.Clib.Asm.{memset}
use boz_os.Clib.Strings.{strlen, strncmp, strncpy}
use boz_os.Filesystem.{Fs, read_data, read_dentry_by_name, dentry_inode}
use boz_os.Printf.{printf}
use boz_os.State.{
  Kernel, Pcb, Fd, null, stdin_fotp, stdout_fotp, update, max_files, kernel_base, pcb_offset,
}
use boz_os.Process.{get_pcb_base, add_pcb}
use boz_os.Files.{Env}
use boz_os.Terminals.{kb_size}
use boz_os.Scheduler.{user_directory, user_page_set_bits}

abbrev pub user_prog_size : ℕ
user_prog_size = 4 * 2 ^ 20

-- USER_PROG_LOC, from the start of the page of USER_MEM_V.
abbrev pub user_prog_offset : ℕ
user_prog_offset = 0x08048000 - 128 * 2 ^ 20

abbrev pub user_stack : ℕ
user_stack = 132 * 2 ^ 20 - 4

abbrev pub user_cs : ℕ
user_cs = 0x23

abbrev pub user_ds : ℕ
user_ds = 0x2B

abbrev pub int_flag : ℕ
int_flag = 0x200

abbrev pub entry_pt_offset : ℕ
entry_pt_offset = 24

abbrev pub min_name_text : ℕ
min_name_text = 4

-- Where a local array stands: anywhere but at NULL.
abbrev pub stack_at : ℕ
stack_at = 4

-- What execute does: it returns to its caller, or leaves for a user program by IRET, with the five
-- words that this takes from the stack.
pub data Launch : Type 0 where
  answers : ℕ → Kernel → Launch
  enters : (eip cs eflags esp ss : ℕ) → Kernel → Launch

-- The first word, and what is behind it up to the next separator.
pub record Command : Type 0 where
  pub cmd1 : Buf
  pub cmd2 : Buf
  pub arg_nbytes : ℕ

-- `command[i] == '\n' || command[i] == '\0' || command[i] == ' '`
abbrev pub separates : ℕ → Bool
separates c = (c == b'\n') || (c == 0) || (c == b' ')

-- The index at which a scanning loop stops, with `rounds` to go at `i`.
unfoldable pub scan_word : Buf → ℕ → ℕ → ℕ → ℕ
scan_word command at zero i = i
scan_word command at (suc rounds) i =
    let rest = scan_word command at rounds (i + 1) in
    if separates (command (at + i)) then i else rest

-- `while (command[i] == ' ') i++`; `i` is a `uint8_t`, so 256 spaces are read for ever.
unfoldable pub skip_spaces : ℕ → Buf → ℕ → ℕ → Option ℕ
skip_spaces zero command at i = none
skip_spaces (suc fuel) command at i =
    let rest = skip_spaces fuel command at ((i + 1) % 256) in
    if command (at + i) == b' ' then rest else some i

-- Step 1. Without a separator in 128 bytes, cmd1 is all of them and cmd2 is empty.
unfoldable pub parse_command : Buf → Buf → ℕ → Option Command
unfolding scan_word skip_spaces
parse_command temp command at = do
  let nbytes = scan_word command at kb_size 0
  let cleared = memset temp 0 0 kb_size
  i ← skip_spaces 256 command at nbytes
  let j = scan_word command at (kb_size - i) i
  let arg_nbytes = if ltb j kb_size then j - i else 0
  some (record {
    cmd1 = strncpy cleared 0 command at nbytes;
    cmd2 = strncpy cleared 0 command (at + i) arg_nbytes;
    arg_nbytes = arg_nbytes;
  })

-- The four tests on exe_buf.
abbrev pub is_executable : Buf → Bool
is_executable exe_buf =
    if not (exe_buf stack_at == 0x7F)
    then false
    else if not (exe_buf (stack_at + 1) == 0x45)
    then false
    else if not (exe_buf (stack_at + 2) == 0x4C)
    then false
    else exe_buf (stack_at + 3) == 0x46

-- `entry_pt_addr | (entry_pt_buf[i] << SHIFT_8*i)`, four times.
unfoldable pub entry_pt_addr : Buf → ℕ
entry_pt_addr b =
    bit_or
      (bit_or (bit_or (bit_or 0 (b stack_at)) (b (stack_at + 1) * 2 ^ 8))
        (b (stack_at + 2) * 2 ^ 16))
      (b (stack_at + 3) * 2 ^ 24)

-- Step 2 behind the search for the name: the entry point, or `none` for `return -1`.
unfoldable pub check_file : Buf → Fs → ℕ → Option ℕ
unfolding entry_pt_addr
check_file temp fs inode =
    let (status, exe_buf) = read_data fs inode 0 temp stack_at 4 in
    let (status', entry_pt_buf) = read_data fs inode entry_pt_offset temp stack_at 4 in
    if status == minus_one
    then none
    else if not (is_executable exe_buf)
    then none
    else if status' == minus_one
    then none
    else some (entry_pt_addr entry_pt_buf)

-- The loop that clears the descriptors.
unfoldable pub clear_fds : (ℕ → Fd) → ℕ → Fd
clear_fds fd_arr i =
    if ltb i max_files
    then record (fd_arr i) { fotp = null; inode_number = 0; file_position = 0; in_use_flag = 0 }
    else fd_arr i

-- The text flag: whether the argument ends in ".txt".
unfoldable pub is_text_file : Buf → Option ℕ
is_text_file cmd2 = do
  n ← strlen kb_size cmd2 0
  let same = strncmp cmd2 (n - min_name_text) (literal ".txt") 0 min_name_text
  some (if ltb min_name_text n then if same == 0 then 1 else 0 else 0)

-- The descriptors of a new process.
unfoldable pub start_fds : (ℕ → Fd) → Command → ℕ → ℕ → Fd
unfolding clear_fds
start_fds fd_arr c text =
    let cleared = clear_fds fd_arr in
    let arg = strncpy (memset (cleared 0).arg 0 0 kb_size) 0 c.cmd2 0 c.arg_nbytes in
    let stdin = record (cleared 0) { fotp = stdin_fotp; in_use_flag = 1; arg = arg } in
    let stdout = record (cleared 1) {
      fotp = stdout_fotp;
      in_use_flag = 1;
      text_file_flag = text;
    } in
    update (update cleared 0 stdin) 1 stdout

-- `new_esp0`
abbrev pub kernel_stack : ℕ → ℕ
kernel_stack process_num = kernel_base - process_num * pcb_offset - 4

-- `user_prog_physical_mem`
abbrev pub user_page : ℕ → ℕ
user_page process_num = kernel_base + process_num * user_prog_size

-- Steps 5 and 6. The structure keeps its child_pcb.
unfoldable pub start_process : Kernel → ℕ → ℕ → ℕ → Command → ℕ → Kernel
unfolding start_fds
start_process k process_num esp ebp c text =
    let pcb_base = get_pcb_base process_num in
    record k {
      pcb = update k.pcb pcb_base (record (k.pcb pcb_base) {
        status = 1;
        pid = process_num;
        self_k_stack = kernel_stack process_num;
        self_page = user_page process_num;
        fd_arr = start_fds (k.pcb pcb_base).fd_arr c text;
        self_esp = esp;
        self_ebp = ebp;
        esp_switch = esp;
        ebp_switch = ebp;
      });
      tss_esp0 = kernel_stack process_num;
    }

-- Step 3 behind add_PCB: the program's page.
unfoldable pub map_user_page : Kernel → ℕ → Kernel
map_user_page k process_num = record k {
  page_directory =
      update k.page_directory user_directory (bit_or (user_page process_num) user_page_set_bits);
}

-- Steps 4 to 6.
unfoldable pub load_program :
    Kernel → ℕ → (eflags esp ebp inode entry : ℕ) → Command → Option Launch
unfolding start_process map_user_page
load_program k process_num eflags esp ebp inode entry c =
    let mapped = map_user_page k process_num in
    let data_buf = user_page process_num + user_prog_offset in
    let (status, memory) = read_data k.fs inode 0 k.memory data_buf user_prog_size in
    let loaded = record mapped { memory = memory } in
    if status == minus_one then some (answers minus_one loaded) else (do
      text ← is_text_file c.cmd2
      some (
          enters entry user_cs (bit_or eflags int_flag) user_stack user_ds
            (start_process loaded process_num esp ebp c text)))

-- Steps 3 to 6.
unfoldable pub launch : Env → Kernel → (eflags esp ebp inode entry : ℕ) → Command → Option Launch
unfolding load_program
launch env k eflags esp ebp inode entry c = do
  (process_num, k') ← add_pcb k k.active_task
  if process_num == minus_one
      then (do
        (_, k'') ←
            printf env.temp env.fuel k' (literal "Maximum number of processes exceeded.\n") []
        some (answers 256 k''))
      else load_program k' process_num eflags esp ebp inode entry c

unfoldable pub execute : Env → Kernel → (eflags esp ebp : ℕ) → Buf → ℕ → Option Launch
unfolding parse_command check_file launch
execute env k eflags esp ebp command at = do
  c ← parse_command env.temp command at
  (found, dentry) ← read_dentry_by_name env.fuel k.fs c.cmd1 0 env.temp
  if found == minus_one
      then some (answers minus_one k)
      else elim (check_file env.temp k.fs (dentry_inode dentry)) [
        | none ↦ some (answers minus_one k)
        | some entry ↦ launch env k eflags esp ebp (dentry_inode dentry) entry c
      ]

unfoldable pub set_handler : Env → Kernel → Option (ℕ × Kernel)
set_handler env k = do
  (_, k') ← printf env.temp env.fuel k (literal "System call SET_HANDLER.\n") []
  some (0, k')

unfoldable pub sigreturn : Env → Kernel → Option (ℕ × Kernel)
sigreturn env k = do
  (_, k') ← printf env.temp env.fuel k (literal "System call SIGRETURN.\n") []
  some (0, k')
