-- ===== src/Files.antt =====
-- The descriptor calls of student-distrib/syscalls.c (open, close, read, write, getargs) with fread
-- of filesystem.c, terminal_read and terminal_write of terminal.c. A call works on the descriptors of
-- the last process of the active task's terminal. A pointer of the caller is an object and a
-- position, 0 for NULL.
pub mod Descriptors
pub mod Closing
pub mod Sequence
pub mod Lines
pub mod Typed
pub mod Pieces
use boz_os.Prelude.{
  ℕ, zero, suc, ◌+◌, ◌-◌, ◌*◌, ◌^◌, ◌%◌, not, ◌||◌, ◌&&◌, Bool, Option, some, none, ltb, leb, ◌==◌,
  if◌then◌else◌, ◌>>=◌, minus_one, slt32, add32, sub32, Buf, store,
}
use boz_os.Clib.Asm.{memset, memcpy_from}
use boz_os.Clib.Strings.{strlen}
use boz_os.Filesystem.{
  Fs, inode_length, read_data, dread, read_dentry_by_name, fopen, fclose, fwrite, dopen, dclose,
  dwrite, file_type, dentry_inode,
}
use boz_os.Screen.{putc}
use boz_os.Interrupts.{rtc_write, rtc_read, rtc_open, rtc_close}
use boz_os.State.{
  Kernel, Pcb, Fd, Fotp, null, stdin_fotp, stdout_fotp, file_fotp, dir_fotp, rtc_fotp, update,
  max_files, kernel_base, Wait, blocked, done,
}
use boz_os.Process.{get_pcb_tail}

-- `PCB->fd_arr[fd] = d`
unfoldable pub set_fd : Kernel → ℕ → ℕ → Fd → Kernel
set_fd k p fd d = record k {
  pcb = update k.pcb p (record (k.pcb p) { fd_arr = update (k.pcb p).fd_arr fd d });
}

-- The descriptor `fd` of the process whose structure stands at `p`.
abbrev pub fd_at : Kernel → ℕ → ℕ → Fd
fd_at k p fd = (k.pcb p).fd_arr fd

-- `PCB_base == NULL || PCB_base >= (pcb_t*) USER_MEM_P`
abbrev pub bad_pcb : ℕ → Bool
bad_pcb p = (p == 0) || leb kernel_base p

-- The first descriptor from `i` on, of `rounds`, that is not in use.
unfoldable pub first_closed : (ℕ → Fd) → ℕ → ℕ → ℕ
first_closed fd_arr zero i = minus_one
first_closed fd_arr (suc rounds) i =
    let rest = first_closed fd_arr rounds (i + 1) in
    if not ((fd_arr i).in_use_flag == 1) then i else rest

-- The four assignments of a branch of `open`. `inode_number` is a `uint8_t`.
unfoldable pub opened : Kernel → ℕ → ℕ → Fotp → ℕ → Kernel
opened k p fd table inode = set_fd k p fd (record (fd_at k p fd) {
  inode_number = inode % 256;
  file_position = 0;
  fotp = table;
  in_use_flag = 1;
})

-- What a call needs of its surroundings: a bound on the length of strings, the contents of an
-- uninitialised dentry_t on the stack, and what register A of the clock reads.
pub record Env : Type 0 where
  pub fuel : ℕ
  pub temp : Buf
  pub previous : ℕ

-- `return -1` with nothing done.
abbrev pub fail : Kernel → Option (ℕ × Kernel)
fail k = some (minus_one, k)

-- The branch of `open` for a regular file.
unfoldable pub open_file : Env → Kernel → ℕ → ℕ → Buf → ℕ → Buf → Option (ℕ × Kernel)
open_file env k p fd name at dentry = do
  status ← fopen env.fuel k.fs name at env.temp
  if not (status == 0) then fail k else some (fd, opened k p fd file_fotp (dentry_inode dentry))

-- The three branches of `open` on the file type.
unfoldable pub open_type : Env → Kernel → ℕ → ℕ → Buf → ℕ → Buf → Option (ℕ × Kernel)
open_type env k p fd name at dentry =
    let type = file_type dentry in
    let (clock, k') = rtc_open k env.previous in
    if type == 1
    then if not (dopen == 0) then fail k else some (fd, opened k p fd dir_fotp 0)
    else if type == 2
    then open_file env k p fd name at dentry
    else if type == 0
    then if not (clock == 0) then fail k' else some (fd, opened k' p fd rtc_fotp 0)
    else fail k

-- `open` for the process whose structure stands at `p`.
unfoldable pub open_at : Env → Kernel → ℕ → Buf → ℕ → Option (ℕ × Kernel)
open_at env k p name at = do
  (found, dentry) ← read_dentry_by_name env.fuel k.fs name at env.temp
  let fd = first_closed (k.pcb p).fd_arr max_files 0
  if (found == minus_one) || slt32 (max_files - 1) fd || (fd == minus_one)
      then fail k
      else open_type env k p fd name at dentry

unfoldable pub sys_open : Env → Kernel → Buf → ℕ → Option (ℕ × Kernel)
sys_open env k name at = do
  p ← get_pcb_tail k k.active_task
  if bad_pcb p then fail k else open_at env k p name at

-- The close entry of a table: all of them answer 0. A call through NULL is a fault.
abbrev pub close_entry : Fotp → Option ℕ
close_entry null = none
close_entry stdin_fotp = some 0
close_entry stdout_fotp = some 0
close_entry file_fotp = some fclose
close_entry dir_fotp = some dclose
close_entry rtc_fotp = some rtc_close

-- The close entry, then the flag.
unfoldable pub close_at : Kernel → ℕ → ℕ → Option (ℕ × Kernel)
close_at k p fd = do
  status ← close_entry (fd_at k p fd).fotp
  if not (status == 0)
      then fail k
      else some (0, set_fd k p fd (record (fd_at k p fd) { in_use_flag = 0 }))

unfoldable pub sys_close : Kernel → ℕ → Option (ℕ × Kernel)
sys_close k fd = do
  p ← get_pcb_tail k k.active_task
  if bad_pcb p
      then fail k
      else if (fd == 0) || (fd == 1) || slt32 fd 0 || slt32 (max_files - 1) fd
      then fail k
      else if not ((fd_at k p fd).in_use_flag == 1)
      then fail k
      else close_at k p fd

-- The result of a read: the status, the caller's buffer, and the kernel.
abbrev pub Reading : Type 0
Reading = Option (Wait (ℕ × Buf × Kernel))

unfoldable pub fread : Kernel → ℕ → ℕ → Buf → ℕ → ℕ → ℕ × Buf × Kernel
fread k p fd buf at nbytes =
    let d = fd_at k p fd in
    let (status, buf') = read_data k.fs d.inode_number d.file_position buf at nbytes in
    if leb (inode_length k.fs d.inode_number) d.file_position
    then (0, buf, k)
    else if status == minus_one
    then (minus_one, buf', k)
    else (status, buf', set_fd k p fd (record d { file_position = add32 d.file_position status }))

-- The copying loop of terminal_read: the index where it stops, the destination and int_buf.
unfoldable pub read_line : Buf → ℕ → Buf → ℕ → ℕ → ℕ × Buf × Buf
read_line dest at source zero i = (i, dest, source)
read_line dest at source (suc rounds) i =
    let dest' = store dest (at + i) (source i) in
    let rest = read_line dest' at (store source i 0) rounds (i + 1) in
    if source i == b'\n' then (i, dest', source) else rest

-- The shifting loop; a read at index 128 is outside int_buf.
unfoldable pub shift_line : ℕ → Buf → ℕ → ℕ → Option Buf
shift_line zero source c i = none
shift_line (suc fuel) source c i =
    let rest = shift_line fuel (store (store source c (source i)) i 0) (c + 1) (i + 1) in
    if leb 128 i then none else if source i == 0 then some source else rest

unfoldable pub terminal_read : Kernel → Buf → ℕ → ℕ → Reading
terminal_read k buf at nbytes =
    let bytes_to_copy = if slt32 nbytes 128 then nbytes else 128 in
    let (i, dest, source) = read_line buf at k.int_buf bytes_to_copy 0 in
    if (at == 0) || slt32 nbytes 0
    then some (done (minus_one, buf, k))
    else if not (k.terminal_read_release k.active_task == 1)
    then some blocked
    else do
      shifted ← shift_line 129 source 0 (i + 1)
      some (
          done (
            i,
            store dest (at + bytes_to_copy - 1) b'\n',
            record k {
              int_buf = shifted;
              terminal_read_release = update k.terminal_read_release k.active_task 0;
            },
          ))

-- The loop of terminal_write over the bytes that are left.
unfoldable pub write_bytes : Kernel → ℕ → Buf → ℕ → ℕ → ℕ → ℕ × Kernel
write_bytes k text_file_flag buf at zero i = (i, k)
write_bytes k text_file_flag buf at (suc rounds) i =
    let k' = putc k (buf (at + i)) in
    let rest = write_bytes k' text_file_flag buf at rounds (i + 1) in
    if (text_file_flag == 1) && (buf (at + i) == 0) then (i + 1, k') else rest

unfoldable pub terminal_write : Kernel → ℕ → ℕ → Buf → ℕ → ℕ → ℕ × Kernel
terminal_write k p fd buf at nbytes =
    if (at == 0) || slt32 nbytes 0
    then (minus_one, k)
    else write_bytes k (fd_at k p fd).text_file_flag buf at nbytes 0

-- The read entry of a table.
unfoldable pub read_entry : Env → Kernel → Fotp → ℕ → ℕ → Buf → ℕ → ℕ → Reading
read_entry env k null p fd buf at nbytes = some (done (minus_one, buf, k))
read_entry env k stdin_fotp p fd buf at nbytes = terminal_read k buf at nbytes
read_entry env k stdout_fotp p fd buf at nbytes = some (done (minus_one, buf, k))
read_entry env k file_fotp p fd buf at nbytes = some (done (fread k p fd buf at nbytes))
read_entry env k dir_fotp p fd buf at nbytes = do
  (n, buf', fs) ← dread env.fuel k.fs env.temp buf at
  some (done (n, buf', record k { fs = fs }))
read_entry env k rtc_fotp p fd buf at nbytes = elim (rtc_read k) [
  | blocked ↦ some blocked
  | done (status, k') ↦ some (done (status, buf, k'))
]

-- `buf == NULL || fd < 0 || fd > MAX_FILES-1 || nbytes < 0`
abbrev pub bad_arguments : ℕ → ℕ → ℕ → Bool
bad_arguments fd at nbytes = (at == 0) || slt32 fd 0 || slt32 (max_files - 1) fd || slt32 nbytes 0

unfoldable pub sys_read : Env → Kernel → ℕ → Buf → ℕ → ℕ → Reading
sys_read env k fd buf at nbytes = do
  p ← get_pcb_tail k k.active_task
  if bad_pcb p
      then some (done (minus_one, buf, k))
      else if bad_arguments fd at nbytes
      then some (done (minus_one, buf, k))
      else if (fd_at k p fd).in_use_flag == 0
      then some (done (minus_one, buf, k))
      else read_entry env k (fd_at k p fd).fotp p fd buf at nbytes

-- The write entry of a table; the table is read before it is known not to be NULL.
unfoldable pub write_entry : Env → Kernel → Fotp → ℕ → ℕ → Buf → ℕ → ℕ → Option (ℕ × Kernel)
write_entry env k null p fd buf at nbytes = none
write_entry env k stdin_fotp p fd buf at nbytes = fail k
write_entry env k stdout_fotp p fd buf at nbytes = some (terminal_write k p fd buf at nbytes)
write_entry env k file_fotp p fd buf at nbytes = some (fwrite, k)
write_entry env k dir_fotp p fd buf at nbytes = some (dwrite, k)
write_entry env k rtc_fotp p fd buf at nbytes = some (rtc_write k env.previous buf at)

unfoldable pub sys_write : Env → Kernel → ℕ → Buf → ℕ → ℕ → Option (ℕ × Kernel)
sys_write env k fd buf at nbytes = do
  p ← get_pcb_tail k k.active_task
  if bad_pcb p
      then fail k
      else if bad_arguments fd at nbytes
      then fail k
      else if (fd_at k p fd).in_use_flag == 0
      then fail k
      else write_entry env k (fd_at k p fd).fotp p fd buf at nbytes

-- getargs changes the caller's buffer only. Behind its 128 bytes, `arg` reads what follows it in
-- memory.
unfoldable pub getargs : Kernel → Buf → ℕ → ℕ → Option (ℕ × Buf)
getargs k buf at nbytes = do
  p ← get_pcb_tail k k.active_task
  if bad_pcb p then some (minus_one, buf) else do
    n ← strlen 128 (fd_at k p 0).arg 0
    some (
        if n == 0
        then (minus_one, buf)
        else (0, memcpy_from (memset buf at 0 1024) at (fd_at k p 0).arg 0 nbytes))
