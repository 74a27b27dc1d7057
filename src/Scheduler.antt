-- ===== src/Scheduler.antt =====
-- student-distrib/scheduling.c: the timer's interrupt handler, which gives the processor to the next
-- terminal's running process, and halt of student-distrib/syscalls.c, which gives it to the parent.
pub mod Rotation
pub mod Halting
use boz_os.Idt.{Handler, timer, set_idt_wrapper, soft_int_start}
use boz_os.Prelude.{
  ℕ, zero, suc, ◌+◌, ◌*◌, ◌/◌, ◌%◌, ◌^◌, bit_or, Option, some, none, ◌>>=◌, ltb, leb, ◌==◌,
  if◌then◌else◌,
}
use boz_os.State.{Fd, Pcb, Kernel, null, update, outb, max_files, max_processes}
use boz_os.Process.{get_pcb_tail, unset_process_usage, reset_pcb_head, set_child}
use boz_os.Interrupts.{send_eoi, enable_irq}

-- Where the processor goes on: it returns to what was interrupted, runs execute("shell"), or loads
-- a stack pointer, a frame pointer and, for halt, the status.
pub data Next : Type 0 where
  returns : Kernel → Next
  executes : Kernel → Next
  resumes : (esp ebp eax : ℕ) → Kernel → Next

abbrev pub user_directory : ℕ
user_directory = 128 * 2 ^ 20 / 2 ^ 22

abbrev pub user_page_set_bits : ℕ
user_page_set_bits = 0x87

unfoldable pub set_active_task : Kernel → ℕ → Kernel
set_active_task k new_task = if leb 3 new_task then k else record k { active_task = new_task }

-- DEFAULT_FREQ / CLOCK_RATE is 1193182 / 128.
unfoldable pub pit_init : (Handler → ℕ) → Kernel → Kernel
pit_init address k =
    let k' = outb (set_active_task k 0) 0x36 0x43 in
    let k'' = outb (outb k' (9321 % 2 ^ 8) 0x40) (9321 / 2 ^ 8) 0x40 in
    set_idt_wrapper (enable_irq k'' 0) soft_int_start (address timer)

-- The two stores of the stack registers in a process structure.
unfoldable pub save_stack : Kernel → ℕ → ℕ → ℕ → Kernel
save_stack k p esp ebp = record k {
  pcb = update k.pcb p (record (k.pcb p) { esp_switch = esp; ebp_switch = ebp });
}

-- The paging and the kernel stack of a process.
unfoldable pub load_space : Kernel → Pcb → Kernel
load_space k p = record k {
  tss_esp0 = p.self_k_stack;
  page_directory = update k.page_directory user_directory (bit_or p.self_page user_page_set_bits);
}

unfoldable pub task_switch : Kernel → ℕ → ℕ → Option Next
task_switch k esp ebp = do
  let outgoing_task = k.active_task
  let incoming_task = (outgoing_task + 1) % 3
  incoming ← get_pcb_tail k incoming_task
  outgoing ← get_pcb_tail k outgoing_task
  let k' = set_active_task k incoming_task
  let saved = save_stack (load_space k' (k'.pcb incoming)) outgoing esp ebp
  let p = saved.pcb incoming
  some (
      if outgoing == 0
      then returns (send_eoi k 0)
      else if incoming == 0
      then executes (send_eoi (save_stack k' outgoing esp ebp) 0)
      else resumes p.esp_switch p.ebp_switch 0 (send_eoi saved 0))

-- `while (parent->child_pcb != self) parent = parent->child_pcb;`
unfoldable pub find_parent : ℕ → (ℕ → Pcb) → ℕ → ℕ → Option ℕ
find_parent zero pcb parent self = none
find_parent (suc fuel) pcb parent self =
    let rest = find_parent fuel pcb (pcb parent).child_pcb self in
    if (pcb parent).child_pcb == self then some parent else rest

-- The loop over the descriptors of the process that ends.
unfoldable pub close_all : (ℕ → Fd) → ℕ → Fd
close_all fd_arr i =
    if ltb i max_files
    then if (fd_arr i).in_use_flag == 1
      then record (fd_arr i) { fotp = null; inode_number = 0; file_position = 0; in_use_flag = 0 }
      else fd_arr i
    else fd_arr i

-- The rest of halt for a process that is not the base shell.
unfoldable pub halt_child : Kernel → ℕ → ℕ → ℕ → Option Next
halt_child k head self status = do
  parent ← find_parent max_processes k.pcb head self
  let pcb = set_child k.pcb parent 0
  let closed = record (pcb self) { fd_arr = close_all (pcb self).fd_arr }
  let k' = load_space (record k { pcb = update pcb self closed }) (pcb parent)
  some (resumes closed.self_esp closed.self_ebp status k')

-- `ebx` is what the caller passes; the parameter `status` is a `uint8_t`.
unfoldable pub halt : Kernel → ℕ → Option Next
halt k ebx = do
  let status = ebx % 256
  let status_32 = if status == 255 then 256 else status
  let head = (k.terminal_table k.active_task).pcb_head
  self ← get_pcb_tail k k.active_task
  let k' = unset_process_usage k (k.pcb self).pid
  if head == self
      then some (executes (reset_pcb_head k' k.active_task))
      else halt_child k' head self status_32
