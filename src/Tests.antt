-- ===== src/Tests.antt =====
-- Concrete inputs that the theorems are applied to: a small object of bytes, an image of one file, a
-- kernel with one process.
mod Strings
mod Images
mod Consoles
mod Processes
mod Devices
mod Tasks
mod Programs
mod Endings
mod Commands
mod Booting
mod Users
use boz_os.Prelude.{
  ℕ, ◌+◌, ◌-◌, ◌*◌, ◌%◌, ◌<◌, Buf, IsBytes, List, [], ◌∷◌, leb, ltb, ◌&&◌, ◌==◌, if◌then◌else◌,
  arith,
}
use boz_os.Filesystem.{Fs}
use boz_os.State.{
  SegDesc, Gate, Fotp, Fd, Pcb, Term, Kernel, null, stdin_fotp, stdout_fotp, file_fotp, kernel_base,
  pcb_offset,
}

-- The letters "abc" at 4, zeros around them.
abbrev pub letters : Buf
letters q = if q == 4 then b'a' else if q == 5 then b'b' else if q == 6 then b'c' else 0

pub letters-IsBytes : IsBytes letters
letters-IsBytes q = ground arith

-- One directory entry, the regular file "a" of 10 bytes at inode 0, with one data block.
abbrev pub image : Buf
image q =
    if q == 0
    then 1
    else if q == 4
    then 1
    else if q == 8
    then 1
    else if q == 64
    then b'a'
    else if q == 96
    then 2
    else if q == 4096
    then 10
    else if leb 12288 q && ltb q 12298
    then b'0' + (q - 12288)
    else 0

pub image-IsBytes : IsBytes image
image-IsBytes q = ground arith

abbrev pub disk : Fs
disk = record {
  image = image;
  boot = 0;
  dentries = 64;
  inodes = 4096;
  data_blocks = 12288;
  dread_loc = 0;
}

abbrev pub zeros : Buf
zeros q = 0

-- Descriptor 2 stands for the file, 0 and 1 for the terminal, and the rest are closed.
abbrev descriptors : ℕ → Fd
descriptors fd = record {
  fotp =
      if fd == 0
      then stdin_fotp
      else if fd == 1
      then stdout_fotp
      else if fd == 2
      then file_fotp
      else null;
  inode_number = 0;
  file_position = 0;
  in_use_flag = if ltb fd 3 then 1 else 0;
  arg = zeros;
  text_file_flag = 0;
}

abbrev shell : Pcb
shell = record {
  status = 0;
  pid = 0;
  fd_arr = descriptors;
  self_esp = 0;
  self_ebp = 0;
  self_k_stack = 0;
  self_page = 0;
  esp_switch = 0;
  ebp_switch = 0;
  child_pcb = 0;
}

-- Where the structure of process 0 stands.
abbrev pub shell_pcb : ℕ
shell_pcb = kernel_base - pcb_offset

abbrev terminals : ℕ → Term
terminals n = record {
  pcb_head = if n == 0 then shell_pcb else 0;
  kb_buf = zeros;
  video = 0xB9000 + 0x1000 * n;
  x = 79;
  y = 24;
  color = 2;
  vidmap_addr = 0;
}

abbrev blank_gate : Gate
blank_gate = record {
  offset_15_00 = 0;
  offset_31_16 = 0;
  seg_selector = 0;
  reserved4 = 0;
  reserved3 = 0;
  reserved2 = 0;
  reserved1 = 0;
  reserved0 = 0;
  size = 0;
  dpl = 0;
  present = 0;
}

abbrev blank_segment : SegDesc
blank_segment = record {
  seg_lim_15_00 = 0;
  base_15_00 = 0;
  base_23_16 = 0;
  type = 0;
  sys = 0;
  dpl = 0;
  present = 0;
  seg_lim_19_16 = 0;
  avail = 0;
  reserved = 0;
  opsize = 0;
  granularity = 0;
  base_31_24 = 0;
}

-- Process 0 on terminal 0, which the scheduler has given the processor; `shown` is the terminal on the
-- screen.
abbrev pub running : ℕ → Kernel
running shown = record {
  terminal_table = terminals;
  process_usage = λ p. if p == 0 then 1 else 0;
  active_terminal = shown;
  active_task = 0;
  pcb = λ a. shell;
  page_directory = zeros;
  page_table = zeros;
  vidmap_ptable = zeros;
  tss_esp0 = 0;
  vram = zeros;
  memory = zeros;
  idt = λ i. blank_gate;
  gdt = λ i. blank_segment;
  ports = [];
  kb_buf = zeros;
  int_buf = zeros;
  terminal_read_release = zeros;
  key_status = 0;
  interrupt_flag = zeros;
  master_mask = 0xFF;
  slave_mask = 0xFF;
  slave_number = 0;
  fs = disk;
}
