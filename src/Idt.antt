-- ===== src/Idt.antt =====
-- student-distrib/IDT.c: the gates of the interrupt descriptor table. Where the linker puts an entry
-- point is a parameter.
pub mod Gates
use boz_os.Prelude.{◌-◌, ℕ, zero, suc, ◌+◌, ◌/◌, ◌%◌, ◌^◌, ltb, ◌==◌, if◌then◌else◌}
use boz_os.State.{Kernel, Gate, update}

-- The entry points: those of IDT_asm.S, and handle_default of IDT.c.
pub data Handler : Type 0 where
  exception : ℕ → Handler
  default_asm default syscall timer keyboard rtc : Handler

abbrev pub soft_int_start : ℕ
soft_int_start = 0x20

abbrev pub kernel_cs : ℕ
kernel_cs = 0x10

abbrev pub n_exceptions : ℕ
n_exceptions = 20

abbrev pub n_exceptions_reserved : ℕ
n_exceptions_reserved = 32

abbrev pub num_vec : ℕ
num_vec = 256

abbrev pub sys_call_addr : ℕ
sys_call_addr = 0x80

-- What set_IDT_wrapper writes: SET_IDT_ENTRY, then the other fields.
abbrev pub gate : ℕ → Gate
gate handler = record {
  offset_15_00 = handler % 2 ^ 16;
  offset_31_16 = handler / 2 ^ 16 % 2 ^ 16;
  seg_selector = kernel_cs;
  reserved4 = 0;
  reserved3 = 1;
  reserved2 = 1;
  reserved1 = 1;
  reserved0 = 0;
  size = 1;
  dpl = 0;
  present = 1;
}

-- `idt_num` is a `uint8_t`.
unfoldable pub set_idt_wrapper : Kernel → ℕ → ℕ → Kernel
set_idt_wrapper k idt_num handler = record k { idt = update k.idt (idt_num % 256) (gate handler) }

-- The first loop of init_IDT from index `i` on.
unfoldable pub init_exceptions : (Handler → ℕ) → Kernel → ℕ → ℕ → Kernel
init_exceptions address k zero i = k
init_exceptions address k (suc rounds) i =
    let h = if ltb i n_exceptions then exception i else default_asm in
    init_exceptions address (set_idt_wrapper k i (address h)) rounds (i + 1)

-- The body of the second loop.
unfoldable pub init_vector : (Handler → ℕ) → Kernel → ℕ → Kernel
init_vector address k i =
    let k' = set_idt_wrapper k i (address default) in
    let absent = record k' { idt = update k'.idt i (record (k'.idt i) { present = 0 }) } in
    let k'' = set_idt_wrapper absent i (address syscall) in
    if i == sys_call_addr
    then record k'' {
      idt = update k''.idt i (record (k''.idt i) { dpl = 3; seg_selector = kernel_cs });
    }
    else absent

-- The second loop from index `i` on.
unfoldable pub init_vectors : (Handler → ℕ) → Kernel → ℕ → ℕ → Kernel
init_vectors address k zero i = k
init_vectors address k (suc rounds) i =
    init_vectors address (init_vector address k i) rounds (i + 1)

unfoldable pub init_idt : (Handler → ℕ) → Kernel → Kernel
init_idt address k =
    init_vectors address (init_exceptions address k n_exceptions_reserved 0)
      (num_vec - soft_int_start) soft_int_start
