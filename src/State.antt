-- ===== src/State.antt =====
-- The global variables of student-distrib/*.c in one record, and the structures that they hold:
-- fd_t and pcb_t of syscalls.h, term_t of multi_term.h. A table is a function of its index. A
-- `pcb_t *` is its address, 0 for NULL, and `pcb` gives the structure that stands there.
use boz_os.Prelude.{
  ap, sym, ◌∙◌, ℕ, ◌*◌, ◌^◌, ◌≡◌, ◌≢◌, refl, false, Buf, List, ◌∷◌, ◌==◌, ==_iff, if◌then◌else◌,
  if_true, if_false, arith,
}
use native.Mathlib.Decide.{ℕ_discrete}
use boz_os.Filesystem.{Fs}

-- The four file operation tables of syscalls.c, and NULL.
pub data Fotp : Type 0 where
  null stdin_fotp stdout_fotp file_fotp dir_fotp rtc_fotp : Fotp

pub record Fd : Type 0 where
  pub fotp : Fotp
  pub inode_number : ℕ
  pub file_position : ℕ
  pub in_use_flag : ℕ
  pub arg : Buf
  pub text_file_flag : ℕ

pub record Pcb : Type 0 where
  pub status : ℕ
  pub pid : ℕ
  pub fd_arr : ℕ → Fd
  pub self_esp : ℕ
  pub self_ebp : ℕ
  pub self_k_stack : ℕ
  pub self_page : ℕ
  pub esp_switch : ℕ
  pub ebp_switch : ℕ
  pub child_pcb : ℕ

pub record Term : Type 0 where
  pub pcb_head : ℕ
  pub kb_buf : Buf
  pub video : ℕ
  pub x : ℕ
  pub y : ℕ
  pub color : ℕ
  pub vidmap_addr : ℕ

-- A gate of the interrupt descriptor table, idt_desc_t of x86_desc.h.
pub record Gate : Type 0 where
  pub offset_15_00 : ℕ
  pub offset_31_16 : ℕ
  pub seg_selector : ℕ
  pub reserved4 : ℕ
  pub reserved3 : ℕ
  pub reserved2 : ℕ
  pub reserved1 : ℕ
  pub reserved0 : ℕ
  pub size : ℕ
  pub dpl : ℕ
  pub present : ℕ

-- A segment descriptor of the global descriptor table, seg_desc_t of x86_desc.h.
pub record SegDesc : Type 0 where
  pub seg_lim_15_00 : ℕ
  pub base_15_00 : ℕ
  pub base_23_16 : ℕ
  pub type : ℕ
  pub sys : ℕ
  pub dpl : ℕ
  pub present : ℕ
  pub seg_lim_19_16 : ℕ
  pub avail : ℕ
  pub reserved : ℕ
  pub opsize : ℕ
  pub granularity : ℕ
  pub base_31_24 : ℕ

-- `vram` holds the video pages by physical address, `memory` the user pages; `ports` is what has been written to ports, the
-- last write first, as port and value. A flag of an enumeration with two values is 0 or 1.
pub record Kernel : Type 0 where
  pub terminal_table : ℕ → Term
  pub process_usage : ℕ → ℕ
  pub active_terminal : ℕ
  pub active_task : ℕ
  pub pcb : ℕ → Pcb
  pub page_directory : ℕ → ℕ
  pub page_table : ℕ → ℕ
  pub vidmap_ptable : ℕ → ℕ
  pub tss_esp0 : ℕ
  pub vram : Buf
  pub memory : Buf
  pub idt : ℕ → Gate
  pub gdt : ℕ → SegDesc
  pub ports : List (ℕ × ℕ)
  pub kb_buf : Buf
  pub int_buf : Buf
  pub terminal_read_release : ℕ → ℕ
  pub key_status : ℕ
  pub interrupt_flag : ℕ → ℕ
  pub master_mask : ℕ
  pub slave_mask : ℕ
  pub slave_number : ℕ
  pub fs : Fs

abbrev pub max_processes : ℕ
max_processes = 6

abbrev pub max_files : ℕ
max_files = 8

abbrev pub term_3 : ℕ
term_3 = 2

-- 8 << ALIGN_1MB, 8 << ALIGN_1KB
abbrev pub kernel_base : ℕ
kernel_base = 8 * 2 ^ 20

abbrev pub pcb_offset : ℕ
pcb_offset = 8 * 2 ^ 10

-- `t[i] = v` in a table.
abbrev pub update {ℓ} : {A : Type ℓ} → (ℕ → A) → ℕ → A → ℕ → A
update f i v j = if j == i then v else f j

pub update_own {ℓ} : {A : Type ℓ} (f : ℕ → A) (i : ℕ) (v : A) → update f i v i ≡ v
update_own f i v = if_true v (f i) ((==_iff i i).1 refl)

pub update_other {ℓ} :
    {A : Type ℓ} (f : ℕ → A) (i : ℕ) (v : A) (j : ℕ) → j ≢ i → update f i v j ≡ f j
update_other f i v j ne = let miss : (j == i) ≡ false = ground (arith, ne) in if_false v (f j) miss

-- A field that the new entry has from the old one.
pub update_field {ℓ} :
    {A : Type ℓ} {B : Type ℓ} (g : A → B) (f : ℕ → A) (i : ℕ) (v : A) (j : ℕ)
    → g v ≡ g (f i)
    → g (update f i v j) ≡ g (f j)
update_field g f i v j same = elim (ℕ_discrete j i) [
  | yes e ↦
      ap (λ j. g (update f i v j)) e ∙ ap g (update_own f i v) ∙ same ∙ ap (λ j. g (f j)) (sym e)
  | no ne ↦ ap g (update_other f i v j ne)
]

unfoldable pub outb : Kernel → ℕ → ℕ → Kernel
outb k value port = record k { ports = (port, value) ∷ k.ports }

-- A call that spins on a flag is blocked until an interrupt handler sets it.
pub data Wait {ℓ} (A : Type ℓ) : Type ℓ where
  blocked : Wait A
  done : A → Wait A
