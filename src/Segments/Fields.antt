-- ===== src/Segments/Fields.antt =====
-- What the processor reads from a segment descriptor: student-distrib/x86_desc.h.
use boz_os.Prelude.{◌∙◌, ◌≢◌, ℕ, ◌+◌, ◌*◌, ◌/◌, ◌%◌, ◌^◌, ◌<◌, ◌≡◌, arith}
use boz_os.State.{update_other, Kernel, SegDesc, update}
use boz_os.Segments.{
  set_params, init_segments, val, ldt_index, tss_index, ldt_size, tss_size, the_ldt_desc,
  the_tss_desc,
}

-- The fields of the two double words, by the place of their bits.
abbrev pub base_of : ℕ × ℕ → ℕ
base_of (low, high) = low / 2 ^ 16 % 2 ^ 16 + high % 2 ^ 8 * 2 ^ 16 + high / 2 ^ 24 % 2 ^ 8 * 2 ^ 24

abbrev pub limit_of : ℕ × ℕ → ℕ
limit_of (low, high) = low % 2 ^ 16 + high / 2 ^ 16 % 2 ^ 4 * 2 ^ 16

abbrev pub access_of : ℕ × ℕ → ℕ
access_of (low, high) = high / 2 ^ 8 % 2 ^ 8

abbrev pub flags_of : ℕ × ℕ → ℕ
flags_of (low, high) = high / 2 ^ 20 % 2 ^ 4

-- A descriptor as the processor sees it: its base, its limit, the byte of the access rights and the four
-- flags.
abbrev pub Describes : ℕ × ℕ → (base limit access flags : ℕ) → Type 0
Describes words base limit access flags =
    (base_of words ≡ base)
    × (limit_of words ≡ limit)
    × (access_of words ≡ access)
    × (flags_of words ≡ flags)

-- When entry has made its descriptors, whatever the stack held, and if the LDT and the TSS stand at
-- 32-bit addresses: the two double words of the entry of KERNEL_LDT describe a present LDT at its
-- address with the limit 31, those of the entry of KERNEL_TSS a present, available TSS at its address
-- with the limit 103, and no other entry has changed.
pub init_segments-Describes :
    (stack : SegDesc) (ldt tss : ℕ) (k : Kernel)
    → ldt < 2 ^ 32
    → tss < 2 ^ 32
    → Describes (val ((init_segments stack ldt tss k).gdt ldt_index)) ldt 31 0x82 0x4
      × Describes (val ((init_segments stack ldt tss k).gdt tss_index)) tss 103 0x89 0
      × ((i : ℕ) → i ≢ ldt_index → i ≢ tss_index → (init_segments stack ldt tss k).gdt i ≡ k.gdt i)
unfolding init_segments
init_segments-Describes stack ldt tss k h h' = (
  (omega arith, omega arith, omega arith, omega arith),
  (omega arith, omega arith, omega arith, omega arith),
  λ i a b.
      let first = update k.gdt ldt_index (set_params (the_ldt_desc stack) ldt ldt_size) in
      update_other first tss_index (set_params (the_tss_desc stack) tss tss_size) i b
      ∙ update_other k.gdt ldt_index (set_params (the_ldt_desc stack) ldt ldt_size) i a,
)
