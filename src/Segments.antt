-- ===== src/Segments.antt =====
-- The descriptors of segments: seg_desc_t and SET_LDT_PARAMS, SET_TSS_PARAMS of student-distrib/x86_desc.h,
-- and the entries for the LDT and the TSS that entry of student-distrib/kernel.c makes. Where the linker
-- puts the two structures is a parameter. Of the TSS the state keeps esp0: ss0 and ldt_segment_selector
-- are written with the same constants wherever they are written.
pub mod Fields
use boz_os.Prelude.{ℕ, ◌+◌, ◌*◌, ◌/◌, ◌%◌, ◌^◌}
use boz_os.State.{Kernel, SegDesc, update}

abbrev pub tss_size : ℕ
tss_size = 103

abbrev pub ldt_size : ℕ
ldt_size = 31

-- KERNEL_TSS and KERNEL_LDT, as indices of the table.
abbrev pub tss_index : ℕ
tss_index = 0x30 / 8

abbrev pub ldt_index : ℕ
ldt_index = 0x38 / 8

-- SET_LDT_PARAMS, and SET_TSS_PARAMS, which is the same.
abbrev pub set_params : SegDesc → ℕ → ℕ → SegDesc
set_params d addr lim = record d {
  base_31_24 = addr / 2 ^ 24 % 2 ^ 8;
  base_23_16 = addr / 2 ^ 16 % 2 ^ 8;
  base_15_00 = addr % 2 ^ 16;
  seg_lim_19_16 = lim / 2 ^ 16 % 2 ^ 4;
  seg_lim_15_00 = lim % 2 ^ 16;
}

-- `the_ldt_desc`, before its parameters are set, in the place of what it held.
abbrev pub the_ldt_desc : SegDesc → SegDesc
the_ldt_desc d = record d {
  granularity = 0;
  opsize = 1;
  reserved = 0;
  avail = 0;
  present = 1;
  dpl = 0;
  sys = 0;
  type = 2;
}

-- `the_tss_desc`, likewise. TSS_SIZE is 104.
abbrev pub the_tss_desc : SegDesc → SegDesc
the_tss_desc d = record d {
  granularity = 0;
  opsize = 0;
  reserved = 0;
  avail = 0;
  seg_lim_19_16 = 0;
  present = 1;
  dpl = 0;
  sys = 0;
  type = 9;
  seg_lim_15_00 = 104;
}

-- The two descriptors are made on the stack, whose contents are a parameter, and copied to their
-- entries.
unfoldable pub init_segments : SegDesc → (ldt tss : ℕ) → Kernel → Kernel
init_segments stack ldt tss k =
    let ldt_desc = set_params (the_ldt_desc stack) ldt ldt_size in
    let tss_desc = set_params (the_tss_desc stack) tss tss_size in
    record k {
      gdt = update (update k.gdt ldt_index ldt_desc) tss_index tss_desc;
      tss_esp0 = 0x800000;
    }

-- The double words `val` of the union, low one first.
abbrev pub val : SegDesc → ℕ × ℕ
val d = (
  d.seg_lim_15_00 + d.base_15_00 * 2 ^ 16,
  d.base_23_16
      + d.type * 2 ^ 8
      + d.sys * 2 ^ 12
      + d.dpl * 2 ^ 13
      + d.present * 2 ^ 15
      + d.seg_lim_19_16 * 2 ^ 16
      + d.avail * 2 ^ 20
      + d.reserved * 2 ^ 21
      + d.opsize * 2 ^ 22
      + d.granularity * 2 ^ 23
      + d.base_31_24 * 2 ^ 24,
)
