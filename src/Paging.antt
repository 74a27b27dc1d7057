-- ===== src/Paging.antt =====
-- The tables that paging_init of student-distrib/paging.c and vidmap of student-distrib/syscalls.c fill.
-- Where the linker puts a table is a parameter. The control registers are not part of the state.
pub mod View
pub mod Initial
use boz_os.Prelude.{
  ℕ, zero, suc, ◌+◌, ◌*◌, ◌/◌, ◌^◌, bit_or, ◌||◌, ◌&&◌, ltb, leb, ◌==◌, if◌then◌else◌, minus_one,
}
use boz_os.State.{Kernel, update, kernel_base}
use boz_os.Screen.{video}
use boz_os.Terminals.{term_video, user_video_mem, map_video}

abbrev pub page_size : ℕ
page_size = 1024

abbrev pub kernel_mem : ℕ
kernel_mem = 0x400000

-- `for (i = 0; i < rounds; i++) table[i] = v;`, from index `i` on.
unfoldable pub fill_table : (ℕ → ℕ) → ℕ → ℕ → ℕ → ℕ → ℕ
fill_table table v zero i = table
fill_table table v (suc rounds) i = fill_table (update table i v) v rounds (i + 1)

unfoldable pub paging_init : ℕ → Kernel → Kernel
paging_init page_table_at k =
    let directory = fill_table k.page_directory 0x2 page_size 0 in
    let directory' = update directory (kernel_mem / 2 ^ 22) (bit_or kernel_mem 0x83) in
    let table = fill_table k.page_table 0x2 page_size 0 in
    let table' = update table (video / 2 ^ 12) (bit_or video 0x3) in
    let buffer =
      λ (t : ℕ → ℕ) (n : ℕ). update t (term_video n / 2 ^ 12) (bit_or (term_video n) 0x3) in
    record k {
      page_directory = update directory' 0 (bit_or page_table_at 0x3);
      page_table = buffer (buffer (buffer table' 0) 1) 2;
    }

-- KERNEL_TOP
abbrev pub kernel_top : ℕ
kernel_top = 4 * 2 ^ 20

-- vidmap, with the status and the pointer that it stores through `screen_start`.
unfoldable pub vidmap : ℕ → Kernel → ℕ → ℕ × ℕ × Kernel
vidmap vidmap_ptable_at k screen_start =
    let n = k.active_task in
    let table = map_video (fill_table k.vidmap_ptable 0x6 page_size 0) n in
    if (screen_start == 0) || (leb kernel_top screen_start && ltb screen_start kernel_base)
    then (minus_one, 0, k)
    else (
      0,
      user_video_mem + 2 ^ 12 * n,
      record k {
        page_directory =
            update k.page_directory (user_video_mem / 2 ^ 22) (bit_or vidmap_ptable_at 0x7);
        vidmap_ptable = table;
      },
    )
