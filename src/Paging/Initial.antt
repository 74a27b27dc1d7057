-- ===== src/Paging/Initial.antt =====
-- The tables that paging_init of student-distrib/paging.c fills.
use boz_os.Prelude.{ℕ, ◌+◌, ◌*◌, ◌^◌, ◌<◌, ◌≡◌, arith, bit_or, ◌&&◌, leb, ◌==◌, if◌then◌else◌}
use boz_os.State.{Kernel}
use boz_os.Paging.{page_size, paging_init}
use boz_os.Paging.View.{fill_table_lem}

-- What the page directory and the page table hold: the kernel's 4 MB, and the pages of the video memory
-- and of the three terminals, each mapped to itself for the kernel alone; no other page is present.
pub record Initial (page_table_at : ℕ) (k : Kernel) : Type 0 where
  pub directory :
      (i : ℕ)
      → i < page_size
      → k.page_directory i
        ≡ (if i == 0 then bit_or page_table_at 0x3 else if i == 1 then i * 2 ^ 22 + 0x83 else 0x2)
  pub table :
      (i : ℕ)
      → i < page_size
      → k.page_table i ≡ (if leb 0xB8 i && leb i 0xBB then i * 2 ^ 12 + 0x3 else 0x2)

-- After paging_init the kernel's 4 MB, the video page and the pages of the three terminals are mapped to
-- themselves, for the kernel alone, and of all 1024 entries of the directory and 1024 of the page table
-- no other is present.
pub paging_init-Initial :
    (page_table_at : ℕ) (k : Kernel) → Initial page_table_at (paging_init page_table_at k)
unfolding paging_init
paging_init-Initial page_table_at k = record {
  directory = λ i l. ground (arith, fill_table_lem k.page_directory 0x2 page_size 0 i, l);
  table = λ i l. ground (arith, fill_table_lem k.page_table 0x2 page_size 0 i, l);
}
