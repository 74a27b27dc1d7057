-- ===== src/Boot/Multiboot.antt =====
-- The messages of entry, student-distrib/kernel.c, on the information of the boot loader: the structures of
-- student-distrib/multiboot.h, which stand in memory.
use boz_os.Prelude.{
  ℕ, zero, suc, ◌+◌, ◌-◌, ◌*◌, ◌/◌, ◌%◌, ◌^◌, Bool, true, false, Option, some, none, List, [], ◌∷◌,
  ltb, ◌==◌, if◌then◌else◌, ◌>>=◌, add32, Buf, String, literal,
}
use boz_os.Clib.Asm.{load_dword}
use boz_os.State.{Kernel}
use boz_os.Printf.{Arg, word, text, printf}
use boz_os.Files.{Env}

abbrev pub multiboot_bootloader_magic : ℕ
multiboot_bootloader_magic = 0x2BADB002

-- The members of multiboot_info_t at `addr`, four bytes each.
pub record MultibootInfo : Type 0 where
  pub flags : ℕ
  pub mem_lower : ℕ
  pub mem_upper : ℕ
  pub boot_device : ℕ
  pub cmdline : ℕ
  pub mods_count : ℕ
  pub mods_addr : ℕ
  pub elf_num : ℕ
  pub elf_size : ℕ
  pub elf_addr : ℕ
  pub elf_shndx : ℕ
  pub mmap_length : ℕ
  pub mmap_addr : ℕ

-- The member number `i` of a structure of double words at `addr`.
abbrev pub member : Buf → ℕ → ℕ → ℕ
member m addr i = load_dword m (add32 addr (4 * i))

unfoldable pub multiboot_info : Buf → ℕ → MultibootInfo
multiboot_info m addr = record {
  flags = member m addr 0;
  mem_lower = member m addr 1;
  mem_upper = member m addr 2;
  boot_device = member m addr 3;
  cmdline = member m addr 4;
  mods_count = member m addr 5;
  mods_addr = member m addr 6;
  elf_num = member m addr 7;
  elf_size = member m addr 8;
  elf_addr = member m addr 9;
  elf_shndx = member m addr 10;
  mmap_length = member m addr 11;
  mmap_addr = member m addr 12;
}

-- module_t: the start and the end of a module.
abbrev pub mod_start : Buf → ℕ → ℕ
mod_start m at = member m at 0

abbrev pub mod_end : Buf → ℕ → ℕ
mod_end m at = member m at 1

-- CHECK_FLAG
abbrev pub check_flag : ℕ → ℕ → Bool
check_flag flags bit = flags / 2 ^ bit % 2 == 1

-- A call of printf as a statement.
abbrev pub say : Env → Kernel → String → List Arg → Option Kernel
say env k format args = do (_, k') ← printf env.temp env.fuel k (literal format) args; some k'

-- `if (b) f`
abbrev pub when : Bool → (Kernel → Option Kernel) → Kernel → Option Kernel
when true f k = f k
when false f k = some k

-- A `char` as the `unsigned` that "%x" prints.
abbrev pub char_word : ℕ → ℕ
char_word c = if ltb c 128 then c else 2 ^ 32 - 256 + c

-- `for (i = 0; i < 16; i++)`, with `rounds` to go at `i`.
unfoldable pub say_bytes : Env → Buf → ℕ → ℕ → ℕ → Kernel → Option Kernel
say_bytes env m start zero i k = some k
say_bytes env m start (suc rounds) i k = do
  k' ← say env k "0x%x " (word (char_word (m (add32 start i))) ∷ [])
  say_bytes env m start rounds (i + 1) k'

-- `while (mod_count < mbi->mods_count)`, with `rounds` to go at the module `mod`.
unfoldable pub say_modules : Env → Buf → ℕ → ℕ → ℕ → Kernel → Option Kernel
unfolding say_bytes
say_modules env m zero mod_count at k = some k
say_modules env m (suc rounds) mod_count at k = do
  k1 ←
      say env k "Module %d loaded at address: 0x%#x\n" (word mod_count ∷ word (mod_start m at) ∷ [])
  k2 ← say env k1 "Module %d ends at address: 0x%#x\n" (word mod_count ∷ word (mod_end m at) ∷ [])
  k3 ← say env k2 "First few bytes of module:\n" []
  k4 ← say_bytes env m (mod_start m at) 16 0 k3
  k5 ← say env k4 "\n" []
  say_modules env m rounds (mod_count + 1) (add32 at 16) k5

-- The loop over the memory map, at `mmap`. Each round moves on by four bytes at least, unless the
-- address wraps; a map that wraps need not end.
unfoldable pub say_mmap : Env → Buf → ℕ → ℕ → ℕ → Kernel → Option Kernel
say_mmap env m stop zero mmap k = none
say_mmap env m stop (suc fuel) mmap k =
    let round = (do
      k' ←
          say env k
            "    size = 0x%x, base_addr = 0x%#x%#x\n    type = 0x%x,  length    = 0x%#x%#x\n"
            (word (member m mmap 0)
              ∷ word (member m mmap 2)
              ∷ word (member m mmap 1)
              ∷ word (member m mmap 5)
              ∷ word (member m mmap 4)
              ∷ word (member m mmap 3)
              ∷ [])
      say_mmap env m stop fuel (add32 mmap (member m mmap 0 + 4)) k') in
    if ltb mmap stop then round else some k

-- The messages before the test of bits 4 and 5.
unfoldable pub say_memory : Env → Buf → MultibootInfo → Kernel → Option Kernel
unfolding say_modules
say_memory env m mbi k = do
  k1 ← say env k "flags = 0x%#x\n" (word mbi.flags ∷ [])
  k2 ←
      when (check_flag mbi.flags 0)
        (λ k.
          say env k "mem_lower = %uKB, mem_upper = %uKB\n"
            (word mbi.mem_lower ∷ word mbi.mem_upper ∷ []))
        k1
  k3 ←
      when (check_flag mbi.flags 1)
        (λ k. say env k "boot_device = 0x%#x\n" (word mbi.boot_device ∷ [])) k2
  k4 ← when (check_flag mbi.flags 2) (λ k. say env k "cmdline = %s\n" (text m mbi.cmdline ∷ [])) k3
  when (check_flag mbi.flags 3) (λ k. say_modules env m mbi.mods_count 0 mbi.mods_addr k) k4

-- The messages behind it.
unfoldable pub say_tables : Env → Buf → MultibootInfo → Kernel → Option Kernel
unfolding say_mmap
say_tables env m mbi k = do
  k1 ←
      when (check_flag mbi.flags 5)
        (λ k.
          say env k "elf_sec: num = %u, size = 0x%#x, addr = 0x%#x, shndx = 0x%#x\n"
            (word mbi.elf_num ∷ word mbi.elf_size ∷ word mbi.elf_addr ∷ word mbi.elf_shndx ∷ []))
        k
  when (check_flag mbi.flags 6)
      (λ k. do
        k' ←
            say env k "mmap_addr = 0x%#x, mmap_length = 0x%x\n"
              (word mbi.mmap_addr ∷ word mbi.mmap_length ∷ [])
        say_mmap env m (add32 mbi.mmap_addr mbi.mmap_length) (suc mbi.mmap_length) mbi.mmap_addr k')
      k1
