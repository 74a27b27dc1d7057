-- ===== src/Boot/Messages.antt =====
-- The messages of entry, student-distrib/kernel.c, end, and what entry does behind them.
use boz_os.Execute.{execute}
use boz_os.Terminals.{switch_terminal}
use boz_os.Boot.{init_kernel, start_shell}
use boz_os.Segments.{init_segments}
use boz_os.Prelude.{
  ℕ, zero, suc, ◌+◌, ◌-◌, ◌*◌, ◌^◌, ◌<◌, ◌≤◌, ◌≡◌, refl, inl, inr, arith, Bool, true, false, some,
  Option, List, [], ◌∷◌, length, codes, String, ltb, ◌>>=◌, add32, Buf, IsBytes, Bool-cases, not,
  ◌&&◌, ◌||◌, ◌==◌, if◌then◌else◌, literal,
}
use boz_os.Clib.Asm.{load_dword}
use boz_os.Clib.Strings.Length.{HasLength}
use boz_os.State.{Kernel}
use boz_os.Screen.Frame.{Shown, Shown-refl, Shown-trans}
use boz_os.Printf.{Arg, word, text, printf}
use boz_os.Printf.Typed.{fits, Good, printf-Ends}
use boz_os.Files.{Env}
use boz_os.Boot.Entry.{Layout, returned, boot, entry, started}
use boz_os.Idt.{init_idt}
use boz_os.Screen.{clear_screen}
use boz_os.Boot.Multiboot.{
  multiboot_bootloader_magic, MultibootInfo, member, multiboot_info, check_flag, say, when,
  char_word, mod_start, mod_end, say_bytes, say_modules, say_mmap, say_memory, say_tables,
}

-- A statement that only prints.
abbrev Says : Kernel → Option Kernel → Type 0
Says k r = (k' : Kernel) × (r ≡ some k') × Shown k k'

Says-then :
    (k : Kernel) (r : Option Kernel) (f : Kernel → Option Kernel)
    → Says k r
    → ((k' : Kernel) → Says k' (f k'))
    → Says k (r >>= f)
Says-then k r f (k₁, run, shown) next =
    let (k₂, run', shown') = next k₁ in (k₂, rw run run', Shown-trans k k₁ k₂ shown shown')

when-Says :
    (b : Bool) (f : Kernel → Option Kernel)
    → (b ≡ true → (k : Kernel) → Says k (f k))
    → (k : Kernel) → Says k (when b f k)
when-Says true f h k = h refl k
when-Says false f h k = (k, refl, Shown-refl k)

-- The entries of the memory map from `at` on reach `stop` without wrapping.
pub data MapEnds (m : Buf) (stop : ℕ) : ℕ → Type 0 where
  ended : {at : ℕ} → stop ≤ at → MapEnds m stop at
  entries :
      {at : ℕ}
      → at + (member m at 0 + 4) < 2 ^ 32
      → MapEnds m stop (at + (member m at 0 + 4))
      → MapEnds m stop at

module _ (env : Env) (limit : ℕ) (enough : 128 + limit < env.fuel) (m : Buf)
    (bytes : IsBytes m) where
  say-Says :
      (format : String) (args : List Arg)
      → fits false (codes format) args ≡ true
      → ltb (length (codes format)) 128 ≡ true
      → Good limit args
      → (k : Kernel) → Says k (say env k format args)
  say-Says format args fit short good k =
      let small : length (codes format) < 128 = ground (arith, short) in
      let (n, k', run, shown) =
        printf-Ends env.temp env.fuel limit k format args fit good (omega (arith, enough)) in
      (k', rw run refl, shown)

  member-lt : (at i : ℕ) → member m at i < 2 ^ 32
  unfolding load_dword
  member-lt at i =
      let p = add32 at (4 * i) in
      omega (arith, bytes p, bytes (p + 1), bytes (p + 2), bytes (p + 3))

  char_word-lt : (c : ℕ) → c < 256 → char_word c < 2 ^ 32
  char_word-lt c h = ground (arith, h)

  say_bytes-Says : (start rounds i : ℕ) (k : Kernel) → Says k (say_bytes env m start rounds i k)
  unfolding say_bytes
  say_bytes-Says start zero i k = (k, refl, Shown-refl k)
  say_bytes-Says start (suc rounds) i k =
      let c = m (add32 start i) in
      Says-then k _ _
        (say-Says "0x%x " (word (char_word c) ∷ []) refl refl
          (char_word-lt c (bytes (add32 start i)), tt) k)
        (say_bytes-Says start rounds (i + 1))

  say_modules-Says :
      (rounds mod_count at : ℕ)
      → mod_count + rounds < 2 ^ 32
      → (k : Kernel) → Says k (say_modules env m rounds mod_count at k)
  unfolding say_modules
  say_modules-Says zero mod_count at l k = (k, refl, Shown-refl k)
  say_modules-Says (suc rounds) mod_count at l k =
      let number : mod_count < 2 ^ 32 = omega (arith, l) in
      Says-then k _ _
        (say-Says "Module %d loaded at address: 0x%#x\n"
          (word mod_count ∷ word (mod_start m at) ∷ []) refl refl (number, (member-lt at 0, tt)) k)
        λ k.
          Says-then k _ _
            (say-Says "Module %d ends at address: 0x%#x\n"
              (word mod_count ∷ word (mod_end m at) ∷ []) refl refl (number, (member-lt at 1, tt))
              k)
            λ k. Says-then k _ _ (say-Says "First few bytes of module:\n" [] refl refl tt k) λ k.
              Says-then k _ _ (say_bytes-Says (mod_start m at) 16 0 k) λ k.
                Says-then k _ _ (say-Says "\n" [] refl refl tt k)
                  (say_modules-Says rounds (mod_count + 1) (add32 at 16) (omega (arith, l)))

  say_mmap-Says :
      (stop fuel at : ℕ)
      → MapEnds m stop at
      → stop - at < fuel
      → (k : Kernel) → Says k (say_mmap env m stop fuel at k)
  unfolding say_mmap
  say_mmap-Says stop zero at h f k = absurd (omega arith)
  say_mmap-Says stop (suc fuel) at (ended h) f k =
      let past : ltb at stop ≡ false = ground (arith, h) in rw past (k, refl, Shown-refl k)
  say_mmap-Says stop (suc fuel) at (entries h rest) f k = elim (Bool-cases (ltb at stop)) [
    | inr past ↦ rw past (k, refl, Shown-refl k)
    | inl more ↦
        let next : add32 at (member m at 0 + 4) ≡ at + (member m at 0 + 4) = omega (arith, h) in
        let below : at < stop = ground (arith, more) in
        rw more (
          Says-then k _ _
            (say-Says
              "    size = 0x%x, base_addr = 0x%#x%#x\n    type = 0x%x,  length    = 0x%#x%#x\n"
              (word (member m at 0)
                ∷ word (member m at 2)
                ∷ word (member m at 1)
                ∷ word (member m at 5)
                ∷ word (member m at 4)
                ∷ word (member m at 3)
                ∷ [])
              refl refl
              (
                member-lt at 0,
                (
                  member-lt at 2,
                  (member-lt at 1, (member-lt at 5, (member-lt at 4, (member-lt at 3, tt)))),
                ),
              )
              k)
            (rw next
              (say_mmap-Says stop fuel (at + (member m at 0 + 4)) rest (omega (arith, f, below)))))
  ]

  module _ (mbi_at : ℕ) where
    abbrev mbi : MultibootInfo
    mbi = multiboot_info m mbi_at

    field-lt : (i : ℕ) → member m mbi_at i < 2 ^ 32
    field-lt i = member-lt mbi_at i

    say_memory-Says :
        (check_flag mbi.flags 2 ≡ true → (n : ℕ) × (n < limit) × HasLength m mbi.cmdline n)
        → (k : Kernel) → Says k (say_memory env m mbi k)
    unfolding say_memory multiboot_info
    say_memory-Says line k =
        Says-then k _ _
          (say-Says "flags = 0x%#x\n" (word mbi.flags ∷ []) refl refl (field-lt 0, tt) k)
          λ k.
            Says-then k _ _
              (when-Says (check_flag mbi.flags 0) _
                (λ h.
                  say-Says "mem_lower = %uKB, mem_upper = %uKB\n"
                    (word mbi.mem_lower ∷ word mbi.mem_upper ∷ []) refl refl
                    (field-lt 1, (field-lt 2, tt)))
                k)
              λ k.
                Says-then k _ _
                  (when-Says (check_flag mbi.flags 1) _
                    (λ h.
                      say-Says "boot_device = 0x%#x\n" (word mbi.boot_device ∷ []) refl refl
                        (field-lt 3, tt))
                    k)
                  λ k.
                    Says-then k _ _
                      (when-Says (check_flag mbi.flags 2) _
                        (λ h.
                          say-Says "cmdline = %s\n" (text m mbi.cmdline ∷ []) refl refl
                            (line h, tt))
                        k)
                      (when-Says (check_flag mbi.flags 3) _ (λ h.
                        say_modules-Says mbi.mods_count 0 mbi.mods_addr
                          (omega (arith, field-lt 5))))

    say_tables-Says :
        (check_flag mbi.flags 6 ≡ true
          → MapEnds m (add32 mbi.mmap_addr mbi.mmap_length) mbi.mmap_addr)
        → (k : Kernel) → Says k (say_tables env m mbi k)
    unfolding say_tables multiboot_info
    say_tables-Says map k =
        Says-then k _ _
          (when-Says (check_flag mbi.flags 5) _
            (λ h.
              say-Says "elf_sec: num = %u, size = 0x%#x, addr = 0x%#x, shndx = 0x%#x\n"
                (word mbi.elf_num ∷ word mbi.elf_size ∷ word mbi.elf_addr ∷ word mbi.elf_shndx ∷ [])
                refl refl (field-lt 7, (field-lt 8, (field-lt 9, (field-lt 10, tt)))))
            k)
          (when-Says (check_flag mbi.flags 6) _ λ h k.
            Says-then k _ _
              (say-Says "mmap_addr = 0x%#x, mmap_length = 0x%x\n"
                (word mbi.mmap_addr ∷ word mbi.mmap_length ∷ []) refl refl
                (field-lt 12, (field-lt 11, tt)) k)
              (say_mmap-Says (add32 mbi.mmap_addr mbi.mmap_length) (suc mbi.mmap_length)
                mbi.mmap_addr (map h) (omega arith)))

-- The information that the boot loader left at `addr`: a command line that ends within `limit` bytes, if
-- one is passed, and a memory map whose entries lead to its end, if there is one.
pub record Readable (m : Buf) (addr limit : ℕ) : Type 0 where
  pub line :
      check_flag (multiboot_info m addr).flags 2 ≡ true
      → (n : ℕ) × (n < limit) × HasLength m (multiboot_info m addr).cmdline n
  pub map :
      check_flag (multiboot_info m addr).flags 6 ≡ true
      → MapEnds m
          (add32 (multiboot_info m addr).mmap_addr (multiboot_info m addr).mmap_length)
          (multiboot_info m addr).mmap_addr

-- With memory that holds bytes, readable information and fuel beyond the messages and the command
-- line, the messages of entry end and change only the screen, the printing positions and the ports.
-- Behind them entry returns if the magic number is not the boot loader's, or if bits 4 and 5 of the
-- flags are both set; otherwise it makes the descriptors, sets up its parts with the file system's image
-- where the first module starts, prints "Enabling Interrupts", shows the first terminal, clears the
-- screen, and has the outcome of execute for "shell".
pub entry-boots :
    (env : Env) (limit : ℕ) (at : Layout) (m : Buf) (magic addr eflags esp ebp : ℕ) (k : Kernel)
    → 128 + limit < env.fuel
    → IsBytes m
    → magic < 2 ^ 32
    → Readable m addr limit
    → let mbi = multiboot_info m addr in
      let both = check_flag mbi.flags 4 && check_flag mbi.flags 5 in
      (k' : Kernel) × Shown (clear_screen (init_idt at.address k)) k'
      × (entry env at m magic addr eflags esp ebp k ≡ (
          if not (magic == multiboot_bootloader_magic) || both then some (returned k') else (do
            let described = init_segments at.stack at.ldt at.tss k'
            let image_at = member m mbi.mods_addr 0
            let ready = init_kernel at.address at.page_table_at at.previous m image_at described
            launch ← (do
              (_, k₁) ← printf env.temp env.fuel ready (literal "Enabling Interrupts\n") []
              k₂ ← switch_terminal k₁ 0
              execute env (clear_screen k₂) eflags esp ebp (literal "shell") 0)
            some (started launch))))
unfolding entry boot start_shell
entry-boots env limit at m magic addr eflags esp ebp k enough bytes word_magic readable =
    let k₁ = clear_screen (init_idt at.address k) in
    let mbi = multiboot_info m addr in
    elim (Bool-cases (magic == multiboot_bootloader_magic)) [
      | inr other ↦
          let (k', run, shown) =
            say-Says env limit enough m bytes "Invalid magic number: 0x%#x\n" (word magic ∷ []) refl
              refl (word_magic, tt) k₁ in
          (k', shown, rw (other, run) refl)
      | inl same ↦
          let (k₂, run, shown) = say_memory-Says env limit enough m bytes addr readable.line k₁ in
          elim (Bool-cases (check_flag mbi.flags 4 && check_flag mbi.flags 5)) [
            | inl two ↦
                let (k₃, run', shown') =
                  say-Says env limit enough m bytes "Both bits 4 and 5 are set.\n" [] refl refl tt
                    k₂ in
                (k₃, Shown-trans k₁ k₂ k₃ shown shown', rw (same, run, two, run') refl)
            | inr one ↦
                let (k₃, run', shown') =
                  say_tables-Says env limit enough m bytes addr readable.map k₂ in
                (k₃, Shown-trans k₁ k₂ k₃ shown shown', rw (same, run, one, run') refl)
          ]
    ]
