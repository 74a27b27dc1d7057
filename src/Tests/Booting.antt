-- ===== src/Tests/Booting.antt =====
-- Concrete runs of the start of the kernel, of its tables and of printf: student-distrib/kernel.c, paging.c,
-- x86_desc.h, lib.c, with execute on a full table and vidmap of syscalls.c.
use boz_os.Boot.{init_kernel}
use boz_os.Screen.Stream.{putc_stream}
use boz_os.Prelude.{
  ◌≢◌, ℕ, ◌≡◌, refl, arith, some, ◌||◌, ◌&&◌, not, ◌==◌, if◌then◌else◌, Buf, IsBytes, [], ◌∷◌,
  literal, ◌>>=◌,
}
use boz_os.State.{Kernel}
use boz_os.Screen.{clear_screen}
use boz_os.Screen.Frame.{Shown}
use boz_os.Clib.Asm.{load_dword}
use boz_os.Printf.{word, text, printf}
use boz_os.Printf.Digits.{Ends}
use boz_os.Printf.Typed.{printf-Ends}
use boz_os.Idt.{init_idt}
use boz_os.Segments.{init_segments, val, ldt_index, tss_index}
use boz_os.Segments.Fields.{Describes, init_segments-Describes}
use boz_os.Paging.{paging_init, vidmap}
use boz_os.Paging.Initial.{Initial, paging_init-Initial}
use boz_os.Paging.View.{Views, user_screen, vidmap-Views}
use boz_os.Terminals.{switch_terminal}
use boz_os.Terminals.Switching.{InPlace, switch_terminal-Switched}
use boz_os.Files.{Env}
use boz_os.Boot.Multiboot.{multiboot_info, multiboot_bootloader_magic, check_flag, member}
use boz_os.Boot.Entry.{Layout, returned, entry, started}
use boz_os.Boot.Messages.{MapEnds, ended, entries, Readable, entry-boots}
use boz_os.Execute.{answers, execute}
use boz_os.Execute.Full.{execute-full}
use boz_os.Tests.{running, letters, zeros}
use boz_os.Tests.Programs.{
  ready, surroundings, a-checked, line, words, line-parsed, a-found, entry_a,
}

printf-Ends_example :
    Ends
      (running 0)
      (printf zeros 20 (running 0) (literal "%s = %#x\n") (text letters 4 ∷ word 0xABC ∷ []))
printf-Ends_example =
    printf-Ends zeros 20 4 (running 0) "%s = %#x\n" (text letters 4 ∷ word 0xABC ∷ []) refl
      ((3, omega arith, (refl, λ i h. ground (arith, h))), (omega arith, tt)) (omega arith)

init_segments-Describes_example :
    Describes
      (val ((init_segments ((running 0).gdt 0) 0x404000 0x404100 (running 0)).gdt ldt_index))
      0x404000
      31
      0x82
      0x4
    × Describes
        (val ((init_segments ((running 0).gdt 0) 0x404000 0x404100 (running 0)).gdt tss_index))
        0x404100
        103
        0x89
        0
    × ((i : ℕ)
        → i ≢ ldt_index
        → i ≢ tss_index
        → (init_segments ((running 0).gdt 0) 0x404000 0x404100 (running 0)).gdt i
          ≡ (running 0).gdt i)
init_segments-Describes_example =
    init_segments-Describes ((running 0).gdt 0) 0x404000 0x404100 (running 0) (omega arith)
      (omega arith)

paging_init-Initial_example : Initial 0x409000 (paging_init 0x409000 (running 0))
paging_init-Initial_example = paging_init-Initial 0x409000 (running 0)

-- The information at 0x100: the command line "ab" at 0x200, and a memory map of one entry at 0x300.
abbrev loaded : Buf
loaded q =
    if q == 0x100
    then 0x44
    else if q == 0x111
    then 2
    else if q == 0x12C
    then 24
    else if q == 0x131
    then 3
    else if q == 0x200
    then b'a'
    else if q == 0x201
    then b'b'
    else if q == 0x300
    then 20
    else 0

loaded-IsBytes : IsBytes loaded
loaded-IsBytes q = ground arith

one_entry : MapEnds loaded 0x318 0x300
unfolding load_dword
one_entry = entries (omega arith) (ended (omega arith))

loaded-Readable : Readable loaded 0x100 8
unfolding multiboot_info load_dword
loaded-Readable = record {
  line = λ h. (2, omega arith, (refl, λ i l. ground (arith, l)));
  map = λ h. one_entry;
}

abbrev layout : Layout
layout = record {
  address = λ h. 0x400000;
  page_table_at = 0x409000;
  ldt = 0x404000;
  tss = 0x404100;
  stack = (running 0).gdt 0;
  previous = 0x26;
}

abbrev talking : Env
talking = record { fuel = 200; temp = zeros; previous = 0x26 }

entry-boots_example :
    (k' : Kernel) × Shown (clear_screen (init_idt (λ h. 0x400000) (running 0))) k'
    × (entry talking layout loaded 0x2BADB002 0x100 0x2 100 200 (running 0) ≡ (
        if not (0x2BADB002 == multiboot_bootloader_magic)
          || (check_flag (multiboot_info loaded 0x100).flags 4
              && check_flag (multiboot_info loaded 0x100).flags 5)
        then some (returned k')
        else (do
          let described = init_segments ((running 0).gdt 0) 0x404000 0x404100 k'
          let image_at = member loaded (multiboot_info loaded 0x100).mods_addr 0
          let ready = init_kernel (λ h. 0x400000) 0x409000 0x26 loaded image_at described
          launch ← (do
            (_, k₁) ← printf talking.temp talking.fuel ready (literal "Enabling Interrupts\n") []
            k₂ ← switch_terminal k₁ 0
            execute talking (clear_screen k₂) 0x2 100 200 (literal "shell") 0)
          some (started launch))))
entry-boots_example =
    entry-boots talking 8 layout loaded 0x2BADB002 0x100 0x2 100 200 (running 0) (omega arith)
      loaded-IsBytes (omega arith) loaded-Readable

-- Every process number is in use.
abbrev crowded : Kernel
crowded = record ready { process_usage = λ p. 1 }

execute-full_example :
    execute surroundings crowded 0x2 100 200 line 0
    ≡ some
        (answers 256 (putc_stream (literal "Maximum number of processes exceeded.\n") 38 0 crowded))
execute-full_example =
    execute-full surroundings crowded 0x2 100 200 line 0 words 0 entry_a 0x080483E8 line-parsed
      a-found (omega arith) a-checked (λ p h. omega arith) (omega arith)

-- A program of terminal 0, which is shown, has called vidmap; then terminal 1 is shown.
abbrev viewing : Kernel
viewing = (vidmap 0x40B000 (running 0) 0x08000000).2

viewing-InPlace : InPlace viewing
unfolding vidmap
viewing-InPlace = record { page = λ n h. omega arith; bytes = λ q. omega arith }

viewed : (k'' : Kernel) × (switch_terminal viewing 1 ≡ some k'')
unfolding vidmap
viewed =
    let switched =
      switch_terminal-Switched viewing 1 0 viewing-InPlace (omega arith) (omega arith) (omega arith)
        (refl, λ i h. absurd (omega arith)) in
    (switched.0, switched.1)

vidmap-Views_example :
    ((vidmap 0x40B000 (running 0) 0x08000000).0 ≡ 0)
    × ((vidmap 0x40B000 (running 0) 0x08000000).1 ≡ user_screen 0)
    × Views 0x40B000 0 viewing
    × Views 0x40B000 1 viewed.0
vidmap-Views_example =
    vidmap-Views 0x40B000 0x08000000 1 (running 0) viewed.0 (omega arith) (omega arith)
      (omega arith) refl viewed.1
