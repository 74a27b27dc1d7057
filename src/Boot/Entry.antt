-- ===== src/Boot/Entry.antt =====
-- entry of student-distrib/kernel.c as a whole.
use boz_os.Prelude.{ℕ, ◌&&◌, not, Option, some, [], ◌∷◌, ◌==◌, if◌then◌else◌, ◌>>=◌, Buf}
use boz_os.State.{Kernel, SegDesc}
use boz_os.Screen.{clear_screen}
use boz_os.Printf.{word}
use boz_os.Files.{Env}
use boz_os.Idt.{Handler, init_idt}
use boz_os.Segments.{init_segments}
use boz_os.Execute.{Launch}
use boz_os.Boot.{init_kernel, start_shell}
use boz_os.Boot.Multiboot.{
  MultibootInfo, multiboot_info, multiboot_bootloader_magic, check_flag, mod_start, say, say_memory,
  say_tables,
}

-- Where the linker puts the entry points and the tables, what the stack holds, and what register B of
-- the clock reads.
pub record Layout : Type 0 where
  pub address : Handler → ℕ
  pub page_table_at : ℕ
  pub ldt : ℕ
  pub tss : ℕ
  pub stack : SegDesc
  pub previous : ℕ

-- entry returns, or it goes on to the call of execute, with its outcome.
pub data Entered : Type 0 where
  returned : Kernel → Entered
  started : Launch → Entered

-- Behind the messages: the descriptors, the initialisations and the shell.
unfoldable pub boot :
    Env → Layout → Buf → MultibootInfo → (eflags esp ebp : ℕ) → Kernel → Option Entered
boot env at m mbi eflags esp ebp k = do
  let k1 = init_segments at.stack at.ldt at.tss k
  let k2 = init_kernel at.address at.page_table_at at.previous m (mod_start m mbi.mods_addr) k1
  launch ← start_shell env k2 eflags esp ebp
  some (started launch)

unfoldable pub entry :
    Env → Layout → Buf → (magic addr eflags esp ebp : ℕ) → Kernel → Option Entered
unfolding boot
entry env at m magic addr eflags esp ebp k =
    let k1 = clear_screen (init_idt at.address k) in
    let mbi = multiboot_info m addr in
    let stop = (do
      k2 ← say env k1 "Invalid magic number: 0x%#x\n" (word magic ∷ [])
      some (returned k2)) in
    let go = (do
      k2 ← say_memory env m mbi k1
      let both = (do k3 ← say env k2 "Both bits 4 and 5 are set.\n" []; some (returned k3))
      let on = (do k3 ← say_tables env m mbi k2; boot env at m mbi eflags esp ebp k3)
      if check_flag mbi.flags 4 && check_flag mbi.flags 5 then both else on) in
    if not (magic == multiboot_bootloader_magic) then stop else go
