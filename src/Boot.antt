-- ===== src/Boot.antt =====
-- student-distrib/kernel.c: what entry does behind the messages on the boot loader's information. The
-- boot module's image and its place, the linker's addresses and what register B of the clock reads are
-- arguments.
pub mod Ready
pub mod Multiboot
pub mod Entry
pub mod Messages
use boz_os.Prelude.{ℕ, Option, some, ◌>>=◌, [], Buf, literal}
use boz_os.State.{Kernel}
use boz_os.Screen.{clear_screen}
use boz_os.Printf.{printf}
use boz_os.Idt.{Handler}
use boz_os.Interrupts.{i8259_init, rtc_init}
use boz_os.Keyboard.{kb_init}
use boz_os.Paging.{paging_init}
use boz_os.Terminals.{multi_term_init, switch_terminal}
use boz_os.Scheduler.{pit_init}
use boz_os.Filesystem.{fs_init}
use boz_os.Files.{Env}
use boz_os.Execute.{Launch, execute}

unfoldable pub init_kernel : (Handler → ℕ) → ℕ → ℕ → Buf → ℕ → Kernel → Kernel
init_kernel address page_table_at previous image mod_start k =
    let k1 = i8259_init (record k { fs = fs_init image mod_start }) in
    let k2 = rtc_init address (kb_init address k1) previous in
    pit_init address (multi_term_init (paging_init page_table_at k2))

unfoldable pub start_shell : Env → Kernel → (eflags esp ebp : ℕ) → Option Launch
start_shell env k eflags esp ebp = do
  (_, k1) ← printf env.temp env.fuel k (literal "Enabling Interrupts\n") []
  k2 ← switch_terminal k1 0
  execute env (clear_screen k2) eflags esp ebp (literal "shell") 0
