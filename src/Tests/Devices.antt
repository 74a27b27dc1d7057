-- ===== src/Tests/Devices.antt =====
-- Concrete runs of the descriptor table and the start of the kernel: student-distrib/IDT.c, kernel.c.
use boz_os.Prelude.{ℕ, ◌+◌, ◌*◌, refl, arith, []}
use boz_os.Idt.{
  Handler, exception, default_asm, default, syscall, timer, keyboard, rtc, sys_call_addr, init_idt,
}
use boz_os.Idt.Gates.{init_idt-gates, IsGate}
use boz_os.Boot.{init_kernel}
use boz_os.Boot.Ready.{Ready, init_kernel-Ready}
use boz_os.Tests.{running, image}

-- Entry points in a row.
abbrev entries : Handler → ℕ
entries (exception i) = 0x400000 + 16 * i
entries default_asm = 0x400200
entries default = 0x400210
entries syscall = 0x400220
entries timer = 0x400230
entries keyboard = 0x400240
entries rtc = 0x400250

init_idt-gates_example : IsGate ((init_idt entries (running 0)).idt 0x80) 0x400220 3 1
init_idt-gates_example = init_idt-gates entries (running 0) sys_call_addr (omega arith)

init_kernel-Ready_example : Ready entries [] (init_kernel entries 0x409000 0x26 image 0 (running 0))
init_kernel-Ready_example =
    init_kernel-Ready entries 0x409000 0x26 image 0 (running 0) (λ p h. refl) (λ q. omega arith)
      refl refl
