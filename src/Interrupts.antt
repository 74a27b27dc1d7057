-- ===== src/Interrupts.antt =====
-- The interrupt controller, student-distrib/i8259.c, and the real-time clock,
-- student-distrib/RTC_handler.c. What is written to a port is logged in `ports`; what is read from
-- one is an argument.
pub mod Masks
pub mod Clock
use boz_os.Idt.{Handler, rtc, set_idt_wrapper, soft_int_start}
use boz_os.Prelude.{
  ℕ, ◌+◌, ◌-◌, ◌*◌, ◌^◌, ◌%◌, bit_and, bit_or, ◌||◌, Option, some, none, ltb, ◌==◌, if◌then◌else◌,
  minus_one, Buf,
}
use boz_os.Clib.Asm.{load_dword}
use boz_os.State.{Kernel, update, outb, Wait, blocked, done}

-- MASTER_8259_PORT, SLAVE_8259_PORT, MAX_IRQ, MAX_MASTER_IRQ, EOI
abbrev pub master_port : ℕ
master_port = 0x20

abbrev pub slave_port : ℕ
slave_port = 0xA0

abbrev pub max_irq : ℕ
max_irq = 15

abbrev pub max_master_irq : ℕ
max_master_irq = 8

abbrev pub eoi : ℕ
eoi = 0x60

-- `m & ~(1 << i)` and `m | (1 << i)`, kept in a byte.
abbrev pub clear_bit : ℕ → ℕ → ℕ
clear_bit m i = bit_and m (0xFF - 2 ^ i)

abbrev pub set_bit : ℕ → ℕ → ℕ
set_bit m i = bit_or m (2 ^ i) % 256

unfoldable pub i8259_init : Kernel → Kernel
i8259_init k =
    let k1 = outb (outb k 0xFF (master_port + 1)) 0xFF (slave_port + 1) in
    let k2 = outb (outb k1 0x11 master_port) 0x20 (master_port + 1) in
    let k3 = outb (outb k2 0x04 (master_port + 1)) 0x01 (master_port + 1) in
    let k4 = outb (outb k3 0x11 slave_port) 0x28 (slave_port + 1) in
    let k5 = outb (outb k4 0x02 (slave_port + 1)) 0x01 (slave_port + 1) in
    let k6 = outb (outb k5 k.master_mask (master_port + 1)) k.slave_mask (slave_port + 1) in
    let mask = clear_bit k.master_mask 0x02 in
    outb (record k6 { slave_number = 0x02; master_mask = mask }) mask (master_port + 1)

-- `irq_num < MIN_IRQ` never holds, for MIN_IRQ is 0.
unfoldable pub enable_irq : Kernel → ℕ → Kernel
enable_irq k irq_num =
    let master = clear_bit k.master_mask irq_num in
    let slave = clear_bit k.slave_mask (irq_num - max_master_irq) in
    if ltb max_irq irq_num
    then k
    else if ltb irq_num max_master_irq
    then outb (record k { master_mask = master }) master (master_port + 1)
    else outb (record k { slave_mask = slave }) slave (slave_port + 1)

unfoldable pub disable_irq : Kernel → ℕ → Kernel
disable_irq k irq_num =
    let master = set_bit k.master_mask irq_num in
    let slave = set_bit k.slave_mask (irq_num - max_master_irq) in
    if ltb max_irq irq_num
    then k
    else if ltb irq_num max_master_irq
    then outb (record k { master_mask = master }) master (master_port + 1)
    else outb (record k { slave_mask = slave }) slave (slave_port + 1)

unfoldable pub send_eoi : Kernel → ℕ → Kernel
send_eoi k irq_num =
    if ltb max_irq irq_num
    then k
    else if ltb irq_num max_master_irq
    then outb k (bit_or eoi irq_num) master_port
    else outb (outb k (bit_or eoi k.slave_number) master_port)
        (bit_or eoi (irq_num - max_master_irq)) slave_port

-- NMI_MASK, REG_A, RTC_REG
abbrev pub nmi_mask : ℕ
nmi_mask = 0x80

abbrev pub rtc_reg : ℕ
rtc_reg = 0x70

-- The switch of rtc_write; `none` is its default.
unfoldable pub rate_of : ℕ → Option ℕ
rate_of input_rate =
    if input_rate == 2
    then some 0x0F
    else if input_rate == 4
    then some 0x0E
    else if input_rate == 8
    then some 0x0D
    else if input_rate == 16
    then some 0x0C
    else if input_rate == 32
    then some 0x0B
    else if input_rate == 64
    then some 0x0A
    else if input_rate == 128
    then some 0x09
    else if input_rate == 256
    then some 0x08
    else if input_rate == 512
    then some 0x07
    else none

-- The five port accesses of rtc_write; `previous` is what register A reads.
unfoldable pub set_rate : Kernel → ℕ → ℕ → Kernel
set_rate k previous rate =
    let k1 = outb k (nmi_mask + 0x0A) rtc_reg in
    let k2 = outb k1 (nmi_mask + 0x0A) rtc_reg in
    let k3 = outb k2 (bit_or (bit_and previous 0xF0) rate) (rtc_reg + 1) in outb k3 0x0A rtc_reg

-- `buf` is an object and a position, 0 for NULL.
unfoldable pub rtc_write : Kernel → ℕ → Buf → ℕ → ℕ × Kernel
rtc_write k previous buf at =
    if at == 0 then (minus_one, k) else elim (rate_of (load_dword buf at)) [
      | none ↦ (minus_one, k)
      | some rate ↦ (0, set_rate k previous rate)
    ]

-- INIT_RATE is 2, in a local variable.
unfoldable pub rtc_open : Kernel → ℕ → ℕ × Kernel
rtc_open k previous = (0, (rtc_write k previous (λ q. if q == 1 then 2 else 0) 1).1)

unfoldable pub rtc_close : ℕ
rtc_close = 0

-- rtc_init; `previous` is what register B reads.
unfoldable pub rtc_init : (Handler → ℕ) → Kernel → ℕ → Kernel
rtc_init address k previous =
    let k1 = outb (outb k (nmi_mask + 0x0B) rtc_reg) (nmi_mask + 0x0B) rtc_reg in
    let k2 = enable_irq (outb k1 (bit_or previous 0x40 % 256) (rtc_reg + 1)) 8 in
    outb (set_idt_wrapper k2 (soft_int_start + 8) (address rtc)) 0x0B rtc_reg

-- RTC_TEST_ENABLE is 0.
unfoldable pub rtc_handler : Kernel → Kernel
rtc_handler k =
    let flags = update (update (update k.interrupt_flag 0 1) 1 1) 2 1 in
    outb (send_eoi (record k { interrupt_flag = flags }) 8) 0x0C rtc_reg

-- The loop waits for the flag, which only rtc_handler sets.
unfoldable pub rtc_read : Kernel → Wait (ℕ × Kernel)
rtc_read k =
    if k.interrupt_flag k.active_task == 0
    then blocked
    else done (0, record k { interrupt_flag = update k.interrupt_flag k.active_task 0 })
