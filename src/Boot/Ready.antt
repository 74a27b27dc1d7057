-- ===== src/Boot/Ready.antt =====
-- The state in which student-distrib/kernel.c starts the first shell.
use boz_os.Idt.Gates.{IsGate, gate-IsGate}
use boz_os.Prelude.{
  if_false, if_true, true, false, ◌*◌, ℕ, zero, suc, ◌+◌, ◌<◌, ◌≤◌, ◌≡◌, refl, sym, ap, arith, [],
  ltb, Buf, IsBytes, List, ◌∷◌, ◌++◌, ◌==◌, ◌||◌, if◌then◌else◌,
}
use boz_os.State.{Term, Kernel, max_processes, term_3, outb}
use boz_os.Process.{get_pcb_base}
use boz_os.Process.Invariant.{IsTidy}
use boz_os.Screen.{num_rows, num_cols, put_cell, blank_cells}
use boz_os.Terminals.{term_video, multi_term_init, init_term, set_active_terminal, term_color}
use boz_os.Terminals.Switching.{InPlace}
use boz_os.Idt.{Handler, timer, keyboard, rtc, set_idt_wrapper}
use boz_os.Interrupts.{i8259_init, rtc_init, enable_irq}
use boz_os.Keyboard.{kb_init}
use boz_os.Paging.{paging_init}
use boz_os.Scheduler.{pit_init, set_active_task}
use boz_os.Boot.{init_kernel}

-- The writes to the ports of the two interrupt controllers, the latest first.
abbrev pub to_controllers : List (ℕ × ℕ) → List (ℕ × ℕ)
to_controllers [] = []
to_controllers ((port, value) ∷ log) =
    let rest = to_controllers log in
    if (port == 0x20) || (port == 0x21) || (port == 0xA0) || (port == 0xA1)
    then (port, value) ∷ rest
    else rest

-- What programs the controllers, the latest first: from the bottom, both masked, the four words of the
-- master, whose vectors start at 0x20, and of the slave on its line 2, whose vectors start at 0x28, the
-- masks again, and then the lines 2, 1, 8 and 0 opened one by one.
abbrev pub programming : List (ℕ × ℕ)
programming =
    (0x21, 0xF8)
    ∷ (0xA1, 0xFE)
    ∷ (0x21, 0xF9)
    ∷ (0x21, 0xFB)
    ∷ (0xA1, 0xFF)
    ∷ (0x21, 0xFF)
    ∷ (0xA1, 0x01)
    ∷ (0xA1, 0x02)
    ∷ (0xA1, 0x28)
    ∷ (0xA0, 0x11)
    ∷ (0x21, 0x01)
    ∷ (0x21, 0x04)
    ∷ (0x21, 0x20)
    ∷ (0x20, 0x11)
    ∷ (0xA1, 0xFF)
    ∷ (0x21, 0xFF)
    ∷ []

-- No process runs, every terminal has its own page and an empty list, the first terminal is shown and
-- has the processor, and the timer, the keyboard, the second controller and the clock alone may
-- interrupt, by the masks kept and by what the controllers were sent after `before`, the timer, the
-- keyboard and the clock through gates to their handlers.
pub record Ready (address : Handler → ℕ) (before : List (ℕ × ℕ)) (k : Kernel) : Type 0 where
  pub tidy : IsTidy (λ t. []) k
  pub unused : (p : ℕ) → p < max_processes → k.process_usage p ≡ 0
  pub in_place : InPlace k
  pub home : (n : ℕ) → n ≤ term_3 → ((k.terminal_table n).x ≡ 0) × ((k.terminal_table n).y ≡ 0)
  pub task : k.active_task ≡ 0
  pub terminal : k.active_terminal ≡ 0
  pub master : k.master_mask ≡ 0xF8
  pub slave : k.slave_mask ≡ 0xFE
  pub programmed : to_controllers k.ports ≡ programming ++ to_controllers before
  pub timer_gate : IsGate (k.idt 0x20) (address timer) 0 1
  pub keyboard_gate : IsGate (k.idt 0x21) (address keyboard) 0 1
  pub rtc_gate : IsGate (k.idt 0x28) (address rtc) 0 1

blank_cells-IsBytes :
    (m : Buf) (page color rounds index : ℕ)
    → color < 256
    → IsBytes m
    → IsBytes (blank_cells m page color rounds index)
unfolding blank_cells put_cell
blank_cells-IsBytes m page color zero index h bytes = bytes
blank_cells-IsBytes m page color (suc rounds) index h bytes =
    blank_cells-IsBytes (put_cell m page index b' ' color) page color rounds (index + 1) h cell
  where
    cell : IsBytes (put_cell m page index b' ' color)
    cell q = ground (arith, h, bytes q)

below : (n : ℕ) → n ≤ term_3 → ltb term_3 n ≡ false
below n h = ground arith

slot : (p : ℕ) → p < max_processes → ltb p 6 ≡ true
slot p h = ground arith

-- When entry has set up its parts, if memory held no links between process structures, the video
-- memory held bytes, and every interrupt was masked: no process number is in use and the three
-- lists are empty, every terminal has its own page and starts at its first cell, the first
-- terminal is shown and has the processor, and the timer, the keyboard, the second controller and
-- the clock alone may interrupt: the controllers have been sent their initialisation words, the
-- vectors 0x20 and 0x28, and at last the masks 0xF8 and 0xFE, which are also the masks kept. The gates
-- 0x20, 0x21 and 0x28 are present and lead to the handlers of the timer, the keyboard and the clock.
pub init_kernel-Ready :
    (address : Handler → ℕ) (page_table_at previous : ℕ) (image : Buf) (mod_start : ℕ) (k : Kernel)
    → ((p : ℕ) → p < max_processes → (k.pcb (get_pcb_base p)).child_pcb ≡ 0)
    → IsBytes k.vram
    → k.master_mask ≡ 0xFF
    → k.slave_mask ≡ 0xFF
    → Ready address k.ports (init_kernel address page_table_at previous image mod_start k)
unfolding init_kernel pit_init multi_term_init init_term set_active_terminal paging_init rtc_init
    kb_init i8259_init enable_irq set_active_task set_idt_wrapper outb
init_kernel-Ready address page_table_at previous image mod_start k fresh bytes all_master
      all_slave =
    let k' = init_kernel address page_table_at previous image mod_start k in
    let entry : (n : ℕ) → n ≤ term_3 → k'.terminal_table n ≡ init_term (k.terminal_table n) n =
      λ n h. if_false _ _ (below n h) in
    let free_slot : (p : ℕ) → p < max_processes → k'.process_usage p ≡ 0 =
      λ p h. if_true _ _ (slot p h) in
    record {
      tidy = record {
        chain = λ t h. ap (λ (u : Term). u.pcb_head) (entry t h);
        counted = λ p h. sym (free_slot p h);
        flag = λ p h. omega (arith, free_slot p h);
        free = λ p h u. fresh p h;
      };
      unused = free_slot;
      in_place = record {
        page = λ n h. ap (λ (u : Term). u.video) (entry n h);
        bytes =
            blank_cells-IsBytes _ (term_video 2) (term_color 2) (num_rows * num_cols) 0
              (omega arith)
              (blank_cells-IsBytes _ (term_video 1) (term_color 1) (num_rows * num_cols) 0
                (omega arith)
                (blank_cells-IsBytes k.vram (term_video 0) (term_color 0) (num_rows * num_cols) 0
                  (omega arith) bytes));
      };
      home = λ n h. (ap (λ (u : Term). u.x) (entry n h), ap (λ (u : Term). u.y) (entry n h));
      task = refl;
      terminal = refl;
      master = rw all_master refl;
      slave = rw all_slave refl;
      programmed = rw (all_master, all_slave) refl;
      timer_gate = gate-IsGate (address timer);
      keyboard_gate = gate-IsGate (address keyboard);
      rtc_gate = gate-IsGate (address rtc);
    }
