-- ===== src/Tests/Tasks.antt =====
-- Concrete runs of the timer, the terminals and the keyboard: student-distrib/scheduling.c,
-- multi_term.c, keyboard.c.
use boz_os.Prelude.{
  ◌≤◌, Buf, ℕ, zero, suc, ◌+◌, ◌-◌, ◌*◌, ◌<◌, ◌≡◌, refl, arith, some, ◌==◌, if◌then◌else◌,
}
use boz_os.State.{done, Kernel, kernel_base, pcb_offset}
use boz_os.Process.{get_pcb_tail, walk}
use boz_os.Scheduler.{resumes, task_switch}
use boz_os.Scheduler.Rotation.{Runs, next, stack_of, task_switch-round}
use boz_os.Terminals.{switch_terminal}
use boz_os.Terminals.Switching.{InPlace, Switched, switch_terminal-Switched}
use boz_os.Keyboard.{copy_kb_buf, get_scan_code, key_pressed, position_of, add_char_to_buf}
use boz_os.Keyboard.Table.{get_scan_code-lt}
use boz_os.Keyboard.Typing.{Typed, add_char_to_buf-Typed}
use boz_os.Files.{terminal_read}
use boz_os.Files.Typed.{terminal_read-copy_kb_buf}
use boz_os.Tests.{letters, running}

-- A shell on each terminal.
abbrev slots : ℕ → ℕ
slots t = kernel_base - (t + 1) * pcb_offset

abbrev crowded : Kernel
crowded = record (running 0) {
  terminal_table = λ t. record ((running 0).terminal_table t) { pcb_head = slots t };
}

crowded-Runs : Runs slots crowded
unfolding get_pcb_tail walk
crowded-Runs = record {
  tail = tail;
  not_null = λ t h. omega arith;
  apart = λ s t h h' e. omega (arith, e);
  active = omega arith;
}
  where
    tail : (t : ℕ) → t < 3 → get_pcb_tail crowded t ≡ some (slots t)
    tail zero h = refl
    tail (suc zero) h = refl
    tail (suc (suc zero)) h = refl
    tail (suc (suc (suc t))) h = absurd (omega arith)

task_switch-round_example :
    (k₁ : Kernel) × (k₂ : Kernel) × (k₃ : Kernel) × (task_switch crowded 100 200
      ≡ some (resumes 0 0 0 k₁))
    × (k₁.active_task ≡ 1)
    × (task_switch k₁ 101 201
        ≡ some (
            resumes
              (stack_of slots k₁ (next k₁.active_task)).0
              (stack_of slots k₁ (next k₁.active_task)).1
              0
              k₂))
    × (k₂.active_task ≡ 2)
    × (task_switch k₂ 102 202 ≡ some (resumes 100 200 0 k₃))
    × (k₃.active_task ≡ 0)
task_switch-round_example = task_switch-round slots crowded 100 200 101 201 102 202 crowded-Runs

in_place : InPlace (running 0)
in_place = record { page = λ n h. omega arith; bytes = λ q. omega arith }

switch_terminal-Switched_example :
    (k' : Kernel) × (switch_terminal (running 0) 2 ≡ some k') × Switched (running 0) 2 k'
switch_terminal-Switched_example =
    switch_terminal-Switched (running 0) 2 0 in_place (omega arith) (omega arith) (omega arith)
      (refl, λ i h. absurd (omega arith))

q_pressed : get_scan_code (running 0) 16 ≡ some (16, running 0)
unfolding get_scan_code key_pressed position_of
q_pressed = refl

get_scan_code-lt_example : 16 < 360
get_scan_code-lt_example = get_scan_code-lt (running 0) (running 0) 16 16 q_pressed

empty-Typed : Typed (running 0).kb_buf 0
empty-Typed = (omega arith, (refl, λ i h. absurd (omega arith)))

add_char_to_buf-Typed_example :
    (k' : Kernel) × (add_char_to_buf (running 0) b'x' ≡ some k')
    × Typed k'.kb_buf 1
    × ((i : ℕ) → i < 0 → k'.kb_buf i ≡ 0)
    × (0 < 127 → k'.kb_buf 0 ≡ b'x')
add_char_to_buf-Typed_example = add_char_to_buf-Typed (running 0) b'x' 0 empty-Typed (omega arith)

-- The buffer with one character in it.
abbrev typed_x : Kernel
typed_x = record (running 0) { kb_buf = λ i. if i == 0 then b'x' else 0 }

x-Typed : Typed typed_x.kb_buf 1
x-Typed = (omega arith, (refl, λ i h. ground arith))

-- A line of one character.
abbrev line_x : Kernel
line_x = record (running 0) { kb_buf = λ i. if i == 0 then b'x' else if i == 1 then b'\n' else 0 }

-- The line of one character, entered.
abbrev entered_x : Kernel
entered_x = record line_x { terminal_read_release = λ t. 1 }

terminal_read-copy_kb_buf_example :
    (buf' : Buf) × (k' : Kernel) × (terminal_read (copy_kb_buf entered_x) letters 8 5
      ≡ some (done (1, buf', k')))
    × ((j : ℕ) → j ≤ 1 → buf' (8 + j) ≡ entered_x.kb_buf j)
    × (k'.terminal_read_release 0 ≡ 0)
terminal_read-copy_kb_buf_example =
    terminal_read-copy_kb_buf entered_x letters 8 5 1 2 (omega arith) (omega arith) refl
      (record { inside = λ j l h. ground arith; ends = refl }) (omega arith) (omega arith)
      (omega arith) refl
