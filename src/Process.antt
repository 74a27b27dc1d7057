-- ===== src/Process.antt =====
-- The process lists of student-distrib/multi_term.c: which process numbers are in use, and for each
-- terminal the list of its processes, from the base shell to the one that runs.
use boz_os.Prelude.{
  ℕ, zero, suc, ◌+◌, ◌*◌, ◌-◌, Option, some, none, ltb, ◌==◌, if◌then◌else◌, ◌>>=◌, minus_one,
}
use boz_os.State.{Pcb, Term, Kernel, max_processes, term_3, kernel_base, pcb_offset, update}
pub mod Chain
pub mod Invariant
pub mod Searching
pub mod Adding
pub mod Removing

unfoldable pub get_pcb_base : ℕ → ℕ
get_pcb_base process_num =
    if ltb process_num max_processes then kernel_base - (process_num + 1) * pcb_offset else 0

-- `while (p->child_pcb != NULL) p = p->child_pcb;`
unfoldable pub walk : ℕ → (ℕ → Pcb) → ℕ → Option ℕ
walk zero pcb a = none
walk (suc fuel) pcb a =
    let rest = walk fuel pcb (pcb a).child_pcb in if (pcb a).child_pcb == 0 then some a else rest

unfoldable pub get_pcb_tail : Kernel → ℕ → Option ℕ
unfolding walk
get_pcb_tail k terminal_n =
    let head = (k.terminal_table terminal_n).pcb_head in
    if ltb term_3 terminal_n
    then some 0
    else if head == 0
    then some 0
    else walk max_processes k.pcb head

-- The first number from `i` on, of `rounds`, that is not in use.
unfoldable pub first_free : (ℕ → ℕ) → ℕ → ℕ → ℕ
first_free usage zero i = minus_one
first_free usage (suc rounds) i =
    let rest = first_free usage rounds (i + 1) in if usage i == 0 then i else rest

unfoldable pub set_pcb_head : Kernel → ℕ → ℕ → Kernel
set_pcb_head k t a = record k {
  terminal_table = update k.terminal_table t (record (k.terminal_table t) { pcb_head = a });
}

-- `p->child_pcb = c`
unfoldable pub set_child : (ℕ → Pcb) → ℕ → ℕ → ℕ → Pcb
set_child pcb p c = update pcb p (record (pcb p) { child_pcb = c })

unfoldable pub add_pcb : Kernel → ℕ → Option (ℕ × Kernel)
unfolding first_free set_pcb_head set_child walk get_pcb_base
add_pcb k term_num =
    let process_num = first_free k.process_usage max_processes 0 in
    let k' = record k { process_usage = update k.process_usage process_num 1 } in
    let head = (k.terminal_table term_num).pcb_head in
    if process_num == minus_one
    then some (minus_one, k)
    else if head == 0
    then some (process_num, set_pcb_head k' term_num (get_pcb_base process_num))
    else do
      tail ← walk max_processes k'.pcb head
      some (process_num, record k' { pcb = set_child k'.pcb tail (get_pcb_base process_num) })

-- `pid > MAX_PROCESSES` lets 6 through, which is outside the table.
unfoldable pub unset_process_usage : Kernel → ℕ → Kernel
unset_process_usage k pid =
    if ltb max_processes pid then k else record k { process_usage = update k.process_usage pid 0 }

unfoldable pub reset_pcb_head : Kernel → ℕ → Kernel
unfolding set_pcb_head
reset_pcb_head k terminal_n = if ltb term_3 terminal_n then k else set_pcb_head k terminal_n 0
