-- ===== src/Tests/Endings.antt =====
-- Concrete runs of halt and of an exception in a process that has a parent: student-distrib/syscalls.c,
-- IDT.c.
use boz_os.Prelude.{
  ℕ, zero, suc, ◌-◌, ◌*◌, ◌≤◌, ◌<◌, ◌≡◌, refl, arith, some, List, [], ◌∷◌, ◌==◌, if◌then◌else◌, ltb,
}
use boz_os.State.{update, Kernel, kernel_base, pcb_offset}
use boz_os.Process.{get_pcb_base}
use boz_os.Process.Chain.{Chain}
use boz_os.Process.Invariant.{IsTidy}
use boz_os.Scheduler.{resumes, halt}
use boz_os.Scheduler.Halting.{Halted, halt-Halted}
use boz_os.Exceptions.{handle_exception}
use boz_os.Exceptions.Ending.{handle_exception-Ended}
use boz_os.Tests.Programs.{ready, surroundings}

-- Process 1 is a child of process 0.
abbrev first_pcb : ℕ
first_pcb = kernel_base - pcb_offset

abbrev second_pcb : ℕ
second_pcb = kernel_base - 2 * pcb_offset

abbrev nested : Kernel
nested = record ready {
  process_usage = λ p. if ltb p 2 then 1 else 0;
  pcb = λ a.
      if a == first_pcb
      then record (ready.pcb a) { child_pcb = second_pcb; self_page = kernel_base }
      else if a == second_pcb
      then record (ready.pcb a) { pid = 1; self_esp = 300; self_ebp = 400 }
      else ready.pcb a;
}

abbrev nested_lists : ℕ → List ℕ
nested_lists zero = 0 ∷ 1 ∷ []
nested_lists (suc n) = []

nested-IsTidy : IsTidy nested_lists nested
unfolding get_pcb_base
nested-IsTidy = record {
  chain = chain;
  counted = λ p h. ground arith;
  flag = λ p h. ground arith;
  free = free;
}
  where
    chain : (t : ℕ) → t ≤ 2 → Chain nested.pcb (nested.terminal_table t).pcb_head (nested_lists t)
    chain zero h = (omega arith, refl, (omega arith, refl, refl))
    chain (suc n) h = ground arith

    free :
        (p : ℕ) → p < 6 → nested.process_usage p ≡ 0 → (nested.pcb (get_pcb_base p)).child_pcb ≡ 0
    free zero h u = absurd (omega (arith, u))
    free (suc p) h u = ground (arith, h)

halt-Halted_example :
    (k' : Kernel) × (halt nested 7 ≡ some (resumes 300 400 7 k'))
    × Halted (update nested_lists 0 (0 ∷ [])) nested 0 1 k'
unfolding get_pcb_base
halt-Halted_example = halt-Halted nested_lists nested nested-IsTidy (omega arith) 0 [] 1 refl refl 7

handle_exception-Ended_example :
    (k' : Kernel) × (handle_exception 14 surroundings nested 0xDEAD 2
      ≡ some (resumes 300 400 256 k'))
    × Halted (update nested_lists 0 (0 ∷ [])) nested 0 1 k'
unfolding get_pcb_base
handle_exception-Ended_example =
    handle_exception-Ended surroundings (omega arith) nested_lists nested nested-IsTidy
      (omega arith) 0 [] 1 refl refl 14 0xDEAD 2 (omega arith) (omega arith)
