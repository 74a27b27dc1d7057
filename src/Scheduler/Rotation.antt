-- ===== src/Scheduler/Rotation.antt =====
-- task_switch of student-distrib/scheduling.c when a process runs on each of the three terminals.
use boz_os.Prelude.{
  ℕ, ◌+◌, ◌%◌, ◌<◌, ◌≡◌, ◌≢◌, refl, sym, ap, ◌∙◌, arith, leb, if_false, false, some,
}
use native.Mathlib.Decide.{ℕ_discrete}
use mathlib.Core.Path.{subst}
use boz_os.State.{Kernel, Pcb, update_own, update_other, outb}
use boz_os.Process.{get_pcb_tail}
use boz_os.Process.Searching.{get_pcb_tail_same}
use boz_os.Interrupts.{send_eoi}
use boz_os.Scheduler.{resumes, set_active_task, save_stack, load_space, task_switch}

-- The process that runs on each terminal.
pub record Runs (running : ℕ → ℕ) (k : Kernel) : Type 0 where
  pub tail : (t : ℕ) → t < 3 → get_pcb_tail k t ≡ some (running t)
  pub not_null : (t : ℕ) → t < 3 → running t ≢ 0
  pub apart : (s t : ℕ) → s < 3 → t < 3 → running s ≡ running t → s ≡ t
  pub active : k.active_task < 3

-- The terminal whose turn is next.
abbrev pub next : ℕ → ℕ
next t = (t + 1) % 3

-- The stack registers that a terminal's process has been left with.
abbrev pub stack_of : (ℕ → ℕ) → Kernel → ℕ → ℕ × ℕ
stack_of running k t = ((k.pcb (running t)).esp_switch, (k.pcb (running t)).ebp_switch)

-- A switch gives the processor to the next terminal's process with the registers that it was left
-- with, keeps those of the process that ran, and changes nobody else's.
pub record Turn (running : ℕ → ℕ) (k : Kernel) (esp ebp : ℕ) (k' : Kernel) : Type 0 where
  pub active : k'.active_task ≡ next k.active_task
  pub own : stack_of running k' k.active_task ≡ (esp, ebp)
  pub others : (t : ℕ) → t < 3 → t ≢ k.active_task → stack_of running k' t ≡ stack_of running k t
  pub still : Runs running k'

pub set_active_task_in :
    (k : Kernel) (t : ℕ) → t < 3 → set_active_task k t ≡ record k { active_task = t }
unfolding set_active_task
set_active_task_in k t h = let small : leb 3 t ≡ false = ground arith in if_false _ _ small

module _ (running : ℕ → ℕ) (k : Kernel) (runs : Runs running k) (esp ebp : ℕ) where
  abbrev incoming : ℕ
  incoming = running (next k.active_task)

  abbrev outgoing : ℕ
  outgoing = running k.active_task

  -- The state before the end of the interrupt is signalled.
  abbrev saved : Kernel
  saved =
      let k' = record k { active_task = next k.active_task } in
      save_stack (load_space k' (k.pcb incoming)) outgoing esp ebp

  task_switch_run :
      task_switch k esp ebp
      ≡ some (
          resumes
            (saved.pcb incoming).esp_switch
            (saved.pcb incoming).ebp_switch
            0
            (send_eoi saved 0))
  unfolding task_switch
  task_switch_run = ground (
    arith,
    runs.tail (next k.active_task) (omega arith),
    runs.tail k.active_task runs.active,
    runs.not_null (next k.active_task) (omega arith),
    runs.not_null k.active_task runs.active,
    set_active_task_in k (next k.active_task) (omega arith),
  )

  stack_other :
      (t : ℕ) → t < 3 → t ≢ k.active_task → stack_of running saved t ≡ stack_of running k t
  unfolding save_stack load_space
  stack_other t h ne =
      ap (λ (p : Pcb). (p.esp_switch, p.ebp_switch))
        (update_other k.pcb outgoing _ (running t)
          (λ e. ne (runs.apart t k.active_task h runs.active e)))

  saved-Turn : Turn running k esp ebp (send_eoi saved 0)
  unfolding send_eoi outb save_stack load_space
  saved-Turn = record {
    active = refl;
    own = ap (λ (p : Pcb). (p.esp_switch, p.ebp_switch)) (update_own k.pcb outgoing _);
    others = stack_other;
    still = record {
      tail = λ t h. get_pcb_tail_same k (send_eoi saved 0) t refl children ∙ runs.tail t h;
      not_null = runs.not_null;
      apart = runs.apart;
      active = omega arith;
    };
  }
    where
      children : (q : ℕ) → ((send_eoi saved 0).pcb q).child_pcb ≡ (k.pcb q).child_pcb
      children q = elim (ℕ_discrete q outgoing) [
        | yes e ↦
            subst (λ q. ((send_eoi saved 0).pcb q).child_pcb ≡ (k.pcb q).child_pcb) (sym e)
              (ap (λ (p : Pcb). p.child_pcb) (update_own k.pcb outgoing _))
        | no ne ↦ ap (λ (p : Pcb). p.child_pcb) (update_other k.pcb outgoing _ q ne)
      ]

  -- While a process runs on each of the three terminals, the timer's interrupt resumes the process of
  -- the next terminal, the first again behind the last, with the stack registers that it was left
  -- with; it keeps those of the process that ran, changes no other process's, and a process still
  -- runs on each.
  pub task_switch-Turn :
      (k' : Kernel) × (task_switch k esp ebp
        ≡ some (
            resumes
              (stack_of running k (next k.active_task)).0
              (stack_of running k (next k.active_task)).1
              0
              k'))
      × Turn running k esp ebp k'
  task_switch-Turn =
      let same = stack_other (next k.active_task) (omega arith) (omega arith) in
      (
        send_eoi saved 0,
        task_switch_run ∙ ap (λ (r : ℕ × ℕ). some (resumes r.0 r.1 0 (send_eoi saved 0))) same,
        saved-Turn,
      )

-- Three timer interrupts, while a process runs on each terminal: the other two terminals have their
-- turn, and then the first process runs on with the stack registers with which it was interrupted.
pub task_switch-round :
    (running : ℕ → ℕ) (k : Kernel) (esp ebp esp₁ ebp₁ esp₂ ebp₂ : ℕ)
    → Runs running k
    → (k₁ : Kernel) × (k₂ : Kernel) × (k₃ : Kernel) × (task_switch k esp ebp
        ≡ some (
            resumes
              (stack_of running k (next k.active_task)).0
              (stack_of running k (next k.active_task)).1
              0
              k₁))
      × (k₁.active_task ≡ next k.active_task)
      × (task_switch k₁ esp₁ ebp₁
          ≡ some (
              resumes
                (stack_of running k₁ (next k₁.active_task)).0
                (stack_of running k₁ (next k₁.active_task)).1
                0
                k₂))
      × (k₂.active_task ≡ next (next k.active_task))
      × (task_switch k₂ esp₂ ebp₂ ≡ some (resumes esp ebp 0 k₃))
      × (k₃.active_task ≡ k.active_task)
task_switch-round running k esp ebp esp₁ ebp₁ esp₂ ebp₂ runs =
    let first = task_switch-Turn running k runs esp ebp in
    let second = task_switch-Turn running first.0 first.2.still esp₁ ebp₁ in
    let third = task_switch-Turn running second.0 second.2.still esp₂ ebp₂ in
    let a₁ = first.2.active in
    let a₂ = second.2.active in
    let back : next second.0.active_task ≡ k.active_task = omega (arith, a₁, a₂, runs.active) in
    let kept : stack_of running second.0 (next second.0.active_task) ≡ (esp, ebp) =
      ap (stack_of running second.0) back
      ∙ second.2.others k.active_task runs.active (omega (arith, a₁, runs.active))
      ∙ first.2.own in
    (
      first.0,
      second.0,
      third.0,
      first.1,
      a₁,
      second.1,
      a₂ ∙ ap next a₁,
      third.1 ∙ ap (λ (r : ℕ × ℕ). some (resumes r.0 r.1 0 third.0)) kept,
      third.2.active ∙ back,
    )
