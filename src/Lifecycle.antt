-- ===== src/Lifecycle.antt =====
-- The processes of the three terminals as stacks of numbers, and what execute and halt of
-- student-distrib/syscalls.c, task_switch of scheduling.c and putc of lib.c do to them.
pub mod Outcomes
pub mod Refinement
use boz_os.Prelude.{ℕ, ◌<◌, ◌≤◌, ◌≡◌, ◌≢◌, some, List, [], ◌∷◌, ◌++◌, Buf}
use boz_os.State.{Kernel, max_processes, term_3, update}
use boz_os.Screen.{putc}
use boz_os.Process.{get_pcb_base}
use boz_os.Process.Invariant.{IsTidy, total}
use boz_os.Files.{Env}
use boz_os.Scheduler.{resumes, halt, task_switch}
use boz_os.Execute.{Command, enters, execute}
use boz_os.Execute.Starting.{Runnable}

-- What can happen to the stacks: a program starts on a terminal, or ends on one, or nothing does.
pub data Action : Type 0 where
  enters_on : ℕ → Action
  leaves_on : ℕ → Action
  nothing_happens : Action

-- The promise: a program goes on top of the stack of its terminal under a number that stands nowhere,
-- and one that ends goes off the top of the stack of its terminal, where it is not the only entry.
pub data Step (s : ℕ → List ℕ) : Action → (ℕ → List ℕ) → Type 0 where
  push :
      (t p : ℕ)
      → t ≤ term_3
      → p < max_processes
      → total s p ≡ 0
      → Step s (enters_on t) (update s t (s t ++ (p ∷ [])))
  pop :
      (t q : ℕ) (qs : List ℕ) (p : ℕ)
      → t ≤ term_3
      → s t ≡ (q ∷ qs) ++ (p ∷ [])
      → Step s (leaves_on t) (update s t (q ∷ qs))
  stay : Step s nothing_happens s

-- One step for each action, in their order.
pub data Steps : (ℕ → List ℕ) → List Action → (ℕ → List ℕ) → Type 0 where
  no_step : {s : ℕ → List ℕ} → Steps s [] s
  step :
      {s s' s'' : ℕ → List ℕ} {a : Action} {rest : List Action}
      → Step s a s'
      → Steps s' rest s''
      → Steps s (a ∷ rest) s''

-- What the code does: a program is entered, one ends, the timer passes the processor on, a character
-- is printed.
pub data Event (k : Kernel) : Kernel → Type 0 where
  starts :
      (env : Env) (eflags esp ebp : ℕ) (command : Buf) (at : ℕ) (c : Command) (dentry : Buf)
      (entry text free eip cs eflags' esp' ss : ℕ) (k' : Kernel)
      → Runnable env k command at c dentry entry text
      → free < max_processes
      → k.process_usage free ≡ 0
      → execute env k eflags esp ebp command at ≡ some (enters eip cs eflags' esp' ss k')
      → Event k k'
  ends :
      (status esp ebp eax : ℕ) (k' : Kernel)
      → halt k status ≡ some (resumes esp ebp eax k')
      → Event k k'
  switches :
      (esp ebp esp' ebp' eax : ℕ) (k' : Kernel)
      → task_switch k esp ebp ≡ some (resumes esp' ebp' eax k')
      → Event k k'
  prints : (c : ℕ) → Event k (putc k c)

pub data Events : Kernel → Kernel → Type 0 where
  no_event : {k : Kernel} → Events k k
  event : {k k' k'' : Kernel} → Event k k' → Events k' k'' → Events k k''

-- What an event is for the stacks: a start and an end are those of the terminal that has the processor.
abbrev pub action : {k k' : Kernel} → Event k k' → Action
action {k}
      (starts env eflags esp ebp command at c dentry entry text free eip cs eflags' esp' ss k' run
        small unused e) =
    enters_on k.active_task
action {k} (ends status esp ebp eax k' e) = leaves_on k.active_task
action (switches esp ebp esp' ebp' eax k' e) = nothing_happens
action (prints c) = nothing_happens

abbrev pub actions : {k k' : Kernel} → Events k k' → List Action
actions no_event = []
actions (event e rest) = action e ∷ actions rest

-- The kernel stands for these stacks: its lists are they, and a structure in use has its own number.
pub record StandsFor (s : ℕ → List ℕ) (k : Kernel) : Type 0 where
  pub tidy : IsTidy s k
  pub here : k.active_task ≤ term_3
  pub named : (p : ℕ) → p < max_processes → k.process_usage p ≢ 0 → (k.pcb (get_pcb_base p)).pid ≡ p
