-- ===== src/Execute/Returning.antt =====
-- execute and halt of student-distrib/syscalls.c together: a program that is started and ends.
use boz_os.Prelude.{
  ℕ, ◌<◌, ◌≤◌, ◌≡◌, ◌≢◌, refl, sym, ap, ◌∙◌, arith, bit_or, some, Option, List, [], ◌∷◌, ◌++◌, Buf,
}
use mathlib.Core.Path.{subst}
use native.Mathlib.Decide.{ℕ_discrete}
use boz_os.State.{Kernel, Pcb, max_processes, term_3, update, update_own, update_other}
use boz_os.Filesystem.{dentry_inode}
use boz_os.Process.{get_pcb_base, get_pcb_tail}
use boz_os.Process.Chain.{Chain, count, count-last, last, last-lt}
use boz_os.Process.Invariant.{IsTidy, IsTidy-lists, count-le-total}
use boz_os.Files.{Env}
use boz_os.Scheduler.{resumes, user_directory, user_page_set_bits, halt}
use boz_os.Scheduler.Halting.{returned, halt-Halted}
use boz_os.Execute.{Command, Launch, enters, user_stack, user_cs, user_ds, int_flag, execute}
use boz_os.Execute.Starting.{Runnable, Started, Entered, entered, execute-Entered}

-- The caller's world is back: the lists, its page and its kernel stack.
pub record Back (chains : ℕ → List ℕ) (k : Kernel) (parent : ℕ) (k' : Kernel) : Type 0 where
  pub tidy : IsTidy chains k'
  pub running : get_pcb_tail k' k.active_task ≡ some (get_pcb_base parent)
  pub usage : (p : ℕ) → p < max_processes → k'.process_usage p ≡ k.process_usage p
  pub page :
      k'.page_directory user_directory
      ≡ bit_or (k.pcb (get_pcb_base parent)).self_page user_page_set_bits
  pub stack : k'.tss_esp0 ≡ (k.pcb (get_pcb_base parent)).self_k_stack

module _ (chains : ℕ → List ℕ) (k : Kernel) (tidy : IsTidy chains k) (here : k.active_task ≤ term_3)
    (q : ℕ) (qs : List ℕ) (shell : chains k.active_task ≡ q ∷ qs) (esp ebp inode text : ℕ)
    (c : Command) (p : ℕ) (k' : Kernel) (s : Started chains k esp ebp inode text c p k') where
  abbrev grown : ℕ → List ℕ
  grown = update chains k.active_task (chains k.active_task ++ (p ∷ []))

  listed : grown k'.active_task ≡ (q ∷ qs) ++ (p ∷ [])
  listed =
      ap grown s.same_task
      ∙ update_own chains k.active_task (chains k.active_task ++ (p ∷ []))
      ∙ ap (λ ps. ps ++ (p ∷ [])) shell

  here' : k'.active_task ≤ term_3
  here' = omega (arith, here, s.same_task)

  same_lists : (t : ℕ) → update grown k'.active_task (q ∷ qs) t ≡ chains t
  same_lists t = elim (ℕ_discrete t k'.active_task) [
    | yes e ↦
        ap (update grown k'.active_task (q ∷ qs)) e
        ∙ update_own grown k'.active_task (q ∷ qs)
        ∙ sym shell
        ∙ ap chains (sym s.same_task ∙ sym e)
    | no ne ↦
        update_other grown k'.active_task (q ∷ qs) t ne
        ∙ update_other chains k.active_task _ t (λ e. ne (e ∙ sym s.same_task))
  ]

  parent_small : last q qs < max_processes
  parent_small = last-lt k.pcb (k.terminal_table k.active_task).pcb_head q qs (
      subst (Chain k.pcb (k.terminal_table k.active_task).pcb_head) shell
        (tidy.chain k.active_task here))

  parent_used : k.process_usage (last q qs) ≢ 0
  parent_used e = omega (
    arith,
    e,
    count-last q qs,
    ap (count (last q qs)) shell,
    count-le-total chains k.active_task (last q qs) here,
    tidy.counted (last q qs) parent_small,
  )

  kept :
      record (k.pcb (get_pcb_base (last q qs))) {
        child_pcb = (k'.pcb (get_pcb_base (last q qs))).child_pcb;
      }
      ≡ k'.pcb (get_pcb_base (last q qs))
  kept = s.others (last q qs) parent_small parent_used

  halt-Back :
      (status : ℕ)
      → (k'' : Kernel) × (halt k' status ≡ some (resumes esp ebp (returned status) k''))
        × Back chains k (last q qs) k''
  halt-Back status =
      let ended = halt-Halted grown k' s.tidy here' q qs p listed s.pid status in
      let same_tidy =
        IsTidy-lists (update grown k'.active_task (q ∷ qs)) chains ended.0 same_lists
          ended.2.tidy in
      (
        ended.0,
        ended.1
            ∙ ap
                (λ b. some (resumes b (k'.pcb (get_pcb_base p)).self_ebp (returned status) ended.0))
                s.back_esp
            ∙ ap (λ b. some (resumes esp b (returned status) ended.0)) s.back_ebp,
        record {
          tidy = same_tidy;
          running = ap (get_pcb_tail ended.0) (sym s.same_task) ∙ ended.2.running;
          usage = λ r l. sym (same_tidy.counted r l) ∙ tidy.counted r l;
          page = ended.2.page ∙ ap (λ (b : Pcb). bit_or b.self_page user_page_set_bits) (sym kept);
          stack = ended.2.stack ∙ ap (λ (b : Pcb). b.self_k_stack) (sym kept);
        },
      )

-- A program that ends at once. A process runs on the terminal, the lists are apart and in step
-- with process_usage, a process number is free, and the command names an executable file that fits
-- into a user page: execute leaves for the program, and halt in the program comes back into this
-- execute, with the stack registers of the caller and the low byte of what the program passed as its
-- status, where 255 becomes 256.
-- The process lists and process_usage are those of before, the process that called execute runs on
-- its terminal, and its page and its kernel stack are in place again.
pub execute-halt :
    (env : Env) (chains : ℕ → List ℕ) (k : Kernel) (eflags esp ebp : ℕ) (command : Buf) (at : ℕ)
    (c : Command) (dentry : Buf) (entry text free q : ℕ) (qs : List ℕ) (status : ℕ)
    → IsTidy chains k
    → k.active_task ≤ term_3
    → chains k.active_task ≡ q ∷ qs
    → Runnable env k command at c dentry entry text
    → free < max_processes
    → k.process_usage free ≡ 0
    → (k' : Kernel) × (k'' : Kernel) × (execute env k eflags esp ebp command at
        ≡ some (enters entry user_cs (bit_or eflags int_flag) user_stack user_ds k'))
      × (halt k' status ≡ some (resumes esp ebp (returned status) k''))
      × Back chains k (last q qs) k''
execute-halt env chains k eflags esp ebp command at c dentry entry text free q qs status tidy here
      shell run small unused =
    go
      (execute-Entered env chains k eflags esp ebp command at c dentry entry text free tidy here run
        small unused)
      refl
  where
    go :
        {r : Option Launch}
        → Entered chains k esp ebp (dentry_inode dentry) text c eflags entry r
        → execute env k eflags esp ebp command at ≡ r
        → (k' : Kernel) × (k'' : Kernel) × (execute env k eflags esp ebp command at
            ≡ some (enters entry user_cs (bit_or eflags int_flag) user_stack user_ds k'))
          × (halt k' status ≡ some (resumes esp ebp (returned status) k''))
          × Back chains k (last q qs) k''
    go (entered p k' s) e =
        let ended =
          halt-Back chains k tidy here q qs shell esp ebp (dentry_inode dentry) text c p k' s
            status in
        (k', ended.0, e, ended.1, ended.2)
