-- ===== src/Lifecycle/Refinement.antt =====
-- Every event of the kernel is a step of the stacks.
use boz_os.Prelude.{
  ℕ, ◌+◌, ◌%◌, ◌<◌, ◌≤◌, ◌≡◌, ◌≢◌, refl, sym, ap, ◌∙◌, arith, true, false, some, Option, List, [],
  ◌∷◌, ◌++◌, ◌==◌, if◌then◌else◌,
}
use mathlib.Core.Path.{subst}
use native.Mathlib.Decide.{ℕ_discrete}
use boz_os.State.{Kernel, Pcb, max_processes, term_3, update, update_field, outb}
use boz_os.Screen.{putc}
use boz_os.Screen.Frame.{Shown, putc-Shown}
use boz_os.Process.{get_pcb_base}
use boz_os.Process.Chain.{Chain, last}
use boz_os.Process.Invariant.{IsTidy-same, get_pcb_tail-last, tail_address, total}
use boz_os.Process.Adding.{total-update}
use boz_os.Process.Removing.{used, removed-lt}
use boz_os.Filesystem.{dentry_inode}
use boz_os.Interrupts.{send_eoi}
use boz_os.Scheduler.{resumes, executes, returns, halt, task_switch, save_stack, load_space}
use boz_os.Scheduler.Rotation.{set_active_task_in}
use boz_os.Scheduler.Halting.{Halted, halt-Halted}
use boz_os.Execute.{Command, Launch, enters}
use boz_os.Execute.Starting.{Started, Entered, entered, execute-Entered}
use boz_os.Lifecycle.Outcomes.{
  entered_kernel, resumed_kernel, is_resumed, resumed_last, Shape, empty, single, more, shape,
}
use boz_os.Lifecycle.{
  Step, push, pop, stay, Steps, Event, starts, ends, switches, prints, Events, no_event, event,
  no_step, step, StandsFor, Action, enters_on, leaves_on, nothing_happens, action, actions,
}

-- The step, and the stacks behind it.
abbrev pub Follows : (ℕ → List ℕ) → Action → Kernel → Type 0
Follows s a k' = (s' : ℕ → List ℕ) × Step s a s' × StandsFor s' k'

module _ (s : ℕ → List ℕ) (k : Kernel) (stands : StandsFor s k) where
  start-Follows :
      (esp ebp inode text : ℕ) (c : Command) (p : ℕ) (k' : Kernel)
      → Started s k esp ebp inode text c p k'
      → Follows s (enters_on k.active_task) k'
  start-Follows esp ebp inode text c p k' st =
      let absent : total s p ≡ 0 = stands.tidy.counted p st.small ∙ st.unused in
      (
        update s k.active_task (s k.active_task ++ (p ∷ [])),
        push k.active_task p stands.here st.small absent,
        record { tidy = st.tidy; here = omega (arith, st.same_task, stands.here); named = named },
      )
    where
      named :
          (r : ℕ) → r < max_processes → k'.process_usage r ≢ 0 → (k'.pcb (get_pcb_base r)).pid ≡ r
      named r l used = elim (ℕ_discrete r p) [
        | yes e ↦ ap (λ n. (k'.pcb (get_pcb_base n)).pid) e ∙ st.pid ∙ sym e
        | no ne ↦
            let before : k.process_usage r ≢ 0 = λ z. used (
              sym (st.tidy.counted r l)
              ∙ total-update s k.active_task p r stands.here
              ∙ ground (arith, stands.tidy.counted r l, z, ne)) in
            sym (ap (λ (b : Pcb). b.pid) (st.others r l before)) ∙ stands.named r l before
      ]

  halt-Follows :
      (q : ℕ) (qs : List ℕ) (p : ℕ) (k' : Kernel)
      → s k.active_task ≡ (q ∷ qs) ++ (p ∷ [])
      → Halted (update s k.active_task (q ∷ qs)) k (last q qs) p k'
      → Follows s (leaves_on k.active_task) k'
  halt-Follows q qs p k' listed h = (
    update s k.active_task (q ∷ qs),
    pop k.active_task q qs p stands.here listed,
    record {
      tidy = h.tidy;
      here = omega (arith, h.same_task, stands.here);
      named = λ r l used.
          h.numbers (get_pcb_base r) ∙ stands.named r l (λ z. used (h.usage r ∙ ground (arith, z)));
    },
  )

  halt-empty : (status : ℕ) → s k.active_task ≡ [] → is_resumed (halt k status) ≡ false
  unfolding halt
  halt-empty status none_listed =
      let tail =
        get_pcb_tail-last s k stands.tidy k.active_task stands.here
        ∙ ap (λ ps. some (tail_address ps)) none_listed in
      let head =
        subst (Chain k.pcb (k.terminal_table k.active_task).pcb_head) none_listed
          (stands.tidy.chain k.active_task stands.here) in
      rw (tail, head) refl

  halt-single : (status q : ℕ) → s k.active_task ≡ q ∷ [] → is_resumed (halt k status) ≡ false
  unfolding halt
  halt-single status q alone =
      let tail =
        get_pcb_tail-last s k stands.tidy k.active_task stands.here
        ∙ ap (λ ps. some (tail_address ps)) alone in
      let chain =
        subst (Chain k.pcb (k.terminal_table k.active_task).pcb_head) alone
          (stands.tidy.chain k.active_task stands.here) in
      let same : (get_pcb_base q == get_pcb_base q) ≡ true = ground arith in
      rw (tail, chain.1, same) refl

  -- A change of the kernel's other parts.
  same-Follows :
      (k' : Kernel)
      → ((t : ℕ) → (k'.terminal_table t).pcb_head ≡ (k.terminal_table t).pcb_head)
      → ((a : ℕ) → (k'.pcb a).child_pcb ≡ (k.pcb a).child_pcb)
      → ((a : ℕ) → (k'.pcb a).pid ≡ (k.pcb a).pid)
      → ((p : ℕ) → k'.process_usage p ≡ k.process_usage p)
      → k'.active_task ≤ term_3
      → Follows s nothing_happens k'
  same-Follows k' heads children numbers usage here = (
    s,
    stay,
    record {
      tidy = IsTidy-same s k k' heads children usage stands.tidy;
      here = here;
      named = λ r l used. numbers (get_pcb_base r) ∙ stands.named r l (λ z. used (usage r ∙ z));
    },
  )

  printed-Follows : (k' : Kernel) → Shown k k' → Follows s nothing_happens k'
  printed-Follows k' shown =
      subst (λ (k' : Kernel). Follows s nothing_happens k') shown.frame
        (same-Follows
          (record k { terminal_table = k'.terminal_table; vram = k'.vram; ports = k'.ports })
          shown.heads (λ a. refl) (λ a. refl) (λ p. refl) stands.here)

  switched-Follows :
      (esp ebp esp' ebp' eax : ℕ) (k' : Kernel)
      → task_switch k esp ebp ≡ some (resumes esp' ebp' eax k')
      → Follows s nothing_happens k'
  unfolding task_switch save_stack load_space send_eoi outb
  switched-Follows esp ebp esp' ebp' eax k' e =
      let t = (k.active_task + 1) % 3 in
      let small : t ≤ term_3 = omega arith in
      let tail = get_pcb_tail-last s k stands.tidy t small in
      let tail' = get_pcb_tail-last s k stands.tidy k.active_task stands.here in
      let set = set_active_task_in k t (omega (arith, small)) in
      let k₁ = record k { active_task = t } in
      let incoming = tail_address (s t) in
      let outgoing = tail_address (s k.active_task) in
      let saved = save_stack (load_space k₁ (k.pcb incoming)) outgoing esp ebp in
      let run : task_switch k esp ebp
          ≡ some (
              if outgoing == 0
              then returns (send_eoi k 0)
              else if incoming == 0
              then executes (send_eoi (save_stack k₁ outgoing esp ebp) 0)
              else resumes (saved.pcb incoming).esp_switch (saved.pcb incoming).ebp_switch 0
                  (send_eoi saved 0)) =
        rw (tail, tail', set) refl in
      subst (Follows s nothing_happens)
        (resumed_last (outgoing == 0) (incoming == 0) _ _ (send_eoi saved 0) k' _ _ 0 esp' ebp' eax
          (sym run ∙ e))
        (same-Follows (send_eoi saved 0) (λ t. refl)
          (λ a. update_field (λ (b : Pcb). b.child_pcb) k.pcb outgoing _ a refl)
          (λ a. update_field (λ (b : Pcb). b.pid) k.pcb outgoing _ a refl) (λ p. refl) small)

  ended-Follows :
      (status esp ebp eax : ℕ) (k' : Kernel)
      → halt k status ≡ some (resumes esp ebp eax k')
      → Follows s (leaves_on k.active_task) k'
  ended-Follows status esp ebp eax k' e = go (shape (s k.active_task)) refl
    where
      go : {ps : List ℕ} → Shape ps → s k.active_task ≡ ps → Follows s (leaves_on k.active_task) k'
      go empty listed =
          let no : false ≡ true = sym (halt-empty status listed) ∙ ap is_resumed e in
          ground (arith, no)
      go (single q) listed =
          let no : false ≡ true = sym (halt-single status q listed) ∙ ap is_resumed e in
          ground (arith, no)
      go (more q qs p) listed =
          let in_use = used s k stands.tidy k.active_task stands.here q qs p listed in
          let small = removed-lt s k stands.tidy k.active_task stands.here q qs p listed in
          let own = stands.named p small (λ z. omega (arith, in_use, z)) in
          let h = halt-Halted s k stands.tidy stands.here q qs p listed own status in
          subst (Follows s (leaves_on k.active_task)) (ap (resumed_kernel k) (sym h.1 ∙ e))
            (halt-Follows q qs p h.0 listed h.2)

  advance-Follows : {k' : Kernel} → (e : Event k k') → Follows s (action e) k'
  advance-Follows
        (starts env eflags esp ebp command at c dentry entry text free eip cs eflags' esp' ss k' run
          small unused e) =
      go
        (execute-Entered env s k eflags esp ebp command at c dentry entry text free stands.tidy
          stands.here run small unused)
        e
    where
      go :
          {r : Option Launch}
          → Entered s k esp ebp (dentry_inode dentry) text c eflags entry r
          → r ≡ some (enters eip cs eflags' esp' ss k')
          → Follows s (enters_on k.active_task) k'
      go (entered p k₁ st) e' =
          subst (Follows s (enters_on k.active_task)) (ap (entered_kernel k) e')
            (start-Follows esp ebp (dentry_inode dentry) text c p k₁ st)
  advance-Follows (ends status esp ebp eax k' e) = ended-Follows status esp ebp eax k' e
  advance-Follows (switches esp ebp esp' ebp' eax k' e) =
      switched-Follows esp ebp esp' ebp' eax k' e
  advance-Follows (prints c) = printed-Follows (putc k c) (putc-Shown k c)

-- From a kernel that stands for some stacks of process numbers, one for each terminal, through any
-- sequence of programs being entered and ending with their parents resumed, timer interrupts that
-- resume a process, and printing: the stacks make one step for each event, in the same order. A start
-- pushes a number that stands nowhere on the stack of the terminal that has the processor, an end
-- takes the top off the stack of that terminal, where another number stands below it, and the other
-- events leave the stacks alone. The kernel at the end stands for the stacks at the end.
pub sequence-Steps :
    (s : ℕ → List ℕ) (k k' : Kernel)
    → StandsFor s k
    → (events : Events k k') → (s' : ℕ → List ℕ) × Steps s (actions events) s' × StandsFor s' k'
sequence-Steps s k k' stands no_event = (s, no_step, stands)
sequence-Steps s k k' stands (event e rest) =
    let first = advance-Follows s k stands e in
    let later = sequence-Steps first.0 _ k' first.2 rest in (later.0, step first.1 later.1, later.2)
