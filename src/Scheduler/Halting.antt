-- ===== src/Scheduler/Halting.antt =====
-- halt of student-distrib/syscalls.c for a process that has a parent.
use boz_os.Prelude.{
  if_false, ltb, false, ℕ, zero, suc, ◌+◌, ◌<◌, ◌≤◌, ◌≡◌, ◌≢◌, refl, sym, ap, ◌∙◌, arith, bit_or,
  some, List, [], ◌∷◌, ◌++◌, length, ◌==◌, if◌then◌else◌, ◌%◌,
}
use native.Mathlib.Decide.{ℕ_discrete}
use mathlib.Core.Path.{subst}
use boz_os.State.{
  update_field, Kernel, Pcb, Fd, max_processes, max_files, term_3, update, update_own, update_other,
}
use boz_os.Process.{get_pcb_base, get_pcb_tail, set_child, unset_process_usage}
use boz_os.Process.Chain.{Chain, count, last, get_pcb_base-injective}
use boz_os.Process.Invariant.{IsTidy, IsTidy-same, length-le, get_pcb_tail-last, tail_address}
use boz_os.Process.Removing.{
  removed, shrunk, removed-IsTidy, removed-lt, counts, apart, last-append,
}
use boz_os.Scheduler.{
  resumes, user_directory, user_page_set_bits, load_space, find_parent, close_all, halt_child, halt,
}

find_parent-last :
    (fuel : ℕ) (pcb : ℕ → Pcb) (p : ℕ) (ps : List ℕ) (self : ℕ)
    → Chain pcb (pcb (get_pcb_base p)).child_pcb (ps ++ (self ∷ []))
    → count self ps ≡ 0
    → self < max_processes
    → length ps < fuel
    → find_parent fuel pcb (get_pcb_base p) (get_pcb_base self) ≡ some (get_pcb_base (last p ps))
unfolding find_parent
find_parent-last zero pcb p ps self c absent small f = absurd (omega arith)
find_parent-last (suc fuel) pcb p [] self c absent small f = ground (arith, c.1)
find_parent-last (suc fuel) pcb p (q ∷ qs) self c absent small f =
    let ne : self ≢ q = ground (arith, absent) in
    let ne' : get_pcb_base q ≢ get_pcb_base self =
      λ e. ne (get_pcb_base-injective self q small (sym e)) in
    ground
      (arith, c.1, ne', find_parent-last fuel pcb q qs self c.2 (ground arith) small (omega arith))

length-snoc : (ps : List ℕ) (p : ℕ) → length (ps ++ (p ∷ [])) ≡ length ps + 1
length-snoc [] p = refl
length-snoc (q ∷ qs) p = omega (arith, length-snoc qs p)

close_all-closed :
    (fd_arr : ℕ → Fd) (fd : ℕ) → fd < max_files → (close_all fd_arr fd).in_use_flag ≢ 1
unfolding close_all
close_all-closed fd_arr fd h e = elim (ℕ_discrete (fd_arr fd).in_use_flag 1) [
  | yes in_use ↦ ground (arith, h, in_use, e)
  | no closed ↦ ground (arith, h, closed, e)
]

-- The status that the parent's execute returns: the low byte of what was passed, and 256 for 255.
abbrev pub returned : ℕ → ℕ
returned ebx = if ebx % 256 == 255 then 256 else ebx % 256

-- The lists without the process that ended, whose descriptors are closed; its parent's page is
-- mapped, and its parent's kernel stack is the one for the next system call.
pub record Halted (chains : ℕ → List ℕ) (k : Kernel) (parent self : ℕ) (k' : Kernel) : Type 0 where
  pub tidy : IsTidy chains k'
  pub usage : (p : ℕ) → k'.process_usage p ≡ update k.process_usage self 0 p
  pub same_task : k'.active_task ≡ k.active_task
  pub numbers : (a : ℕ) → (k'.pcb a).pid ≡ (k.pcb a).pid
  pub page :
      k'.page_directory user_directory
      ≡ bit_or (k.pcb (get_pcb_base parent)).self_page user_page_set_bits
  pub stack : k'.tss_esp0 ≡ (k.pcb (get_pcb_base parent)).self_k_stack
  pub closed : (fd : ℕ) → fd < max_files → ((k'.pcb (get_pcb_base self)).fd_arr fd).in_use_flag ≢ 1
  pub running : get_pcb_tail k' k.active_task ≡ some (get_pcb_base parent)

module _ (chains : ℕ → List ℕ) (k : Kernel) (tidy : IsTidy chains k) (here : k.active_task ≤ term_3)
    (q : ℕ) (qs : List ℕ) (p : ℕ) (listed : chains k.active_task ≡ (q ∷ qs) ++ (p ∷ []))
    (own : (k.pcb (get_pcb_base p)).pid ≡ p) where
  abbrev without : Kernel
  without = removed chains k tidy k.active_task here q qs p listed

  abbrev lists : ℕ → List ℕ
  lists = shrunk chains k tidy k.active_task here q qs p listed

  abbrev after : Kernel
  after =
      let pcb = without.pcb in
      let self = get_pcb_base p in
      let closed = record (pcb self) { fd_arr = close_all (pcb self).fd_arr } in
      load_space (record without { pcb = update pcb self closed }) (pcb (get_pcb_base (last q qs)))

  small : p < max_processes
  small = removed-lt chains k tidy k.active_task here q qs p listed

  self_apart : get_pcb_base p ≢ get_pcb_base (last q qs)
  self_apart e =
      apart chains k tidy k.active_task here q qs p listed
        (get_pcb_base-injective p (last q qs) small e)

  self_kept : (without.pcb (get_pcb_base p)) ≡ k.pcb (get_pcb_base p)
  unfolding set_child
  self_kept = update_other k.pcb (get_pcb_base (last q qs)) _ (get_pcb_base p) self_apart

  head : (k.terminal_table k.active_task).pcb_head ≡ get_pcb_base q
  head =
      (subst (Chain k.pcb (k.terminal_table k.active_task).pcb_head) listed
        (tidy.chain k.active_task here)).1

  tail : get_pcb_tail k k.active_task ≡ some (get_pcb_base p)
  tail =
      get_pcb_tail-last chains k tidy k.active_task here
      ∙ ap (λ ps. some (tail_address ps)) listed
      ∙ ap (λ n. some (get_pcb_base n)) (last-append q qs p)

  absent : count p (q ∷ qs) ≡ 0
  absent = ground (arith, counts chains k tidy k.active_task here q qs p listed p small)

  short : length qs < max_processes
  short =
      omega (arith, length-le chains k tidy k.active_task here, ap length listed, length-snoc qs p)

  found :
      find_parent max_processes k.pcb (get_pcb_base q) (get_pcb_base p)
      ≡ some (get_pcb_base (last q qs))
  found =
      find_parent-last max_processes k.pcb q qs p
        (subst (Chain k.pcb (k.terminal_table k.active_task).pcb_head) listed
          (tidy.chain k.active_task here)).2
        (ground (arith, absent)) small short

  halt_child_run :
      (status : ℕ)
      → halt_child
          (record k { process_usage = update k.process_usage p 0 })
          (get_pcb_base q)
          (get_pcb_base p)
          status
        ≡ some (
            resumes
              (without.pcb (get_pcb_base p)).self_esp
              (without.pcb (get_pcb_base p)).self_ebp
              status
              after)
  unfolding halt_child
  halt_child_run status = rw found refl

  unset : unset_process_usage k p ≡ record k { process_usage = update k.process_usage p 0 }
  unfolding unset_process_usage
  unset = if_false _ _ (let l : ltb max_processes p ≡ false = ground (arith, small) in l)

  halt_run :
      (status : ℕ)
      → halt k status
        ≡ halt_child
            (record k { process_usage = update k.process_usage p 0 })
            (get_pcb_base q)
            (get_pcb_base p)
            (returned status)
  unfolding halt
  halt_run status =
      let other : (get_pcb_base q == get_pcb_base p) ≡ false =
        let ne : p ≢ q = ground (arith, absent) in
        let ne' : get_pcb_base q ≢ get_pcb_base p =
          λ e. ne (get_pcb_base-injective p q small (sym e)) in
        ground (arith, ne') in
      rw (tail, head, own, unset, other) refl

  after-Halted : Halted lists k (last q qs) p after
  unfolding load_space close_all set_child
  after-Halted = record {
    tidy = tidy';
    usage = λ r. refl;
    same_task = refl;
    numbers = numbers;
    page =
        update_own k.page_directory user_directory _
        ∙ ap (λ (s : Pcb). bit_or s.self_page user_page_set_bits)
            (update_own k.pcb (get_pcb_base (last q qs)) _);
    stack = ap (λ (s : Pcb). s.self_k_stack) (update_own k.pcb (get_pcb_base (last q qs)) _);
    closed = closed;
    running = running;
  }
    where
      children : (a : ℕ) → (after.pcb a).child_pcb ≡ (without.pcb a).child_pcb
      children a = elim (ℕ_discrete a (get_pcb_base p)) [
        | yes e ↦
            ap (λ (s : Pcb). s.child_pcb)
              (ap after.pcb e ∙ update_own without.pcb (get_pcb_base p) _)
            ∙ ap (λ a. (without.pcb a).child_pcb) (sym e)
        | no ne ↦ ap (λ (s : Pcb). s.child_pcb) (update_other without.pcb (get_pcb_base p) _ a ne)
      ]

      tidy' : IsTidy lists after
      tidy' =
          IsTidy-same lists without after (λ t. refl) children (λ r. refl)
            (removed-IsTidy chains k tidy k.active_task here q qs p listed)

      numbers : (a : ℕ) → (after.pcb a).pid ≡ (k.pcb a).pid
      numbers a =
          update_field (λ (s : Pcb). s.pid) without.pcb (get_pcb_base p) _ a refl
          ∙ update_field (λ (s : Pcb). s.pid) k.pcb (get_pcb_base (last q qs)) _ a refl

      closed : (fd : ℕ) → fd < max_files → ((after.pcb (get_pcb_base p)).fd_arr fd).in_use_flag ≢ 1
      closed fd h e = close_all-closed (without.pcb (get_pcb_base p)).fd_arr fd h (
          ap (λ (s : Pcb). (s.fd_arr fd).in_use_flag)
            (sym (update_own without.pcb (get_pcb_base p) _))
          ∙ e)

      running : get_pcb_tail after k.active_task ≡ some (get_pcb_base (last q qs))
      running =
          get_pcb_tail-last lists after tidy' k.active_task here
          ∙ ap (λ ps. some (tail_address ps)) (update_own chains k.active_task (q ∷ qs))

  -- halt in a process that has a parent on its terminal, while the process lists are apart and in step
  -- with process_usage and the structure has its process's number: the processor goes back into the
  -- execute that started the process, with the stack registers that it left there and the status,
  -- the low byte of what was passed, where 255 becomes 256. The process is gone from the list and its number is free, its descriptors
  -- are closed, the lists are still apart and in step, the parent is the process that runs, and the
  -- page and the kernel stack are the parent's.
  pub halt-Halted :
      (status : ℕ)
      → (k' : Kernel) × (halt k status
          ≡ some (
              resumes
                (k.pcb (get_pcb_base p)).self_esp
                (k.pcb (get_pcb_base p)).self_ebp
                (returned status)
                k'))
        × Halted (update chains k.active_task (q ∷ qs)) k (last q qs) p k'
  halt-Halted status = (
    after,
    halt_run status
        ∙ halt_child_run (returned status)
        ∙ ap (λ (s : Pcb). some (resumes s.self_esp s.self_ebp (returned status) after)) self_kept,
    after-Halted,
  )
