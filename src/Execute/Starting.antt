-- ===== src/Execute/Starting.antt =====
-- execute of student-distrib/syscalls.c on an executable file.
use boz_os.Execute.Loading.{IsProgram, load_lem, start_fds-flags, start_fds-fotp, start_fds-arg}
use boz_os.Prelude.{
  ℕ, ◌+◌, ◌<◌, ◌≤◌, ◌≡◌, ◌≢◌, refl, sym, ap, ◌∙◌, arith, bit_or, false, some, List, [], ◌∷◌, ◌++◌,
  ltb, ◌==◌, if◌then◌else◌, Buf, minus_one, Option,
}
use native.Mathlib.Decide.{ℕ_discrete}
use mathlib.Core.Path.{subst}
use boz_os.Clib.Strings.Duplicate.{padded}
use boz_os.Terminals.{kb_size}
use boz_os.State.{
  Kernel, Pcb, stdin_fotp, stdout_fotp, max_processes, max_files, term_3, update, update_own,
  update_other,
}
use boz_os.Filesystem.{inode_length, read_data, read_dentry_by_name, dentry_inode}
use boz_os.Filesystem.Blocks.{Holds}
use boz_os.Process.{get_pcb_base, get_pcb_tail, add_pcb}
use boz_os.Process.Chain.{get_pcb_base-injective}
use boz_os.Process.Invariant.{IsTidy, IsTidy-same, get_pcb_tail-last, tail_address}
use boz_os.Process.Removing.{last-append}
use boz_os.Process.Adding.{Added, refused, added, add_pcb-Added}
use boz_os.Files.{Env}
use boz_os.Scheduler.{user_directory, user_page_set_bits}
use boz_os.Execute.{
  Command, Launch, enters, user_prog_size, user_prog_offset, user_stack, user_cs, user_ds, int_flag,
  user_page, kernel_stack, parse_command, check_file, is_text_file, start_fds, start_process,
  map_user_page, load_program, launch, execute,
}

-- What execute finds out before it starts a program: the words of the command, the directory entry, the
-- entry point, and whether the argument names a text file.
pub record Runnable (env : Env) (k : Kernel) (command : Buf) (at : ℕ) (c : Command) (dentry : Buf)
    (entry text : ℕ) : Type 0 where
  pub parsed : parse_command env.temp command at ≡ some c
  pub found : read_dentry_by_name env.fuel k.fs c.cmd1 0 env.temp ≡ some (0, dentry)
  pub checked : check_file env.temp k.fs (dentry_inode dentry) ≡ some entry
  pub argument : is_text_file c.cmd2 ≡ some text
  pub program : IsProgram k.fs (dentry_inode dentry)

-- The process `p` runs on the terminal `t`, from the state `k`: it is the last of the terminal's list,
-- its page is mapped and holds the bytes of the file, none of memory's other bytes has changed, and
-- descriptors 0 and 1 alone are open, for the terminal.
pub record Started (chains : ℕ → List ℕ) (k : Kernel) (esp ebp inode text : ℕ) (c : Command) (p : ℕ)
    (k' : Kernel) : Type 0 where
  pub small : p < max_processes
  pub unused : k.process_usage p ≡ 0
  pub tidy : IsTidy (update chains k.active_task (chains k.active_task ++ (p ∷ []))) k'
  pub running : get_pcb_tail k' k.active_task ≡ some (get_pcb_base p)
  pub same_task : k'.active_task ≡ k.active_task
  pub pid : (k'.pcb (get_pcb_base p)).pid ≡ p
  pub back_esp : (k'.pcb (get_pcb_base p)).self_esp ≡ esp
  pub back_ebp : (k'.pcb (get_pcb_base p)).self_ebp ≡ ebp
  pub others :
      (q : ℕ)
      → q < max_processes
      → k.process_usage q ≢ 0
      → record (k.pcb (get_pcb_base q)) { child_pcb = (k'.pcb (get_pcb_base q)).child_pcb }
        ≡ k'.pcb (get_pcb_base q)
  pub page : k'.page_directory user_directory ≡ bit_or (user_page p) user_page_set_bits
  pub stack : k'.tss_esp0 ≡ kernel_stack p
  pub loaded :
      Holds k.fs inode 0
        (user_page p + user_prog_offset)
        (inode_length k.fs inode)
        k.memory
        k'.memory
  pub stdin : ((k'.pcb (get_pcb_base p)).fd_arr 0).fotp ≡ stdin_fotp
  pub stdout : ((k'.pcb (get_pcb_base p)).fd_arr 1).fotp ≡ stdout_fotp
  pub text_file : ((k'.pcb (get_pcb_base p)).fd_arr 1).text_file_flag ≡ text
  pub arg :
      (q : ℕ)
      → q < kb_size
      → c.arg_nbytes ≤ kb_size
      → ((k'.pcb (get_pcb_base p)).fd_arr 0).arg q
        ≡ (if ltb q c.arg_nbytes then padded c.cmd2 0 q else 0)
  pub flags :
      (fd : ℕ)
      → fd < max_files
      → ((k'.pcb (get_pcb_base p)).fd_arr fd).in_use_flag ≡ (if ltb fd 2 then 1 else 0)

module _ (chains : ℕ → List ℕ) (k : Kernel) (here : k.active_task ≤ term_3) (esp ebp inode text : ℕ)
    (c : Command) (program : IsProgram k.fs inode) (p : ℕ) (k₁ : Kernel) (small : p < max_processes)
    (unused : k.process_usage p ≡ 0)
    (frame : record k {
      process_usage = k₁.process_usage;
      terminal_table = k₁.terminal_table;
      pcb = k₁.pcb;
    }
      ≡ k₁)
    (only : (a : ℕ) → record (k.pcb a) { child_pcb = (k₁.pcb a).child_pcb } ≡ k₁.pcb a)
    (tidy : IsTidy (update chains k.active_task (chains k.active_task ++ (p ∷ []))) k₁) where
  abbrev data_buf : ℕ
  data_buf = user_page p + user_prog_offset

  abbrev memory : Buf
  memory = (read_data k₁.fs inode 0 k₁.memory data_buf user_prog_size).1

  abbrev loaded : Kernel
  loaded = record (map_user_page k₁ p) { memory = memory }

  abbrev started : Kernel
  started = start_process loaded p esp ebp c text

  same_fs : k₁.fs ≡ k.fs
  same_fs = ap (λ (k : Kernel). k.fs) (sym frame)

  same_task : k₁.active_task ≡ k.active_task
  same_task = ap (λ (k : Kernel). k.active_task) (sym frame)

  whole :
      ((read_data k₁.fs inode 0 k₁.memory data_buf user_prog_size).0 ≢ minus_one)
      × Holds k.fs inode 0 data_buf (inode_length k.fs inode) k.memory memory
  whole =
      subst
        (λ (k' : Kernel).
          let (status, memory') = read_data k'.fs inode 0 k'.memory data_buf user_prog_size in
          (status ≢ minus_one)
          × Holds k.fs inode 0 data_buf (inode_length k.fs inode) k.memory memory')
        frame (load_lem k.fs inode k.memory data_buf program (omega arith))

  load_program_run :
      (eflags entry : ℕ)
      → is_text_file c.cmd2 ≡ some text
      → load_program k₁ p eflags esp ebp inode entry c
        ≡ some (enters entry user_cs (bit_or eflags int_flag) user_stack user_ds started)
  unfolding load_program
  load_program_run eflags entry argument =
      let miss : ((read_data k₁.fs inode 0 k₁.memory data_buf user_prog_size).0 == minus_one)
          ≡ false =
        ground (arith, whole.0) in
      rw (miss, argument) refl

  abbrev lists : ℕ → List ℕ
  lists = update chains k.active_task (chains k.active_task ++ (p ∷ []))

  -- What start_process makes of the structure.
  abbrev own : Pcb
  own = record (k₁.pcb (get_pcb_base p)) {
    status = 1;
    pid = p;
    self_k_stack = kernel_stack p;
    self_page = user_page p;
    fd_arr = start_fds (k₁.pcb (get_pcb_base p)).fd_arr c text;
    self_esp = esp;
    self_ebp = ebp;
    esp_switch = esp;
    ebp_switch = ebp;
  }

  own_pcb : started.pcb (get_pcb_base p) ≡ own
  unfolding start_process map_user_page
  own_pcb = update_own k₁.pcb (get_pcb_base p) own

  other_pcb : (a : ℕ) → a ≢ get_pcb_base p → started.pcb a ≡ k₁.pcb a
  unfolding start_process map_user_page
  other_pcb a ne = update_other k₁.pcb (get_pcb_base p) own a ne

  children : (a : ℕ) → (started.pcb a).child_pcb ≡ (k₁.pcb a).child_pcb
  children a = elim (ℕ_discrete a (get_pcb_base p)) [
    | yes e ↦
        ap (λ a. (started.pcb a).child_pcb) e
        ∙ ap (λ (s : Pcb). s.child_pcb) own_pcb
        ∙ ap (λ a. (k₁.pcb a).child_pcb) (sym e)
    | no ne ↦ ap (λ (s : Pcb). s.child_pcb) (other_pcb a ne)
  ]

  others :
      (q : ℕ)
      → q < max_processes
      → k.process_usage q ≢ 0
      → record (k.pcb (get_pcb_base q)) { child_pcb = (started.pcb (get_pcb_base q)).child_pcb }
        ≡ started.pcb (get_pcb_base q)
  others q l used =
      let a = get_pcb_base q in
      let ne : a ≢ get_pcb_base p =
        λ e. used (ap k.process_usage (get_pcb_base-injective q p l e) ∙ unused) in
      ap (λ b. record (k.pcb a) { child_pcb = b }) (children a) ∙ only a ∙ sym (other_pcb a ne)

  started-IsTidy : IsTidy lists started
  unfolding start_process map_user_page
  started-IsTidy = IsTidy-same lists k₁ started (λ t. refl) children (λ r. refl) tidy

  tail_of : (ps : List ℕ) → tail_address (ps ++ (p ∷ [])) ≡ get_pcb_base p
  tail_of [] = refl
  tail_of (q ∷ qs) = ap get_pcb_base (last-append q qs p)

  started-Started : Started chains k esp ebp inode text c p started
  unfolding start_process map_user_page
  started-Started =
      let fds = start_fds-fotp (k₁.pcb (get_pcb_base p)).fd_arr c text in
      record {
        small = small;
        unused = unused;
        tidy = started-IsTidy;
        running =
            get_pcb_tail-last lists started started-IsTidy k.active_task here
            ∙ ap (λ ps. some (tail_address ps))
                (update_own chains k.active_task (chains k.active_task ++ (p ∷ [])))
            ∙ ap some (tail_of (chains k.active_task));
        same_task = same_task;
        pid = ap (λ (s : Pcb). s.pid) own_pcb;
        back_esp = ap (λ (s : Pcb). s.self_esp) own_pcb;
        back_ebp = ap (λ (s : Pcb). s.self_ebp) own_pcb;
        others = others;
        page = update_own k₁.page_directory user_directory _;
        stack = refl;
        loaded = whole.1;
        stdin = ap (λ (s : Pcb). (s.fd_arr 0).fotp) own_pcb ∙ fds.0;
        stdout = ap (λ (s : Pcb). (s.fd_arr 1).fotp) own_pcb ∙ fds.1;
        text_file = ap (λ (s : Pcb). (s.fd_arr 1).text_file_flag) own_pcb ∙ fds.2;
        arg = λ q h fits.
            ap (λ (s : Pcb). (s.fd_arr 0).arg q) own_pcb
            ∙ start_fds-arg (k₁.pcb (get_pcb_base p)).fd_arr c text q h fits;
        flags = λ fd h.
            ap (λ (s : Pcb). (s.fd_arr fd).in_use_flag) own_pcb
            ∙ start_fds-flags (k₁.pcb (get_pcb_base p)).fd_arr c text fd h;
      }

number : (p : ℕ) → p < max_processes → (p == minus_one) ≡ false
number p h = ground arith

-- The words before the IRET, and the process that it starts.
pub data Entered (chains : ℕ → List ℕ) (k : Kernel) (esp ebp inode text : ℕ) (c : Command)
    (eflags entry : ℕ) : Option Launch → Type 0 where
  entered :
      (p : ℕ) (k' : Kernel)
      → Started chains k esp ebp inode text c p k'
      → Entered chains k esp ebp inode text c eflags entry
          (some (enters entry user_cs (bit_or eflags int_flag) user_stack user_ds k'))

-- execute of a command that names an executable file, when the file fits into a user page and
-- stands on blocks of the disk, a process number is free, and the lists are apart and in step with
-- process_usage: the processor leaves for the entry point of the file in user mode, with
-- interrupts on and the stack at the end of the user page, and a process that was not in use runs
-- on the terminal: it is the last of the terminal's list, and the lists are still apart and in
-- step; its page is mapped and holds the file's bytes from the load address on, while no other
-- byte of memory has changed; its descriptors 0 and 1 alone are open, for the terminal; it keeps
-- the stack registers of the caller and the argument; and the processes in use keep their
-- structures, but for the link to the new one.
pub execute-Entered :
    (env : Env) (chains : ℕ → List ℕ) (k : Kernel) (eflags esp ebp : ℕ) (command : Buf) (at : ℕ)
    (c : Command) (dentry : Buf) (entry text free : ℕ)
    → IsTidy chains k
    → k.active_task ≤ term_3
    → Runnable env k command at c dentry entry text
    → free < max_processes
    → k.process_usage free ≡ 0
    → Entered chains k esp ebp
        (dentry_inode dentry)
        text
        c
        eflags
        entry
        (execute env k eflags esp ebp command at)
unfolding execute launch
execute-Entered env chains k eflags esp ebp command at c dentry entry text free tidy here run small
      unused =
    go (add_pcb-Added chains k k.active_task tidy here) refl
  where
    go :
        {r : Option (ℕ × Kernel)}
        → Added chains k k.active_task r
        → add_pcb k k.active_task ≡ r
        → Entered chains k esp ebp
            (dentry_inode dentry)
            text
            c
            eflags
            entry
            (execute env k eflags esp ebp command at)
    go (refused all) e = absurd (omega (arith, all free small, unused))
    go (added p k₁ l u frame only tidy₁) e =
        let ok : (p == minus_one) ≡ false = number p l in
        let loads =
          load_program_run chains k here esp ebp (dentry_inode dentry) text c run.program p k₁ l u
            frame only tidy₁ eflags entry run.argument in
        rw (run.parsed, run.found, run.checked, e, ok, loads)
          (entered p _ (
            started-Started chains k here esp ebp (dentry_inode dentry) text c run.program p k₁ l u
              frame only tidy₁))
