-- ===== src/Exceptions/Ending.antt =====
-- An exception in a process that has a parent, student-distrib/IDT.c with halt of syscalls.c.
use boz_os.Prelude.{
  get_or, ◌&&◌, ltb, ℕ, zero, suc, ◌^◌, ◌<◌, ◌≤◌, ◌≡◌, refl, arith, Bool, true, some, Option, List,
  [], ◌∷◌, ◌++◌, length, Buf, String, literal, codes,
}
use mathlib.Core.Path.{subst}
use boz_os.State.{Kernel, Term, term_3, update}
use boz_os.Screen.Frame.{Shown, Shown-trans}
use boz_os.Printf.Messages.{plain_text, literal-IsPlain, literal-end, printf-text, printf-hex}
use boz_os.Process.{get_pcb_base}
use boz_os.Process.Chain.{last}
use boz_os.Process.Invariant.{IsTidy, IsTidy-same}
use boz_os.Files.{Env}
use boz_os.Scheduler.{Next, resumes, halt}
use boz_os.Scheduler.Halting.{Halted, halt-Halted}
use boz_os.Exceptions.{
  handle_exceptions_arr, handle_e0, handle_e1, handle_e2, handle_e3, handle_e4, handle_e5,
  handle_e6, handle_e7, handle_e8, handle_e9, handle_e10, handle_e11, handle_e12, handle_e13,
  handle_e15, handle_e16, handle_e17, handle_e18, handle_e19, handle_default, print_and_halt,
  print_code_and_halt, print_error_code, handle_e14, handle_exception,
}

-- A property of every entry of the array.
data Each (P : Option Next → Type 0) : List (Option Next) → Type 0 where
  none_left : Each P []
  next : {x : Option Next} {xs : List (Option Next)} → P x → Each P xs → Each P (x ∷ xs)

Each-get :
    (P : Option Next → Type 0) (d : Option Next)
    → P d
    → {xs : List (Option Next)} → Each P xs
    → (i : ℕ) → P (get_or xs i d)
Each-get P d h none_left i = h
Each-get P d h (next e rest) zero = e
Each-get P d h (next e rest) (suc i) = Each-get P d h rest i

-- What printing leaves of a kernel.
abbrev printed : Kernel → (ℕ → Term) → Buf → List (ℕ × ℕ) → Kernel
printed k terms vram ports = record k { terminal_table = terms; vram = vram; ports = ports }

-- Plain text of less than 64 bytes.
abbrev is_message : String → Bool
is_message s = plain_text (length (codes s)) (codes s) && ltb (length (codes s)) 64

message_fits :
    (s : String)
    → is_message s ≡ true
    → (plain_text (length (codes s)) (codes s) ≡ true) × (length (codes s) < 64)
message_fits s h = ground (arith, h)

module _ (env : Env) (enough : 64 < env.fuel) (chains : ℕ → List ℕ) (k : Kernel)
    (tidy : IsTidy chains k) (here : k.active_task ≤ term_3) (q : ℕ) (qs : List ℕ) (p : ℕ)
    (listed : chains k.active_task ≡ (q ∷ qs) ++ (p ∷ []))
    (own : (k.pcb (get_pcb_base p)).pid ≡ p) where
  -- The process has ended, and its parent's execute returns 256.
  abbrev pub Ended : Option Next → Type 0
  Ended r =
      (k' : Kernel) × (r
        ≡ some (resumes (k.pcb (get_pcb_base p)).self_esp (k.pcb (get_pcb_base p)).self_ebp 256 k'))
      × Halted (update chains k.active_task (q ∷ qs)) k (last q qs) p k'

  halt-Ended :
      (terms : ℕ → Term) (vram : Buf) (ports : List (ℕ × ℕ))
      → ((t : ℕ) → (terms t).pcb_head ≡ (k.terminal_table t).pcb_head)
      → Ended (halt (printed k terms vram ports) 255)
  halt-Ended terms vram ports heads =
      let k₁ = printed k terms vram ports in
      let tidy₁ = IsTidy-same chains k k₁ heads (λ a. refl) (λ r. refl) tidy in
      let ended = halt-Halted chains k₁ tidy₁ here q qs p listed own 255 in
      (
        ended.0,
        ended.1,
        record {
          tidy = ended.2.tidy;
          usage = ended.2.usage;
          same_task = ended.2.same_task;
          numbers = ended.2.numbers;
          page = ended.2.page;
          stack = ended.2.stack;
          closed = ended.2.closed;
          running = ended.2.running;
        },
      )

  after_print-Ended : (k₁ : Kernel) → Shown k k₁ → Ended (halt k₁ 255)
  after_print-Ended k₁ s =
      subst (λ (k₁ : Kernel). Ended (halt k₁ 255)) s.frame
        (halt-Ended k₁.terminal_table k₁.vram k₁.ports s.heads)

  print_and_halt-Ended :
      (message : String) → is_message message ≡ true → Ended (print_and_halt env k message)
  unfolding print_and_halt
  print_and_halt-Ended message ok =
      let (k₁, run, shown) =
        printf-text env.temp env.fuel k (literal message) [] (length (codes message))
          (literal-IsPlain message (length (codes message)) (message_fits message ok).0)
          (literal-end message) (omega (arith, enough, (message_fits message ok).1)) in
      rw run (after_print-Ended k₁ shown)

  error_code-Shown :
      (k₁ : Kernel) (code : ℕ)
      → code < 2 ^ 32
      → (k₂ : Kernel) × (print_error_code env k₁ code ≡ some k₂) × Shown k₁ k₂
  unfolding print_error_code literal
  error_code-Shown k₁ code small =
      let (k₂, run, shown) =
        printf-hex env.temp env.fuel k₁ (literal "Error code (hex): %x\n") code 18
          (literal-IsPlain "Error code (hex): %x\n" 18 refl) refl refl refl refl
          (omega (arith, enough)) small in
      (k₂, rw run refl, shown)

  print_code_and_halt-Ended :
      (message : String) (code : ℕ)
      → is_message message ≡ true
      → code < 2 ^ 32
      → Ended (print_code_and_halt env k message code)
  unfolding print_code_and_halt
  print_code_and_halt-Ended message code ok small =
      let (k₁, run, shown) =
        printf-text env.temp env.fuel k (literal message) [] (length (codes message))
          (literal-IsPlain message (length (codes message)) (message_fits message ok).0)
          (literal-end message) (omega (arith, enough, (message_fits message ok).1)) in
      let (k₂, run', shown') = error_code-Shown k₁ code small in
      rw (run, run') (after_print-Ended k₂ (Shown-trans k k₁ k₂ shown shown'))

  page_fault-Ended :
      (addr code : ℕ) → addr < 2 ^ 32 → code < 2 ^ 32 → Ended (handle_e14 env k addr code)
  unfolding handle_e14 literal
  page_fault-Ended addr code small small' =
      let message : String = "Interrupt 14 - Page-Fault Exception (#PF) at address 0x%x\n" in
      let (k₁, run, shown) =
        printf-hex env.temp env.fuel k (literal message) addr 55 (literal-IsPlain message 55 refl)
          refl refl refl refl (omega (arith, enough)) small in
      let (k₂, run', shown') = error_code-Shown k₁ code small' in
      rw (run, run') (after_print-Ended k₂ (Shown-trans k k₁ k₂ shown shown'))

  -- Any of the first 32 exceptions in a process that has a parent on its terminal, while the
  -- process lists are apart and in step with process_usage, the structure has its process's
  -- number, and more than 64 bytes of fuel are there for the texts: the handler ends the process.
  -- The execute that started it returns 256 with its stack registers, the process's number is
  -- free, its descriptors are closed, the lists are still apart and in step, and the parent runs,
  -- on its page and its kernel stack.
  pub handle_exception-Ended :
      (i addr code : ℕ) → addr < 2 ^ 32 → code < 2 ^ 32 → Ended (handle_exception i env k addr code)
  unfolding handle_exception handle_exceptions_arr handle_e0 handle_e1 handle_e2 handle_e3 handle_e4
      handle_e5 handle_e6 handle_e7 handle_e8 handle_e9 handle_e10 handle_e11 handle_e12 handle_e13
      handle_e15 handle_e16 handle_e17 handle_e18 handle_e19 handle_default
  handle_exception-Ended i addr code small small' =
      let every : Each Ended (handle_exceptions_arr env k addr code) =
        next (print_and_halt-Ended _ refl) (
          next (print_and_halt-Ended _ refl) (
            next (print_and_halt-Ended _ refl) (
              next (print_and_halt-Ended _ refl) (
                next (print_and_halt-Ended _ refl) (
                  next (print_and_halt-Ended _ refl) (
                    next (print_and_halt-Ended _ refl) (
                      next (print_and_halt-Ended _ refl) (
                        next (print_code_and_halt-Ended _ code refl small') (
                          next (print_and_halt-Ended _ refl) (
                            next (print_and_halt-Ended _ refl) (
                              next (print_code_and_halt-Ended _ code refl small') (
                                next (print_code_and_halt-Ended _ code refl small') (
                                  next (print_code_and_halt-Ended _ code refl small') (
                                    next (page_fault-Ended addr code small small') (
                                      next (print_and_halt-Ended _ refl) (
                                        next (print_and_halt-Ended _ refl) (
                                          next (print_code_and_halt-Ended _ code refl small') (
                                            next (print_and_halt-Ended _ refl) (
                                              next (print_and_halt-Ended _ refl)
                                                (none_left)))))))))))))))))))) in
      let default : Ended (handle_default env k) = print_and_halt-Ended _ refl in
      Each-get Ended (handle_default env k) default every i
