-- ===== src/Exceptions.antt =====
-- The handlers of the exceptions in student-distrib/IDT.c. Each prints a message and ends the process.
-- What register CR2 reads is an argument.
pub mod Ending
use boz_os.Prelude.{
  get_or, ◌==◌, if◌then◌else◌, ℕ, zero, suc, Option, none, some, ◌>>=◌, List, [], ◌∷◌, Buf, String,
  literal,
}
use boz_os.State.{Kernel}
use boz_os.Files.{Env}
use boz_os.Printf.{Arg, word, printf}
use boz_os.Scheduler.{Next, halt}

abbrev pub prog_died_by_exception : ℕ
prog_died_by_exception = 255

-- The two calls that every handler makes.
unfoldable pub print_and_halt : Env → Kernel → String → Option Next
print_and_halt env k message = do
  (_, k') ← printf env.temp env.fuel k (literal message) []
  halt k' prog_died_by_exception

unfoldable pub print_error_code : Env → Kernel → ℕ → Option Kernel
print_error_code env k code = do
  (_, k') ← printf env.temp env.fuel k (literal "Error code (hex): %x\n") (word code ∷ [])
  some k'

-- The three calls of a handler that is given an error code.
unfoldable pub print_code_and_halt : Env → Kernel → String → ℕ → Option Next
unfolding print_error_code
print_code_and_halt env k message error_code = do
  (_, k') ← printf env.temp env.fuel k (literal message) []
  k'' ← print_error_code env k' error_code
  halt k'' prog_died_by_exception

unfoldable pub handle_e0 : Env → Kernel → Option Next
unfolding print_and_halt
handle_e0 env k = print_and_halt env k "Interrupt 0 - Divide Error Exception (#DE) \n"

unfoldable pub handle_e1 : Env → Kernel → Option Next
unfolding print_and_halt
handle_e1 env k = print_and_halt env k "Interrupt 1 - Debug Exception (#DB) \n"

unfoldable pub handle_e2 : Env → Kernel → Option Next
unfolding print_and_halt
handle_e2 env k = print_and_halt env k "Interrupt 2 - NMI Interrupt\n"

unfoldable pub handle_e3 : Env → Kernel → Option Next
unfolding print_and_halt
handle_e3 env k = print_and_halt env k "Interrupt 3 - Breakpoint Exception (#BP)\n"

unfoldable pub handle_e4 : Env → Kernel → Option Next
unfolding print_and_halt
handle_e4 env k = print_and_halt env k "Interrupt 4 - Overflow Exception (#OF)\n"

unfoldable pub handle_e5 : Env → Kernel → Option Next
unfolding print_and_halt
handle_e5 env k = print_and_halt env k "Interrupt 5 - BOUND Range Exceeded Exception (#BR)\n"

unfoldable pub handle_e6 : Env → Kernel → Option Next
unfolding print_and_halt
handle_e6 env k = print_and_halt env k "Interrupt 6 - Invalid Opcode Exception (#UD)\n"

unfoldable pub handle_e7 : Env → Kernel → Option Next
unfolding print_and_halt
handle_e7 env k = print_and_halt env k "Interrupt 7 - Device Not Available Exception (#NM)\n"

unfoldable pub handle_e8 : Env → Kernel → ℕ → Option Next
unfolding print_code_and_halt
handle_e8 env k error_code =
    print_code_and_halt env k "Interrupt 8 - Double Fault Exception (#DF)\n" error_code

unfoldable pub handle_e9 : Env → Kernel → Option Next
unfolding print_and_halt
handle_e9 env k = print_and_halt env k "Interrupt 9 - Coprocessor Segment Overrun\n"

unfoldable pub handle_e10 : Env → Kernel → Option Next
unfolding print_and_halt
handle_e10 env k = print_and_halt env k "Interrupt 10 - Invalid TSS Exception (#TS)\n"

unfoldable pub handle_e11 : Env → Kernel → ℕ → Option Next
unfolding print_code_and_halt
handle_e11 env k error_code =
    print_code_and_halt env k "Interrupt 11 - Segment Not Present (#NP)\n" error_code

unfoldable pub handle_e12 : Env → Kernel → ℕ → Option Next
unfolding print_code_and_halt
handle_e12 env k error_code =
    print_code_and_halt env k "Interrupt 12 - Stack Fault Exception (#SS)\n" error_code

unfoldable pub handle_e13 : Env → Kernel → ℕ → Option Next
unfolding print_code_and_halt
handle_e13 env k error_code =
    print_code_and_halt env k "Interrupt 13 - General Protection Exception (#GP)\n" error_code

unfoldable pub handle_e14 : Env → Kernel → ℕ → ℕ → Option Next
unfolding print_error_code
handle_e14 env k addr error_code = do
  (_, k') ←
      printf env.temp env.fuel k
        (literal "Interrupt 14 - Page-Fault Exception (#PF) at address 0x%x\n") (word addr ∷ [])
  k'' ← print_error_code env k' error_code
  halt k'' prog_died_by_exception

unfoldable pub handle_e15 : Env → Kernel → Option Next
unfolding print_and_halt
handle_e15 env k = print_and_halt env k "Interrupt 15 - Reserved\n"

unfoldable pub handle_e16 : Env → Kernel → Option Next
unfolding print_and_halt
handle_e16 env k = print_and_halt env k "Interrupt 16 - x87 FPU Floating-Point Error (#MF)\n"

unfoldable pub handle_e17 : Env → Kernel → ℕ → Option Next
unfolding print_code_and_halt
handle_e17 env k error_code =
    print_code_and_halt env k "Interrupt 17 - Alignment Check Exception (#AC)\n" error_code

unfoldable pub handle_e18 : Env → Kernel → Option Next
unfolding print_and_halt
handle_e18 env k = print_and_halt env k "Interrupt 18 - Machine-Check Exception (#MC)\n"

unfoldable pub handle_e19 : Env → Kernel → Option Next
unfolding print_and_halt
handle_e19 env k = print_and_halt env k "Interrupt 19 - SIMD Floating-Point Exception (#XF)\n"

unfoldable pub handle_default : Env → Kernel → Option Next
unfolding print_and_halt
handle_default env k =
    print_and_halt env k "Default interrupt handler called. Nothing specified here.\n"

-- What each entry of the array runs, with the error code that the processor pushes for some of them.
unfoldable pub handle_exceptions_arr : Env → Kernel → ℕ → ℕ → List (Option Next)
handle_exceptions_arr env k addr error_code =
    handle_e0 env k
    ∷ handle_e1 env k
    ∷ handle_e2 env k
    ∷ handle_e3 env k
    ∷ handle_e4 env k
    ∷ handle_e5 env k
    ∷ handle_e6 env k
    ∷ handle_e7 env k
    ∷ handle_e8 env k error_code
    ∷ handle_e9 env k
    ∷ handle_e10 env k
    ∷ handle_e11 env k error_code
    ∷ handle_e12 env k error_code
    ∷ handle_e13 env k error_code
    ∷ handle_e14 env k addr error_code
    ∷ handle_e15 env k
    ∷ handle_e16 env k
    ∷ handle_e17 env k error_code
    ∷ handle_e18 env k
    ∷ handle_e19 env k
    ∷ []

-- The handler that the gate of a vector below 32 leads to.
unfoldable pub handle_exception : ℕ → Env → Kernel → ℕ → ℕ → Option Next
unfolding handle_exceptions_arr
handle_exception i env k addr error_code =
    get_or (handle_exceptions_arr env k addr error_code) i (handle_default env k)
