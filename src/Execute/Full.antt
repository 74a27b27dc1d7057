-- ===== src/Execute/Full.antt =====
-- execute of student-distrib/syscalls.c when all process numbers are in use.
use boz_os.Printf.Messages.{printf-prints, literal-IsPlain, literal-end}
use boz_os.Screen.Stream.{putc_stream}
use boz_os.Prelude.{
  ==_of_ne, ℕ, ◌<◌, ◌≡◌, ◌≢◌, refl, arith, [], ◌==◌, some, Buf, minus_one, String, literal,
}
use boz_os.State.{Kernel, max_processes}
use boz_os.Process.{add_pcb}
use boz_os.Process.Searching.{Searched, free_at, all_used, first_free-Searched}
use boz_os.Filesystem.{read_dentry_by_name, dentry_inode}
use boz_os.Files.{Env}
use boz_os.Execute.{false, Command, answers, parse_command, check_file, launch, execute}

-- No number is found.
none_free :
    (usage : ℕ → ℕ) {r : ℕ}
    → ((p : ℕ) → p < max_processes → usage p ≢ 0)
    → Searched usage 0 max_processes r
    → r ≡ minus_one
none_free usage used (free_at p l h free) = absurd (used p h free)
none_free usage used (all_used _) = refl

-- add_PCB with every number in use changes nothing.
add_pcb-full :
    (k : Kernel) (t : ℕ)
    → ((p : ℕ) → p < max_processes → k.process_usage p ≢ 0)
    → add_pcb k t ≡ some (minus_one, k)
unfolding add_pcb
add_pcb-full k t used =
    let found =
      none_free k.process_usage used (first_free-Searched k.process_usage max_processes 0 6 refl) in
    rw found refl

-- execute of an executable while all six process numbers are in use, with fuel for the message: it
-- answers 256, the status of a program that an exception ended, and the kernel is the one after the
-- 38 characters of its message have been printed one by one; nothing else has changed.
pub execute-full :
    (env : Env) (k : Kernel) (eflags esp ebp : ℕ) (command : Buf) (at : ℕ) (c : Command)
    (status : ℕ) (dentry : Buf) (entry : ℕ)
    → parse_command env.temp command at ≡ some c
    → read_dentry_by_name env.fuel k.fs c.cmd1 0 env.temp ≡ some (status, dentry)
    → status ≢ minus_one
    → check_file env.temp k.fs (dentry_inode dentry) ≡ some entry
    → ((p : ℕ) → p < max_processes → k.process_usage p ≢ 0)
    → 64 < env.fuel
    → execute env k eflags esp ebp command at
      ≡ some (answers 256 (putc_stream (literal "Maximum number of processes exceeded.\n") 38 0 k))
unfolding execute launch
execute-full env k eflags esp ebp command at c status dentry entry parsed found there checked used
      enough =
    let hit : (status == minus_one) ≡ false = ==_of_ne status minus_one there in
    let run =
      printf-prints env.temp env.fuel k (literal message) [] 38 (literal-IsPlain message 38 refl)
        (literal-end message) (omega (arith, enough)) in
    rw (parsed, found, hit, checked) (rw (add_pcb-full k k.active_task used) (rw run refl))
  where
    message : String
    message = "Maximum number of processes exceeded.\n"
