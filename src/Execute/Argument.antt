-- ===== src/Execute/Argument.antt =====
-- execute and getargs of student-distrib/syscalls.c together: the argument of a command.
use boz_os.Prelude.{
  ℕ, ◌+◌, ◌-◌, ◌<◌, ◌≤◌, ◌≡◌, ◌≢◌, refl, sym, ap, ◌∙◌, arith, bit_or, false, some, none, Option,
  List, ltb, ◌==◌, if◌then◌else◌, Buf,
}
use mathlib.Core.Path.{subst}
use boz_os.Clib.Asm.{memset, memcpy_from}
use boz_os.Clib.Copy.{memcpy_from_lem}
use boz_os.Clib.Strings.Length.{HasLength, strlen-HasLength}
use boz_os.Clib.Strings.Duplicate.{padded, padded-inside}
use boz_os.State.{Kernel, max_processes, term_3}
use boz_os.Filesystem.{dentry_inode}
use boz_os.Process.{get_pcb_tail, get_pcb_base}
use boz_os.Process.Chain.{get_pcb_base_bounds}
use boz_os.Process.Invariant.{IsTidy}
use boz_os.Files.{Env, fd_at, getargs, bad_pcb}
use boz_os.Terminals.{kb_size}
use boz_os.Execute.{
  Command, Launch, enters, user_stack, user_cs, user_ds, int_flag, execute, separates,
}
use boz_os.Execute.Words.{IsWord, IsLine, HoldsWord, parse_command-words}
use boz_os.Execute.Starting.{Runnable, Started, Entered, entered, execute-Entered}

character : (command : Buf) (p : ℕ) → separates (command p) ≡ false → command p ≢ 0
character command p h e = ground (arith, h, e)

module _ (command : Buf) (at a : ℕ) (word : IsWord command at a) (fits : a < kb_size) (c : Command)
    (held : HoldsWord c.cmd2 command at a) (length : c.arg_nbytes ≡ a) where
  held_inside : (q : ℕ) → q < a → c.cmd2 q ≡ command (at + q)
  held_inside q h = ground (arith, held q (omega (arith, fits)), h)

  held_padded : (q : ℕ) → q < a → padded c.cmd2 0 q ≡ command (at + q)
  held_padded q h =
      let start : 0 + q ≡ q = omega arith in
      padded-inside c.cmd2 0 a q inside h ∙ ap c.cmd2 start ∙ held_inside q h
    where
      inside : (j : ℕ) → j < a → c.cmd2 (0 + j) ≢ 0
      inside j l e =
          let start : j ≡ 0 + j = omega arith in
          character command (at + j) (word.inside j l) (sym (held_inside j l) ∙ ap c.cmd2 start ∙ e)

  module _ (chains : ℕ → List ℕ) (k : Kernel) (esp ebp inode text p : ℕ) (k' : Kernel)
      (s : Started chains k esp ebp inode text c p k') where
    abbrev arg : Buf
    arg = (fd_at k' (get_pcb_base p) 0).arg

    arg-HoldsWord : HoldsWord arg command at a
    arg-HoldsWord q h =
        s.arg q h (omega (arith, length, fits)) ∙ ground (arith, length, held_padded q)

    arg-HasLength : HasLength arg 0 a
    arg-HasLength = (
      ground (arith, arg-HoldsWord a fits),
      λ j l e.
          character command (at + j) (word.inside j l)
            (ground (arith, arg-HoldsWord j (omega (arith, l, fits)), l, e)),
    )

    getargs_run :
        (buf : Buf) (to nbytes : ℕ)
        → 0 < a
        → getargs k' buf to nbytes ≡ some (0, memcpy_from (memset buf to 0 1024) to arg 0 nbytes)
    unfolding getargs
    getargs_run buf to nbytes some_bytes =
        let good : bad_pcb (get_pcb_base p) ≡ false =
          ground (arith, get_pcb_base_bounds p s.small) in
        let n = (strlen-HasLength kb_size arg 0 a).1 (fits, arg-HasLength) in
        let more : (a == 0) ≡ false = ground (arith, some_bytes) in
        let tail = ap (get_pcb_tail k') s.same_task ∙ s.running in rw (tail, good, n, more) refl

    getargs_gives :
        (buf : Buf) (to nbytes : ℕ)
        → 0 < a
        → nbytes ≤ kb_size
        → (buf' : Buf) × (getargs k' buf to nbytes ≡ some (0, buf'))
          × ((q : ℕ) → q < nbytes → buf' (to + q) ≡ (if ltb q a then command (at + q) else 0))
    getargs_gives buf to nbytes some_bytes small = (
      memcpy_from (memset buf to 0 1024) to arg 0 nbytes,
      getargs_run buf to nbytes some_bytes,
      λ q h. copied q h ∙ arg-HoldsWord q (omega (arith, h, small)),
    )
      where
        copied :
            (q : ℕ)
            → q < nbytes
            → memcpy_from (memset buf to 0 1024) to arg 0 nbytes (to + q) ≡ arg q
        copied q h =
            let same : 0 + (to + q - to) ≡ q = omega arith in
            memcpy_from_lem nbytes (memset buf to 0 1024) to arg 0 (to + q)
            ∙ ground (arith, h, ap arg same)

abbrev unwrap : Command → Option Command → Command
unwrap d none = d
unwrap d (some c) = c

-- A program that is started by a line of two words, the second not empty, gets this word from
-- getargs. The first word names an executable file that fits into a user page, a process number is
-- free, and the lists are apart and in step with process_usage: in the state in which execute
-- leaves for the program, getargs with a count of at most 128 returns 0, and the buffer holds the
-- word, with zeros behind it up to the count.
pub execute-getargs :
    (env : Env) (chains : ℕ → List ℕ) (k : Kernel) (eflags esp ebp : ℕ) (command : Buf)
    (at n i a : ℕ) (c : Command) (dentry : Buf) (entry text free : ℕ) (buf : Buf) (to nbytes : ℕ)
    → IsTidy chains k
    → k.active_task ≤ term_3
    → IsLine command at n i a
    → 0 < a
    → Runnable env k command at c dentry entry text
    → free < max_processes
    → k.process_usage free ≡ 0
    → nbytes ≤ kb_size
    → (k' : Kernel) × (buf' : Buf) × (execute env k eflags esp ebp command at
        ≡ some (enters entry user_cs (bit_or eflags int_flag) user_stack user_ds k'))
      × (getargs k' buf to nbytes ≡ some (0, buf'))
      × ((q : ℕ) → q < nbytes → buf' (to + q) ≡ (if ltb q a then command (at + i + q) else 0))
execute-getargs env chains k eflags esp ebp command at n i a c dentry entry text free buf to nbytes
      tidy here line some_bytes run small unused few =
    go
      (execute-Entered env chains k eflags esp ebp command at c dentry entry text free tidy here run
        small unused)
      refl
  where
    go :
        {r : Option Launch}
        → Entered chains k esp ebp (dentry_inode dentry) text c eflags entry r
        → execute env k eflags esp ebp command at ≡ r
        → (k' : Kernel) × (buf' : Buf) × (execute env k eflags esp ebp command at
            ≡ some (enters entry user_cs (bit_or eflags int_flag) user_stack user_ds k'))
          × (getargs k' buf to nbytes ≡ some (0, buf'))
          × ((q : ℕ) → q < nbytes → buf' (to + q) ≡ (if ltb q a then command (at + i + q) else 0))
    go (entered p k' s) e =
        let (c', parsed, name, argument, length) =
          parse_command-words env.temp command at n i a line in
        let same : c' ≡ c = ap (unwrap c) (sym parsed ∙ run.parsed) in
        let held = subst (λ (c : Command). HoldsWord c.cmd2 command (at + i) a) same argument in
        let count = subst (λ (c : Command). c.arg_nbytes ≡ a) same length in
        let fits : a < kb_size = omega (arith, line.fits) in
        let (buf', got, bytes) =
          getargs_gives command (at + i) a line.second fits c held count chains k esp ebp
            (dentry_inode dentry) text p k' s buf to nbytes some_bytes few in
        (k', buf', e, got, bytes)
