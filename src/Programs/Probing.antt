-- ===== src/Programs/Probing.antt =====
-- The process that runs the tests of syscalls/ece391syserr.c, its messages, and the calls that
-- student-distrib/syscalls.c refuses it.
use boz_os.Prelude.{
  not, if_false, ℕ, zero, suc, ◌+◌, ◌-◌, ◌<◌, ◌≡◌, ◌≢◌, refl, ap, sym, ◌∙◌, arith, true, false,
  ◌||◌, ◌&&◌, some, length, codes, String, literal, slt32, ltb, ◌==◌, if◌then◌else◌, Bool-cases,
  inl, inr, minus_one, Buf, Bool,
}
use boz_os.Clib.Strings.Length.{HasLength}
use boz_os.State.{Kernel, stdin_fotp, stdout_fotp, done, kernel_base, max_files}
use boz_os.Process.{get_pcb_tail}
use boz_os.Screen.{putc}
use boz_os.Screen.Frame.{Shown, Shown-refl, Shown-trans, putc-Shown}
use boz_os.Printf.Messages.{plain_text, literal-IsPlain, literal-end}
use boz_os.Files.{
  Env, bad_pcb, bad_arguments, fd_at, sys_read, sys_write, sys_close, terminal_write, write_bytes,
}
use boz_os.Programs.{local_at, placed}

-- The process at `p` runs with its input, its output, and no other descriptor in use.
pub record Prober (p : ℕ) (k : Kernel) : Type 0 where
  pub tail : get_pcb_tail k k.active_task ≡ some p
  pub not_null : p ≢ 0
  pub below : p < kernel_base
  pub in_table : (fd_at k p 0).fotp ≡ stdin_fotp
  pub in_use : (fd_at k p 0).in_use_flag ≡ 1
  pub out_table : (fd_at k p 1).fotp ≡ stdout_fotp
  pub out_use : (fd_at k p 1).in_use_flag ≡ 1
  pub unused : (fd : ℕ) → 1 < fd → fd < max_files → (fd_at k p fd).in_use_flag ≡ 0

write_bytes-Shown :
    (k : Kernel) (text : ℕ) (buf : Buf) (at rounds i : ℕ)
    → Shown k (write_bytes k text buf at rounds i).1
unfolding write_bytes
write_bytes-Shown k text buf at zero i = Shown-refl k
write_bytes-Shown k text buf at (suc rounds) i =
    let k' = putc k (buf (at + i)) in
    let first = putc-Shown k (buf (at + i)) in
    elim (Bool-cases ((text == 1) && (buf (at + i) == 0))) [
      | inl stop ↦ rw stop first
      | inr more ↦ rw more (
          Shown-trans k k' (write_bytes k' text buf at rounds (i + 1)).1 first
            (write_bytes-Shown k' text buf at rounds (i + 1)))
    ]

pub terminal_write-Shown :
    (k : Kernel) (p fd : ℕ) (buf : Buf) (at n : ℕ) → Shown k (terminal_write k p fd buf at n).1
unfolding terminal_write
terminal_write-Shown k p fd buf at n = elim (Bool-cases ((at == 0) || slt32 n 0)) [
  | inl bad ↦ rw bad (Shown-refl k)
  | inr good ↦ rw good (write_bytes-Shown k (fd_at k p fd).text_file_flag buf at n 0)
]

-- A message of the programs: plain text of less than 64 bytes.
abbrev pub is_message : String → Bool
is_message s = plain_text (length (codes s)) (codes s) && ltb (length (codes s)) 64

pub placed-HasLength :
    (s : String)
    → is_message s ≡ true
    → (length (codes s) < 64) × HasLength (placed s) local_at (length (codes s))
unfolding placed
placed-HasLength s h =
    let text : plain_text (length (codes s)) (codes s) ≡ true = ground (arith, h) in
    let plain = literal-IsPlain s (length (codes s)) text in
    let shift : (j : ℕ)
        → (if ltb (local_at + j) local_at then 0 else literal s (local_at + j - local_at))
          ≡ literal s j =
      λ j. shifted j in
    (
      ground (arith, h),
      (shift (length (codes s)) ∙ literal-end s, λ j l e. plain.inside j l (sym (shift j) ∙ e)),
    )
  where
    shifted :
        (j : ℕ)
        → (if ltb (local_at + j) local_at then 0 else literal s (local_at + j - local_at))
          ≡ literal s j
    shifted j = if_false _ _ (high j) ∙ ap (literal s) (back j)
      where
        high : (j : ℕ) → ltb (local_at + j) local_at ≡ false
        high j = ground arith

        back : (j : ℕ) → local_at + j - local_at ≡ j
        back j = omega arith

module _ (env : Env) (p : ℕ) where
  pub good_pcb : (k : Kernel) → Prober p k → bad_pcb p ≡ false
  good_pcb k r = ground (arith, r.not_null, r.below)

  -- Calls that the kernel refuses.
  pub refused_read :
      (k : Kernel) (fd : ℕ) (buf : Buf)
      → Prober p k
      → (bad_arguments fd local_at 31 || ((fd_at k p fd).in_use_flag == 0)) ≡ true
      → sys_read env k fd buf local_at 31 ≡ some (done (minus_one, buf, k))
  unfolding sys_read
  refused_read k fd buf r bad = elim (Bool-cases (bad_arguments fd local_at 31)) [
    | inl arguments ↦ rw (r.tail, good_pcb k r, arguments) refl
    | inr fine ↦
        let closed : ((fd_at k p fd).in_use_flag == 0) ≡ true = ground (arith, fine, bad) in
        rw (r.tail, good_pcb k r, fine, closed) refl
  ]

  pub refused_write :
      (k : Kernel) (fd : ℕ) (buf : Buf)
      → Prober p k
      → (bad_arguments fd local_at 31 || ((fd_at k p fd).in_use_flag == 0)) ≡ true
      → sys_write env k fd buf local_at 31 ≡ some (minus_one, k)
  unfolding sys_write
  refused_write k fd buf r bad = elim (Bool-cases (bad_arguments fd local_at 31)) [
    | inl arguments ↦ rw (r.tail, good_pcb k r, arguments) refl
    | inr fine ↦
        let closed : ((fd_at k p fd).in_use_flag == 0) ≡ true = ground (arith, fine, bad) in
        rw (r.tail, good_pcb k r, fine, closed) refl
  ]

  pub refused_close :
      (k : Kernel) (fd : ℕ)
      → Prober p k
      → ((fd == 0)
          || (fd == 1)
          || slt32 fd 0
          || slt32 (max_files - 1) fd
          || not ((fd_at k p fd).in_use_flag == 1))
        ≡ true
      → sys_close k fd ≡ some (minus_one, k)
  unfolding sys_close
  refused_close k fd r bad =
      elim (Bool-cases ((fd == 0) || (fd == 1) || slt32 fd 0 || slt32 (max_files - 1) fd)) [
        | inl arguments ↦ rw (r.tail, good_pcb k r, arguments) refl
        | inr fine ↦
            let closed : not ((fd_at k p fd).in_use_flag == 1) ≡ true = ground (arith, fine, bad) in
            rw (r.tail, good_pcb k r, fine, closed) refl
      ]
