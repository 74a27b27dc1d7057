-- ===== src/Files/Closing.antt =====
-- close of student-distrib/syscalls.c.
use boz_os.Prelude.{
  ℕ, ◌-◌, ◌^◌, ◌≤◌, ◌<◌, ◌≡◌, ◌≢◌, ◌⊎◌, inl, inr, refl, ap, sym, true, ◌||◌, Option, some, none,
  ltb, ◌==◌, minus_one, slt32, arith, Bool-cases,
}
use native.Mathlib.Decide.{ℕ_discrete}
use mathlib.Core.Path.{subst}
use boz_os.Filesystem.{fclose, dclose}
use boz_os.Interrupts.{rtc_close}
use boz_os.State.{
  Kernel, Fd, Fotp, null, stdin_fotp, stdout_fotp, file_fotp, dir_fotp, rtc_fotp, max_files,
  kernel_base,
}
use boz_os.Process.{get_pcb_tail}
use boz_os.Files.Descriptors.{set_fd_own, set_fd_frame}
use boz_os.Files.{set_fd, fd_at, fail, close_entry, close_at, sys_close}

-- The outcomes of `close`.
pub data Closing (k : Kernel) (p fd : ℕ) : Option (ℕ × Kernel) → Type 0 where
  kept :
      (fd < 2) ⊎ (max_files ≤ fd) ⊎ ((fd_at k p fd).in_use_flag ≢ 1)
      → Closing k p fd (some (minus_one, k))
  fault : (fd_at k p fd).fotp ≡ null → Closing k p fd none
  closes :
      (k' : Kernel)
      → 2 ≤ fd
      → fd < max_files
      → (fd_at k p fd).in_use_flag ≡ 1
      → (fd_at k' p fd).in_use_flag ≡ 0
      → ((q j : ℕ) → (q ≢ p) ⊎ (j ≢ fd) → fd_at k' q j ≡ fd_at k q j)
      → Closing k p fd (some (0, k'))

-- Every table closes with 0.
close_entry-zero : (table : Fotp) → (table ≡ null) ⊎ (close_entry table ≡ some 0)
unfolding fclose dclose rtc_close
close_entry-zero null = inl refl
close_entry-zero stdin_fotp = inr refl
close_entry-zero stdout_fotp = inr refl
close_entry-zero file_fotp = inr refl
close_entry-zero dir_fotp = inr refl
close_entry-zero rtc_fotp = inr refl

close_at-Closing :
    (k : Kernel) (p fd : ℕ)
    → 2 ≤ fd
    → fd < max_files
    → (fd_at k p fd).in_use_flag ≡ 1
    → Closing k p fd (close_at k p fd)
unfolding close_at
close_at-Closing k p fd l h u = elim (close_entry-zero (fd_at k p fd).fotp) [
  | inl e ↦
      let run : close_at k p fd ≡ none = ground (arith, ap close_entry e) in
      subst (Closing k p fd) (sym run) (fault e)
  | inr e ↦
      let run : close_at k p fd
          ≡ some (0, set_fd k p fd (record (fd_at k p fd) { in_use_flag = 0 })) =
        ground (arith, e) in
      subst (Closing k p fd) (sym run) (
        closes _ l h u (ap (λ (d : Fd). d.in_use_flag) (set_fd_own k p fd _))
          (set_fd_frame k p fd _))
]

-- close, for a process whose structure stands at `p`: -1 with nothing changed on the two terminal
-- descriptors, on a number that is not below eight, and on a descriptor that is not in use; a fault
-- if the descriptor has no table; else 0, the descriptor is free, and no other descriptor of any
-- process changes.
pub sys_close-Closing :
    (k : Kernel) (p fd : ℕ)
    → get_pcb_tail k k.active_task ≡ some p
    → p ≢ 0
    → p < kernel_base
    → fd < 2 ^ 32
    → Closing k p fd (sys_close k fd)
unfolding sys_close
sys_close-Closing k p fd here not_null below fits =
    elim (Bool-cases ((fd == 0) || (fd == 1) || slt32 fd 0 || slt32 (max_files - 1) fd)) [
      | inl bad ↦
          let run : sys_close k fd ≡ fail k = ground (arith, here, bad) in
          subst (Closing k p fd) (sym run) (kept (outside bad))
      | inr fine ↦ elim (ℕ_discrete (fd_at k p fd).in_use_flag 1) [
        | no unused ↦
            let run : sys_close k fd ≡ fail k = ground (arith, here, fine, unused) in
            subst (Closing k p fd) (sym run) (kept (inr (inr unused)))
        | yes used ↦
            let run : sys_close k fd ≡ close_at k p fd = ground (arith, here, fine, used) in
            subst (Closing k p fd) (sym run)
              (close_at-Closing k p fd (ground (arith, fine)) (ground (arith, fine)) used)
      ]
    ]
  where
    outside :
        ((fd == 0) || (fd == 1) || slt32 fd 0 || slt32 (max_files - 1) fd) ≡ true
        → (fd < 2) ⊎ (max_files ≤ fd) ⊎ ((fd_at k p fd).in_use_flag ≢ 1)
    outside bad = elim (Bool-cases (ltb fd 2)) [
      | inl h ↦ inl (ground (arith, h))
      | inr h ↦ inr (inl (ground (arith, h, bad)))
    ]
