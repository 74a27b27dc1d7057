-- ===== src/Files/Descriptors.antt =====
-- open of student-distrib/syscalls.c on the table of descriptors.
use boz_os.Prelude.{
  ℕ, zero, suc, ◌+◌, ◌%◌, ◌≤◌, ◌<◌, ◌≡◌, ◌≢◌, ◌⊎◌, inl, inr, refl, ap, sym, ◌∙◌, Option, some, ◌==◌,
  if◌then◌else◌, minus_one, Buf, arith, Bool-cases, ==_iff,
}
use native.Mathlib.Decide.{ℕ_discrete}
use mathlib.Core.Path.{subst}
use boz_os.Filesystem.{file_type, dentry_inode, read_dentry_by_name, fopen, dopen}
use boz_os.Interrupts.{rtc_open, rtc_write, set_rate, rate_of}
use boz_os.Clib.Asm.{load_dword}
use boz_os.State.{
  Kernel, Pcb, Fd, Fotp, null, file_fotp, dir_fotp, rtc_fotp, max_files, kernel_base, outb,
  update_own, update_other,
}
use boz_os.Process.{get_pcb_tail}
use boz_os.Files.{
  Env, set_fd, fd_at, first_closed, opened, open_file, open_type, open_at, sys_open, fail,
}

-- The search of `open` through a table: the lowest descriptor that is not in use.
data FirstClosed (fd_arr : ℕ → Fd) (from to : ℕ) : ℕ → Type 0 where
  closed_at :
      (fd : ℕ)
      → from ≤ fd
      → fd < to
      → (fd_arr fd).in_use_flag ≢ 1
      → ((j : ℕ) → from ≤ j → j < fd → (fd_arr j).in_use_flag ≡ 1)
      → FirstClosed fd_arr from to fd
  all_open :
      ((j : ℕ) → from ≤ j → j < to → (fd_arr j).in_use_flag ≡ 1)
      → FirstClosed fd_arr from to minus_one

FirstClosed-skip :
    (fd_arr : ℕ → Fd) (i to : ℕ) {n : ℕ}
    → (fd_arr i).in_use_flag ≡ 1
    → FirstClosed fd_arr (i + 1) to n
    → FirstClosed fd_arr i to n
FirstClosed-skip fd_arr i to u (closed_at fd a b c e) = closed_at fd (omega arith) b c (λ j l h.
    elim (ℕ_discrete i j) [
      | yes same ↦ ap (λ v. (fd_arr v).in_use_flag) (sym same) ∙ u
      | no ne ↦ e j (omega arith) h
    ])
FirstClosed-skip fd_arr i to u (all_open e) = all_open (λ j l h. elim (ℕ_discrete i j) [
  | yes same ↦ ap (λ v. (fd_arr v).in_use_flag) (sym same) ∙ u
  | no ne ↦ e j (omega arith) h
])

first_closed-FirstClosed :
    (fd_arr : ℕ → Fd) (rounds i to : ℕ)
    → i + rounds ≡ to
    → FirstClosed fd_arr i to (first_closed fd_arr rounds i)
unfolding first_closed
first_closed-FirstClosed fd_arr zero i to e = all_open (λ j l h. absurd (omega arith))
first_closed-FirstClosed fd_arr (suc rounds) i to e =
    elim (Bool-cases ((fd_arr i).in_use_flag == 1)) [
      | inl u ↦ rw u (
          FirstClosed-skip fd_arr i to ((==_iff _ _).0 u)
            (first_closed-FirstClosed fd_arr rounds (i + 1) to (omega arith)))
      | inr u ↦
          rw u
            (closed_at i (omega arith) (omega arith) (ground arith) (λ j l h. absurd (omega arith)))
    ]

-- The table and the inode number that go with a type of file.
abbrev pub table_of : ℕ → Fotp
table_of zero = rtc_fotp
table_of (suc zero) = dir_fotp
table_of (suc (suc zero)) = file_fotp
table_of (suc (suc (suc n))) = null

abbrev pub inode_of : Buf → ℕ
inode_of dentry = if file_type dentry == 2 then dentry_inode dentry % 256 else 0

-- The outcomes of `open` for a process at `p`, once the directory has answered `status` and `dentry`:
-- -1 with nothing changed, or, for a name that was found and a type of the three, the lowest closed
-- descriptor, set up to read from the start.
pub data Opening (k : Kernel) (p status : ℕ) (dentry : Buf) : Option (ℕ × Kernel) → Type 0 where
  refused :
      (status ≡ minus_one)
        ⊎ ((j : ℕ) → j < max_files → (fd_at k p j).in_use_flag ≡ 1)
        ⊎ (2 < file_type dentry)
      → Opening k p status dentry (fail k)
  opens :
      (fd : ℕ) (k' : Kernel)
      → status ≢ minus_one
      → file_type dentry ≤ 2
      → fd < max_files
      → (fd_at k p fd).in_use_flag ≢ 1
      → ((j : ℕ) → j < fd → (fd_at k p j).in_use_flag ≡ 1)
      → (fd_at k' p fd).in_use_flag ≡ 1
      → (fd_at k' p fd).file_position ≡ 0
      → (fd_at k' p fd).fotp ≡ table_of (file_type dentry)
      → (fd_at k' p fd).inode_number ≡ inode_of dentry
      → ((q j : ℕ) → (q ≢ p) ⊎ (j ≢ fd) → fd_at k' q j ≡ fd_at k q j)
      → Opening k p status dentry (some (fd, k'))

pub set_fd_own : (k : Kernel) (p fd : ℕ) (d : Fd) → fd_at (set_fd k p fd d) p fd ≡ d
unfolding set_fd
set_fd_own k p fd d =
    ap (λ (u : Pcb). u.fd_arr fd) (update_own k.pcb p _) ∙ update_own (k.pcb p).fd_arr fd d

pub set_fd_frame :
    (k : Kernel) (p fd : ℕ) (d : Fd) (q j : ℕ)
    → (q ≢ p) ⊎ (j ≢ fd)
    → fd_at (set_fd k p fd d) q j ≡ fd_at k q j
unfolding set_fd
set_fd_frame k p fd d q j (inl ne) = ap (λ (u : Pcb). u.fd_arr j) (update_other k.pcb p _ q ne)
set_fd_frame k p fd d q j (inr ne) = elim (ℕ_discrete q p) [
  | yes e ↦
      subst (λ q. fd_at (set_fd k p fd d) q j ≡ fd_at k q j) (sym e)
        (ap (λ (u : Pcb). u.fd_arr j) (update_own k.pcb p _)
          ∙ update_other (k.pcb p).fd_arr fd d j ne)
  | no other ↦ ap (λ (u : Pcb). u.fd_arr j) (update_other k.pcb p _ q other)
]

rtc_open_pcb : (k : Kernel) (previous : ℕ) → (rtc_open k previous).1.pcb ≡ k.pcb
unfolding rtc_open rtc_write set_rate rate_of outb load_dword
rtc_open_pcb k previous = refl

-- The four assignments give what `opens` asks for.
opened-Opening :
    (k k₁ : Kernel) (p status : ℕ) (dentry : Buf) (fd : ℕ) (table : Fotp) (inode : ℕ)
    → k₁.pcb ≡ k.pcb
    → status ≢ minus_one
    → file_type dentry ≤ 2
    → fd < max_files
    → (fd_at k p fd).in_use_flag ≢ 1
    → ((j : ℕ) → j < fd → (fd_at k p j).in_use_flag ≡ 1)
    → table ≡ table_of (file_type dentry)
    → inode % 256 ≡ inode_of dentry
    → Opening k p status dentry (some (fd, opened k₁ p fd table inode))
unfolding opened
opened-Opening k k₁ p status dentry fd table inode same ok known small closed lower t i =
    let own = set_fd_own k₁ p fd _ in
    opens fd _ ok known small closed lower (ap (λ (d : Fd). d.in_use_flag) own)
      (ap (λ (d : Fd). d.file_position) own) (ap (λ (d : Fd). d.fotp) own ∙ t)
      (ap (λ (d : Fd). d.inode_number) own ∙ i)
      (λ q j ne. set_fd_frame k₁ p fd _ q j ne ∙ ap (λ (m : ℕ → Pcb). (m q).fd_arr j) same)

-- The branches on the type. fopen looks the name up again, with the same answer.
open_type-Opening :
    (env : Env) (k : Kernel) (p status : ℕ) (dentry : Buf) (fd : ℕ) (name : Buf) (at : ℕ)
    → status ≢ minus_one
    → fopen env.fuel k.fs name at env.temp ≡ some 0
    → fd < max_files
    → (fd_at k p fd).in_use_flag ≢ 1
    → ((j : ℕ) → j < fd → (fd_at k p j).in_use_flag ≡ 1)
    → Opening k p status dentry (open_type env k p fd name at dentry)
unfolding open_type open_file dopen rtc_open
open_type-Opening env k p status dentry fd name at ok f small closed lower =
    go (file_type dentry) refl
  where
    go :
        (t : ℕ)
        → file_type dentry ≡ t
        → Opening k p status dentry (open_type env k p fd name at dentry)
    go zero e =
        let run : open_type env k p fd name at dentry
            ≡ some (fd, opened (rtc_open k env.previous).1 p fd rtc_fotp 0) =
          ground (arith, e, f) in
        subst (Opening k p status dentry) (sym run) (
          opened-Opening k (rtc_open k env.previous).1 p status dentry fd rtc_fotp 0
            (rtc_open_pcb k env.previous) ok (omega (arith, e)) small closed lower
            (ap table_of (sym e)) (ground arith))
    go (suc zero) e =
        let run : open_type env k p fd name at dentry ≡ some (fd, opened k p fd dir_fotp 0) =
          ground (arith, e, f) in
        subst (Opening k p status dentry) (sym run) (
          opened-Opening k k p status dentry fd dir_fotp 0 refl ok (omega (arith, e)) small closed
            lower (ap table_of (sym e)) (ground arith))
    go (suc (suc zero)) e =
        let run : open_type env k p fd name at dentry
            ≡ some (fd, opened k p fd file_fotp (dentry_inode dentry)) =
          ground (arith, e, f) in
        subst (Opening k p status dentry) (sym run) (
          opened-Opening k k p status dentry fd file_fotp (dentry_inode dentry) refl ok
            (omega (arith, e)) small closed lower (ap table_of (sym e)) (ground arith))
    go (suc (suc (suc n))) e =
        let run : open_type env k p fd name at dentry ≡ fail k = ground (arith, e, f) in
        subst (Opening k p status dentry) (sym run) (refused (inr (inr (omega (arith, e)))))

fopen-found :
    (env : Env) (k : Kernel) (name : Buf) (at status : ℕ) (dentry : Buf)
    → read_dentry_by_name env.fuel k.fs name at env.temp ≡ some (status, dentry)
    → status ≢ minus_one
    → fopen env.fuel k.fs name at env.temp ≡ some 0
unfolding fopen
fopen-found env k name at status dentry e ne = ground (arith, e)

open_at-Opening :
    (env : Env) (k : Kernel) (name : Buf) (at p status : ℕ) (dentry : Buf)
    → read_dentry_by_name env.fuel k.fs name at env.temp ≡ some (status, dentry)
    → Opening k p status dentry (open_at env k p name at)
unfolding open_at
open_at-Opening env k name at p status dentry e = elim (ℕ_discrete status minus_one) [
  | yes none_such ↦
      let run : open_at env k p name at ≡ fail k = ground (arith, e, none_such) in
      subst (Opening k p status dentry) (sym run) (refused (inl none_such))
  | no ok ↦ go ok (first_closed-FirstClosed (k.pcb p).fd_arr max_files 0 max_files refl) refl
]
  where
    go :
        {fd : ℕ}
        → status ≢ minus_one
        → FirstClosed (k.pcb p).fd_arr 0 max_files fd
        → first_closed (k.pcb p).fd_arr max_files 0 ≡ fd
        → Opening k p status dentry (open_at env k p name at)
    go ok (closed_at fd l h c lower) e' =
        let run : open_at env k p name at ≡ open_type env k p fd name at dentry =
          ground (arith, e, e', ok, h) in
        subst (Opening k p status dentry) (sym run) (
          open_type-Opening env k p status dentry fd name at ok
            (fopen-found env k name at status dentry e ok) h c (λ j. lower j (omega arith)))
    go ok (all_open all) e' =
        let run : open_at env k p name at ≡ fail k = ground (arith, e, e') in
        subst (Opening k p status dentry) (sym run) (refused (inr (inl (λ j. all j (omega arith)))))

-- open, for a process whose structure stands at `p` and a name that ends: -1 with nothing changed if
-- the directory does not have the name, if all eight descriptors are in use, or if the type of the
-- file is none of the three; else the lowest descriptor that is not in use, which now is in use, at
-- position 0, with the table and the inode number of the type. No other descriptor of any process
-- changes.
pub sys_open-Opening :
    (env : Env) (k : Kernel) (name : Buf) (at p status : ℕ) (dentry : Buf)
    → get_pcb_tail k k.active_task ≡ some p
    → p ≢ 0
    → p < kernel_base
    → read_dentry_by_name env.fuel k.fs name at env.temp ≡ some (status, dentry)
    → Opening k p status dentry (sys_open env k name at)
unfolding sys_open
sys_open-Opening env k name at p status dentry here not_null below e =
    let run : sys_open env k name at ≡ open_at env k p name at = ground (arith, here) in
    subst (Opening k p status dentry) (sym run) (open_at-Opening env k name at p status dentry e)
