-- ===== src/Programs/Showing.antt =====
-- What cat of syscalls/ece391cat.c prints on the kernel's system calls, student-distrib/syscalls.c.
use boz_os.Prelude.{
  ◌&&◌, if◌then◌else◌, ◌%◌, ℕ, ◌+◌, ◌-◌, ◌^◌, ◌<◌, ◌≤◌, ◌≡◌, ◌≢◌, inl, inr, refl, ap, sym, ◌∙◌,
  arith, Option, some, false, ltb, leb, ◌==◌, minus_one, Buf,
}
use mathlib.Core.Path.{subst}
use boz_os.State.{Kernel, Fd, Pcb, file_fotp, stdout_fotp, done}
use boz_os.Filesystem.{Fs, inode_length}
use boz_os.Filesystem.Blocks.{stream}
use boz_os.Screen.Stream.{
  putc_stream, with_pcb, putc_stream-with_pcb, putc_stream-Shown, putc_stream-append,
}
use boz_os.Files.{
  Env, bad_pcb, bad_arguments, set_fd, fd_at, fread, read_entry, write_entry, sys_open, sys_read,
  sys_write, terminal_write, getargs,
}
use boz_os.Files.Descriptors.{set_fd_own, set_fd_frame}
use boz_os.Files.Pieces.{
  piece, pieces, AtPiece-next, IsFile, fread-piece, fread-end, terminal_write-stream,
}
use boz_os.Programs.{Calls, local_at}
use boz_os.Programs.OnKernel.{with_kernel, answered, kernel_calls}
use boz_os.Programs.Reading.{Reader, AtByte, Printed, set_fd-tail, Shown-tail}
use boz_os.Programs.Cat.{cat}
use boz_os.Programs.Copying.{Source, cat-Copied}

module _ (env : Env) (eflags esp ebp table_at : ℕ) (fs : Fs) (p fd : ℕ) (d o : Fd)
    (reader : Reader fs p fd d o) where
  good_pcb : bad_pcb p ≡ false
  good_pcb = ground (arith, reader.not_null, reader.below)

  good_arguments : (n : ℕ) → n < 2 ^ 31 → bad_arguments fd local_at n ≡ false
  good_arguments n h = ground (arith, reader.small, h)

  good_output : (n : ℕ) → n < 2 ^ 31 → bad_arguments 1 local_at n ≡ false
  good_output n h = ground (arith, h)

  sys_read-file :
      (pos left : ℕ) (buf : Buf) (k : Kernel)
      → AtByte fs p fd d o pos left k
      → sys_read env k fd buf local_at 1024 ≡ some (done (fread k p fd buf local_at 1024))
  unfolding sys_read read_entry
  sys_read-file pos left buf k at =
      let used : ((fd_at k p fd).in_use_flag == 0) ≡ false =
        ground (arith, at.file, reader.in_use) in
      let table : (fd_at k p fd).fotp ≡ file_fotp =
        ap (λ (u : Fd). u.fotp) at.file ∙ reader.table in
      rw (at.tail, good_pcb, good_arguments 1024 (omega arith), used, table) refl

  sys_write-out :
      (pos left n : ℕ) (buf : Buf) (k : Kernel)
      → n < 2 ^ 31
      → AtByte fs p fd d o pos left k
      → sys_write env k 1 buf local_at n ≡ some (terminal_write k p 1 buf local_at n)
  unfolding sys_write write_entry
  sys_write-out pos left n buf k h at =
      let used : ((fd_at k p 1).in_use_flag == 0) ≡ false =
        ground (arith, at.out, reader.out_in_use) in
      let table : (fd_at k p 1).fotp ≡ stdout_fotp =
        ap (λ (u : Fd). u.fotp) at.out ∙ reader.out_table in
      rw (at.tail, good_pcb, good_output n h, used, table) refl

  abbrev len : ℕ
  len = inode_length fs d.inode_number

  abbrev calls : Calls Kernel
  calls = kernel_calls env eflags esp ebp table_at

  abbrev bytes : ℕ → ℕ
  bytes = stream fs d.inode_number

  -- What a read answers.
  abbrev Answer : ℕ → ℕ → Kernel → Option (ℕ × Buf × Kernel) → Type 0
  Answer pos left k r =
      (n : ℕ) × (buf' : Buf) × (k' : Kernel) × (r ≡ some (n, buf', k'))
      × (n ≤ left)
      × (n ≤ 1024)
      × (0 < left → 0 < n)
      × ((i : ℕ) → i < n → buf' (local_at + i) ≡ bytes (pos + i))
      × AtByte fs p fd d o (pos + n) (left - n) k'
      × Printed fs d.inode_number pos 0 k k'

  read_end :
      (pos left : ℕ) (buf : Buf) (k : Kernel)
      → AtByte fs p fd d o pos left k
      → left ≡ 0
      → Answer pos left k (answered (some (done (fread k p fd buf local_at 1024))))
  unfolding putc_stream
  read_end pos left buf k at e =
      let past : len ≤ pos = ground (arith, at.position.0, e) in
      let past' : inode_length k.fs (fd_at k p fd).inode_number ≤ (fd_at k p fd).file_position =
        rw (at.same_fs, at.file) past in
      let none_left : left - 0 ≡ left = omega arith in
      let same : pos + 0 ≡ pos = omega arith in
      (
        0,
        buf,
        k,
        ap (λ r. answered (some (done r))) (fread-end k p fd buf local_at 1024 past'),
        omega arith,
        omega arith,
        λ h. absurd (omega arith),
        λ i h. absurd (omega arith),
        rw (none_left, same) at,
        refl,
      )

  read_piece :
      (pos left : ℕ) (buf : Buf) (k : Kernel)
      → AtByte fs p fd d o pos left k
      → pos % 1024 ≡ 0
      → pos < len
      → Answer pos left k (answered (some (done (fread k p fd buf local_at 1024))))
  unfolding putc_stream set_fd
  read_piece pos left buf k at aligned inside =
      let here = record d { file_position = pos } in
      let file : IsFile fs here = record {
        inode_ok = reader.file.inode_ok;
        file_fits = reader.file.file_fits;
        chain = reader.file.chain;
      } in
      let d' = record d { file_position = pos + piece len } in
      let k' = set_fd k p fd d' in
      let (buf', run, holds) =
        fread-piece k p fd buf local_at fs here at.same_fs at.file file (omega arith) inside
          aligned in
      let (few, next) = AtPiece-next len pos left at.position inside aligned in
      (
        piece len,
        buf',
        k',
        ap (λ r. answered (some (done r))) run,
        few,
        ground arith,
        λ h. ground (arith, inside),
        λ i h. holds (local_at + i) ∙ byte i h,
        record {
          tail = set_fd-tail k p fd d' k.active_task ∙ at.tail;
          same_fs = at.same_fs;
          file = set_fd_own k p fd d';
          out = set_fd_frame k p fd d' p 1 (inr (omega (arith, reader.other))) ∙ at.out;
          position = next;
        },
        refl,
      )
    where
      byte :
          (i : ℕ)
          → i < piece len
          → (if leb local_at (local_at + i) && ltb (local_at + i) (local_at + piece len)
              then bytes (pos + (local_at + i - local_at))
              else buf (local_at + i))
            ≡ bytes (pos + i)
      byte i h = ground (arith, h)

  read_answers :
      (pos left : ℕ) (buf : Buf) (k : Kernel)
      → AtByte fs p fd d o pos left k
      → Answer pos left k (calls.ece391_read fd buf local_at 1024 k)
  read_answers pos left buf k at =
      subst (λ r. Answer pos left k (answered r)) (sym (sys_read-file pos left buf k at))
        (elim at.position.1 [
          | inl empty ↦ read_end pos left buf k at empty
          | inr more ↦ read_piece pos left buf k at more.0 more.1
        ])

  write_answers :
      (pos left from n : ℕ) (buf : Buf) (k : Kernel)
      → AtByte fs p fd d o pos left k
      → n ≤ 1024
      → ((i : ℕ) → i < n → buf (local_at + i) ≡ bytes (from + i))
      → (status : ℕ) × (k' : Kernel) × (calls.ece391_write 1 buf local_at n k ≡ some (status, k'))
        × (status ≢ minus_one)
        × AtByte fs p fd d o pos left k'
        × Printed fs d.inode_number from n k k'
  write_answers pos left from n buf k at small same =
      let k' = putc_stream bytes n from k in
      let shown = putc_stream-Shown bytes n from k in
      let plain : (fd_at k p 1).text_file_flag ≢ 1 = ground (arith, at.out, reader.out_plain) in
      let same_pcb : k'.pcb ≡ k.pcb = sym (ap (λ (u : Kernel). u.pcb) shown.frame) in
      let descriptor : (j : ℕ) → fd_at k' p j ≡ fd_at k p j =
        λ j. ap (λ (f : ℕ → Pcb). (f p).fd_arr j) same_pcb in
      (
        n,
        k',
        sys_write-out pos left n buf k (omega (arith, small)) at
            ∙ ap some (
                terminal_write-stream bytes k p 1 buf local_at n from (omega arith)
                  (omega (arith, small)) plain same),
        omega (arith, small),
        record {
          tail = Shown-tail k k' shown ∙ at.tail;
          same_fs = sym (ap (λ (u : Kernel). u.fs) shown.frame) ∙ at.same_fs;
          file = descriptor fd ∙ at.file;
          out = descriptor 1 ∙ at.out;
          position = at.position;
        },
        refl,
      )

  Printed-joined :
      (pos a b mid n : ℕ) (k k' k'' : Kernel)
      → mid ≡ pos + a
      → n ≡ a + b
      → Printed fs d.inode_number pos a k k'
      → Printed fs d.inode_number mid b k' k''
      → Printed fs d.inode_number pos n k k''
  Printed-joined pos a b mid n k k' k'' e e' first second =
      second
      ∙ ap (λ u. with_pcb k''.pcb (putc_stream bytes b mid u)) first
      ∙ ap (with_pcb k''.pcb) (putc_stream-with_pcb k'.pcb bytes b mid (putc_stream bytes a pos k))
      ∙ ap (with_pcb k''.pcb) (sym (putc_stream-append bytes a b pos mid n k e e'))

  -- The kernel keeps the contract.
  kernel-Source : Source calls bytes fd 1024 (AtByte fs p fd d o) (Printed fs d.inode_number)
  kernel-Source = record { read = read_answers; write = write_answers; joined = Printed-joined }

  -- cat on the kernel, of a regular file in blocks that the code accepts, when getargs gives its name
  -- and open has put it at its first byte, with a terminal as output that has not the flag of text
  -- files: it ends with status 0, and has printed the bytes of the file in order and nothing else; a
  -- file of 1024 bytes or more is rounded up to whole pieces of 1024, so up to 1023 bytes that stand
  -- behind its end on the disk are printed too. Besides the printing only process structures have
  -- changed.
  pub cat-prints :
      (fuel : ℕ) (buf name : Buf) (k k₁ : Kernel)
      → getargs k buf local_at 1024 ≡ some (0, name)
      → sys_open env k name local_at ≡ some (fd, k₁)
      → AtByte fs p fd d o 0 (pieces len) k₁
      → pieces len < fuel
      → (k' : Kernel) × (cat calls fuel buf k ≡ some (0, k'))
        × Printed fs d.inode_number 0 (pieces len) k₁ k'
  cat-prints fuel buf name k k₁ got opened_run at enough =
      let small : pieces len < 2 ^ 31 = ground (arith, reader.file.file_fits) in
      let (k', run, printed, _) =
        cat-Copied calls bytes fd (AtByte fs p fd d o) (Printed fs d.inode_number) kernel-Source
          fuel (pieces len) buf name k k k₁ (ap (with_kernel k) got) opened_run
          (omega (arith, reader.small)) at enough small in
      (k', run, printed)
