-- ===== src/Programs/Reading.antt =====
-- A process of student-distrib/ with a file that it reads and a terminal that it prints on.
use boz_os.Prelude.{ℕ, ◌<◌, ◌≡◌, ◌≢◌, refl, ap, sym, ◌∙◌, some}
use boz_os.State.{Kernel, Fd, Pcb, file_fotp, stdout_fotp, kernel_base, max_files, update_field}
use boz_os.Process.{get_pcb_tail}
use boz_os.Process.Searching.{get_pcb_tail_same}
use boz_os.Filesystem.{Fs, inode_length}
use boz_os.Filesystem.Blocks.{stream}
use boz_os.Screen.Frame.{Shown}
use boz_os.Screen.Stream.{putc_stream, with_pcb}
use boz_os.Files.{set_fd, fd_at}
use boz_os.Files.Pieces.{AtPiece, IsFile}

-- The process at `p` runs; its descriptor `fd` is a regular file in blocks that the code accepts, and
-- its output is a terminal without the flag of text files.
pub record Reader (fs : Fs) (p fd : ℕ) (d o : Fd) : Type 0 where
  pub not_null : p ≢ 0
  pub below : p < kernel_base
  pub other : 1 < fd
  pub small : fd < max_files
  pub table : d.fotp ≡ file_fotp
  pub in_use : d.in_use_flag ≡ 1
  pub file : IsFile fs d
  pub out_table : o.fotp ≡ stdout_fotp
  pub out_in_use : o.in_use_flag ≡ 1
  pub out_plain : o.text_file_flag ≡ 0

-- The file stands at `pos`, with `left` bytes of its pieces to come.
pub record AtByte (fs : Fs) (p fd : ℕ) (d o : Fd) (pos left : ℕ) (k : Kernel) : Type 0 where
  pub tail : get_pcb_tail k k.active_task ≡ some p
  pub same_fs : k.fs ≡ fs
  pub file : fd_at k p fd ≡ record d { file_position = pos }
  pub out : fd_at k p 1 ≡ o
  pub position : AtPiece (inode_length fs d.inode_number) pos left

-- From `k` to `k'` the bytes of the file from `pos` on, `n` of them, have been printed, and besides that
-- only process structures have changed.
abbrev pub Printed : Fs → ℕ → ℕ → ℕ → Kernel → Kernel → Type 0
Printed fs inode pos n k k' = k' ≡ with_pcb k'.pcb (putc_stream (stream fs inode) n pos k)

pub set_fd-tail :
    (k : Kernel) (p fd : ℕ) (d : Fd) (t : ℕ) → get_pcb_tail (set_fd k p fd d) t ≡ get_pcb_tail k t
unfolding set_fd
set_fd-tail k p fd d t =
    get_pcb_tail_same k (set_fd k p fd d) t refl
      (λ q. update_field (λ (u : Pcb). u.child_pcb) k.pcb p _ q refl)

pub Shown-tail :
    (k k' : Kernel) → Shown k k' → get_pcb_tail k' k'.active_task ≡ get_pcb_tail k k.active_task
Shown-tail k k' s =
    let same_pcb : k'.pcb ≡ k.pcb = sym (ap (λ (u : Kernel). u.pcb) s.frame) in
    let same_task : k'.active_task ≡ k.active_task =
      sym (ap (λ (u : Kernel). u.active_task) s.frame) in
    ap (get_pcb_tail k') same_task
    ∙ get_pcb_tail_same k k' k.active_task (s.heads k.active_task)
        (λ q. ap (λ (f : ℕ → Pcb). (f q).child_pcb) same_pcb)
