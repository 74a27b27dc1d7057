-- ===== src/Execute/Loading.antt =====
-- The parts of execute in student-distrib/syscalls.c that fill the page and the descriptors of a process.
use boz_os.Prelude.{
  ℕ, zero, suc, ◌-◌, ◌<◌, ◌≤◌, ◌≡◌, ◌≢◌, refl, arith, ltb, if◌then◌else◌, Buf, minus_one,
}
use mathlib.Core.Path.{subst}
use boz_os.Clib.Strings.Duplicate.{padded, strncpy-padded}
use boz_os.Clib.Fill.{memset-filled}
use boz_os.Clib.Asm.{memset}
use boz_os.State.{Fd, stdin_fotp, stdout_fotp, max_files}
use boz_os.Filesystem.{Fs, inode_count, inode_length, read_data}
use boz_os.Filesystem.Blocks.{Holds}
use boz_os.Filesystem.Reading.{Accepted, ChainTo, read_data_lem, wanted, transferred}
use boz_os.Execute.{kb_size, Command, user_prog_size, user_prog_offset, start_fds, clear_fds}

-- A file that fits behind the offset in a page of 4 MB, on a disk whose blocks it may use.
pub record IsProgram (fs : Fs) (inode : ℕ) : Type 0 where
  pub inode_ok : inode ≤ inode_count fs
  pub some_bytes : 0 < inode_length fs inode
  pub fits : inode_length fs inode ≤ user_prog_size - user_prog_offset
  pub chain : ChainTo fs inode (inode_length fs inode)

pub load_lem :
    (fs : Fs) (inode : ℕ) (memory : Buf) (at : ℕ)
    → IsProgram fs inode
    → at ≢ 0
    → let (status, memory') = read_data fs inode 0 memory at user_prog_size in
      (status ≢ minus_one) × Holds fs inode 0 at (inode_length fs inode) memory memory'
load_lem fs inode memory at program not_null =
    let len = inode_length fs inode in
    let all : wanted len 0 user_prog_size ≡ len = ground (arith, program.fits) in
    let n : transferred len 0 user_prog_size ≡ len = ground (arith, all) in
    let ok : Accepted fs inode 0 at user_prog_size = record {
      inode_ok = program.inode_ok;
      not_null = not_null;
      some_bytes = omega arith;
      within = program.some_bytes;
      fits = omega arith;
      file_fits = omega (arith, program.fits);
    } in
    let whole =
      read_data_lem fs inode 0 memory at user_prog_size ok
        (λ j h. program.chain j (omega (arith, h, all))) in
    (
      λ e. omega (arith, whole.0, n, program.fits, e),
      subst (λ m. Holds fs inode 0 at m memory (read_data fs inode 0 memory at user_prog_size).1) n
          whole.1,
    )

pub start_fds-flags :
    (fd_arr : ℕ → Fd) (c : Command) (text fd : ℕ)
    → fd < max_files
    → (start_fds fd_arr c text fd).in_use_flag ≡ (if ltb fd 2 then 1 else 0)
unfolding start_fds clear_fds
start_fds-flags fd_arr c text zero h = refl
start_fds-flags fd_arr c text (suc zero) h = refl
start_fds-flags fd_arr c text (suc (suc fd)) h = ground (arith, h)

pub start_fds-fotp :
    (fd_arr : ℕ → Fd) (c : Command) (text : ℕ)
    → ((start_fds fd_arr c text 0).fotp ≡ stdin_fotp)
      × ((start_fds fd_arr c text 1).fotp ≡ stdout_fotp)
      × ((start_fds fd_arr c text 1).text_file_flag ≡ text)
unfolding start_fds clear_fds
start_fds-fotp fd_arr c text = (refl, refl, refl)

-- The argument is copied into a cleared buffer.
pub start_fds-arg :
    (fd_arr : ℕ → Fd) (c : Command) (text q : ℕ)
    → q < kb_size
    → c.arg_nbytes ≤ kb_size
    → (start_fds fd_arr c text 0).arg q ≡ (if ltb q c.arg_nbytes then padded c.cmd2 0 q else 0)
unfolding start_fds clear_fds
start_fds-arg fd_arr c text q h fits = ground (
  arith,
  strncpy-padded c.arg_nbytes (memset (fd_arr 0).arg 0 0 kb_size) 0 c.cmd2 0 q,
  memset-filled (fd_arr 0).arg 0 0 kb_size q,
)
