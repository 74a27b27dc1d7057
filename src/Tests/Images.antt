-- ===== src/Tests/Images.antt =====
-- Concrete runs on a file system image: student-distrib/filesystem.c, and open, close and fread on it.
use boz_os.Prelude.{
  leb, ℕ, ◌+◌, ◌<◌, ◌≤◌, ◌≡◌, refl, arith, some, Buf, IsBytes, ◌==◌, if◌then◌else◌, ◌&&◌, ◌-◌, ltb,
}
use Prim.Native.Nat.{min}
use boz_os.Clib.Asm.{load_dword}
use boz_os.Clib.Strings.Length.{HasLength}
use boz_os.Filesystem.{inode_length, read_data, read_dentry_by_name, max_d_entries}
use boz_os.Filesystem.Blocks.{Holds}
use boz_os.Filesystem.Reading.{Accepted, ChainTo, read_data-within, read_data-past_end}
use boz_os.Filesystem.Directory.{Found, read_dentry_by_name-Found}
use boz_os.Files.{fread, fd_at}
use boz_os.Files.Sequence.{Left, fread-split, file_byte}
use boz_os.Tests.{letters, disk, image, image-IsBytes, running, shell_pcb}

disk_chain : (end : ℕ) → end ≤ 4096 → ChainTo disk 0 end
unfolding load_dword
disk_chain end l j h = ground arith

four_bytes : Accepted disk 0 3 1 4
unfolding load_dword
four_bytes = record {
  inode_ok = omega arith;
  not_null = omega arith;
  some_bytes = omega arith;
  within = omega arith;
  fits = omega arith;
  file_fits = omega arith;
}

read_data-within_example :
    (read_data disk 0 3 letters 1 4).0 ≡ 4
    × Holds disk 0 3 1 4 letters (read_data disk 0 3 letters 1 4).1
unfolding load_dword
read_data-within_example =
    read_data-within disk 0 3 letters 1 4 four_bytes (omega arith) (disk_chain 7 (omega arith))

twenty_bytes : Accepted disk 0 3 1 20
unfolding load_dword
twenty_bytes = record {
  inode_ok = omega arith;
  not_null = omega arith;
  some_bytes = omega arith;
  within = omega arith;
  fits = omega arith;
  file_fits = omega arith;
}

read_data-past_end_example :
    ((read_data disk 0 3 letters 1 20).0 ≡ min 20 (inode_length disk 0))
    × (inode_length disk 0 < 3 + (read_data disk 0 3 letters 1 20).0)
    × Holds disk 0 3 1
        (read_data disk 0 3 letters 1 20).0
        letters
        (read_data disk 0 3 letters 1 20).1
unfolding load_dword
read_data-past_end_example =
    read_data-past_end disk 0 3 letters 1 20 twenty_bytes (omega arith) (omega arith) (omega arith)
      (disk_chain 23 (omega arith))

-- The name "a".
abbrev name : Buf
name q = if q == 1 then b'a' else 0

name-IsBytes : IsBytes name
name-IsBytes q = ground arith

name-HasLength : HasLength name 1 1
name-HasLength = (refl, λ i h. ground arith)

read_dentry_by_name-Found_example :
    (out : ℕ × Buf) × (read_dentry_by_name 8 disk name 1 letters ≡ some out)
    × Found disk name 1 letters 0 max_d_entries out
read_dentry_by_name-Found_example =
    read_dentry_by_name-Found 8 disk name 1 letters 1 image-IsBytes name-IsBytes name-HasLength
      (omega arith) (omega arith)

entry-HasLength : HasLength image 64 1
entry-HasLength = (refl, λ i h. ground arith)

file-Left : Left (running 0) shell_pcb 2 7
unfolding load_dword
file-Left = record {
  inode_ok = omega arith;
  file_fits = omega arith;
  inside = omega arith;
  chain = disk_chain 7 (omega arith);
}

fread-split_example :
    let (_, buf₁, k₁) = fread (running 0) shell_pcb 2 letters 1 3 in
    let (status, buf₂, k₂) = fread k₁ shell_pcb 2 buf₁ 4 4 in
    let (_, buf', k') = fread (running 0) shell_pcb 2 letters 1 7 in
    (status ≡ 4)
    × ((q : ℕ) → buf₂ q ≡ buf' q)
    × (fd_at k₂ shell_pcb 2 ≡ fd_at k' shell_pcb 2)
    × ((q : ℕ)
        → buf₂ q ≡ (if leb 1 q && ltb q 8 then file_byte disk 0 (0 + (q - 1)) else letters q))
fread-split_example =
    fread-split (running 0) shell_pcb 2 letters 1 3 4 file-Left (omega arith) (omega arith)
      (omega arith)
