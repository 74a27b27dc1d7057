-- ===== src/Filesystem.antt =====
-- student-distrib/filesystem.c: the read-only image of the boot module, at any address `start`.
-- The image is an object of its own; an `out` pointer is an object and a position, 0 for NULL.
pub mod Directory
pub mod Blocks
pub mod Reading
use boz_os.Prelude.{
  ℕ, zero, suc, ◌+◌, ◌-◌, ◌*◌, ◌/◌, ◌%◌, ◌^◌, ◌||◌, not, Option, none, some, ltb, leb, ◌==◌,
  if◌then◌else◌, ◌>>=◌, minus_one, slt32, add32, sub32, sdiv32, Buf, store,
}
use boz_os.Clib.Asm.{load_dword, memcpy_from}
use boz_os.Clib.Strings.{strlen, strncmp, strncpy}

-- The globals of the file: the image, the four pointers into it, and where `ls` is.
pub record Fs : Type 0 where
  pub image : Buf
  pub boot : ℕ
  pub dentries : ℕ
  pub inodes : ℕ
  pub data_blocks : ℕ
  pub dread_loc : ℕ

abbrev pub blk_sz : ℕ
blk_sz = 4096

abbrev pub max_d_entries : ℕ
max_d_entries = 62

abbrev pub file_name_len : ℕ
file_name_len = 32

-- sizeof(dentry_t), and the offsets of two of its fields.
abbrev pub dentry_size : ℕ
dentry_size = 64

abbrev pub file_type : Buf → ℕ
file_type dentry = load_dword dentry 32

abbrev pub dentry_inode : Buf → ℕ
dentry_inode dentry = load_dword dentry 36

-- The fields of the boot block and of an inode.
abbrev pub dir_entries : Fs → ℕ
dir_entries fs = load_dword fs.image fs.boot

abbrev pub inode_count : Fs → ℕ
inode_count fs = load_dword fs.image (fs.boot + 4)

abbrev pub block_count : Fs → ℕ
block_count fs = load_dword fs.image (fs.boot + 8)

abbrev pub inode_length : Fs → ℕ → ℕ
inode_length fs inode = load_dword fs.image (fs.inodes + blk_sz * inode)

abbrev pub inode_block : Fs → ℕ → ℕ → ℕ
inode_block fs inode i = load_dword fs.image (fs.inodes + blk_sz * inode + 4 + 4 * i)

-- &dentries[i]
abbrev pub dentry_at : Fs → ℕ → ℕ
dentry_at fs i = fs.dentries + dentry_size * i

unfoldable pub fs_init : Buf → ℕ → Fs
fs_init image start = record {
  image = image;
  boot = start;
  dentries = start + 64;
  inodes = start + blk_sz;
  data_blocks = start + blk_sz * add32 (load_dword image (start + 4)) 1 % 2 ^ 32;
  dread_loc = 0;
}

-- The loop of read_dentry_by_name, with `rounds` left at index `i`.
unfoldable pub find_dentry : Fs → Buf → ℕ → Buf → ℕ → ℕ → ℕ × Buf
find_dentry fs fname p dentry zero i = (minus_one, dentry)
find_dentry fs fname p dentry (suc rounds) i =
    let rest = find_dentry fs fname p dentry rounds (i + 1) in
    if strncmp fname p fs.image (dentry_at fs i) file_name_len == 0
    then (0, memcpy_from dentry 0 fs.image (dentry_at fs i) dentry_size)
    else rest

-- `fuel` bounds the length of the string that the caller passes.
unfoldable pub read_dentry_by_name : ℕ → Fs → Buf → ℕ → Buf → Option (ℕ × Buf)
unfolding find_dentry
read_dentry_by_name fuel fs fname p dentry = do
  n ← strlen fuel fname p
  some (if n == 0 then (minus_one, dentry) else find_dentry fs fname p dentry max_d_entries 0)

unfoldable pub read_dentry_by_index : ℕ → Fs → ℕ → Buf → Option (ℕ × Buf)
read_dentry_by_index fuel fs index dentry =
    if ltb max_d_entries index then some (minus_one, dentry) else do
      n ← strlen fuel fs.image (dentry_at fs index)
      some (
          if ltb 0 n
          then (
            0,
            store (memcpy_from dentry 0 fs.image (dentry_at fs index) dentry_size) file_name_len 0,
          )
          else (minus_one, dentry))

-- The locals of read_data that its loop does not change.
pub record Transfer : Type 0 where
  pub inode : ℕ
  pub offset : ℕ
  pub at : ℕ
  pub start_block : ℕ

-- The two assignments to copy_len.
unfoldable pub copy_length : ℕ → ℕ → ℕ
copy_length bytes_to_copy initial_offset =
    let copy_len = if slt32 bytes_to_copy blk_sz then bytes_to_copy else blk_sz in
    if slt32 (blk_sz - initial_offset) copy_len then blk_sz - initial_offset else copy_len

-- The loop of read_data over the blocks, with `rounds` of them left at block `i`.
unfoldable pub read_blocks : Fs → Transfer → ℕ → ℕ → ℕ → ℕ → Buf → ℕ × Buf
unfolding copy_length
read_blocks fs t zero i bytes_copied bytes_to_copy buf = (bytes_copied, buf)
read_blocks fs t (suc rounds) i bytes_copied bytes_to_copy buf =
    let initial_offset = if i == t.start_block then t.offset % blk_sz else 0 in
    let copy_len = copy_length bytes_to_copy initial_offset in
    let block = inode_block fs t.inode i in
    let source = fs.data_blocks + blk_sz * block + initial_offset in
    let buf' = memcpy_from buf (t.at + bytes_copied) fs.image source copy_len in
    let copied = add32 bytes_copied copy_len in
    let left = sub32 bytes_to_copy copy_len in
    let rest = read_blocks fs t rounds (i + 1) copied left buf' in
    if ltb (block_count fs) block
    then (minus_one, buf)
    else if not (slt32 0 left)
    then (copied, buf')
    else rest

-- `inode < 0` and `block[i] < 0` never hold, for these are unsigned.
unfoldable pub read_data : Fs → ℕ → ℕ → Buf → ℕ → ℕ → ℕ × Buf
unfolding read_blocks
read_data fs inode offset buf at length =
    let file_length = inode_length fs inode in
    let blocks_used = add32 (sdiv32 file_length blk_sz) 1 in
    let wanted = if ltb length file_length then length else file_length in
    let mem_location_off = add32 offset length in
    let bytes_to_copy =
      if slt32 (blocks_used * blk_sz % 2 ^ 32) mem_location_off
      then sub32 file_length offset
      else wanted in
    let start_block = offset / blk_sz in
    let rounds = if slt32 start_block blocks_used then blocks_used - start_block else 0 in
    let t : Transfer = record {
      inode = inode;
      offset = offset;
      at = at;
      start_block = start_block;
    } in
    let copied = read_blocks fs t rounds start_block 0 bytes_to_copy buf in
    if ltb (inode_count fs) inode || (at == 0)
    then (minus_one, buf)
    else if ltb file_length offset || (length == 0) || (file_length == 0)
    then (minus_one, buf)
    else copied

-- dread, with the file system that holds the new dread_loc. `temp` is the uninitialised local.
unfoldable pub dread : ℕ → Fs → Buf → Buf → ℕ → Option (ℕ × Buf × Fs)
dread fuel fs temp buf at =
    if ltb (dir_entries fs) (add32 fs.dread_loc 1)
    then some (0, buf, record fs { dread_loc = 0 })
    else do
      (_, entry) ← read_dentry_by_index fuel fs fs.dread_loc temp
      n ← strlen fuel entry 0
      some (n, strncpy buf at entry 0 file_name_len, record fs { dread_loc = add32 fs.dread_loc 1 })

-- The operations that do nothing.
unfoldable pub fclose : ℕ
fclose = 0

unfoldable pub fwrite : ℕ
fwrite = minus_one

unfoldable pub dopen : ℕ
dopen = 0

unfoldable pub dclose : ℕ
dclose = 0

unfoldable pub dwrite : ℕ
dwrite = 0

unfoldable pub fopen : ℕ → Fs → Buf → ℕ → Buf → Option ℕ
fopen fuel fs fname p temp = do
  (found, _) ← read_dentry_by_name fuel fs fname p temp
  some (if found == minus_one then minus_one else 0)
