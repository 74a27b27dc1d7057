-- ===== src/Filesystem/Reading.antt =====
-- read_data of student-distrib/filesystem.c as its callers see it.
use boz_os.Prelude.{
  ℕ, ◌+◌, ◌-◌, ◌*◌, ◌/◌, ◌%◌, ◌^◌, ◌≤◌, ◌<◌, ◌≡◌, ◌≢◌, ◌∙◌, ◌⊎◌, inl, inr, refl, ◌||◌, false, arith,
  ltb, ◌==◌, if◌then◌else◌, minus_one, slt32, add32, sub32, sdiv32, Buf,
}
use Prim.Native.Nat.{min}
use boz_os.Filesystem.{
  Fs, Transfer, blk_sz, inode_count, inode_length, inode_block, block_count, read_data,
}
use boz_os.Filesystem.Blocks.{Holds, read_blocks_lem}

-- The number of bytes that the code sets out to copy.
abbrev pub wanted : ℕ → ℕ → ℕ → ℕ
wanted file_length offset length =
    if ltb (blk_sz * (file_length / blk_sz + 1)) (offset + length)
    then file_length - offset
    else min length file_length

-- The number that it copies: it stops at the end of the last block.
abbrev pub transferred : ℕ → ℕ → ℕ → ℕ
transferred file_length offset length =
    min (wanted file_length offset length) (blk_sz * (file_length / blk_sz + 1) - offset)

-- A call that read_data does not refuse, with numbers that fit an `int32_t`.
pub record Accepted (fs : Fs) (inode offset at length : ℕ) : Type 0 where
  pub inode_ok : inode ≤ inode_count fs
  pub not_null : at ≢ 0
  pub some_bytes : 0 < length
  pub within : offset < inode_length fs inode
  pub fits : offset + length < 2 ^ 31
  pub file_fits : inode_length fs inode < 2 ^ 31 - blk_sz

-- Every block of the chain up to the byte `end` of the file is a number that the code accepts.
abbrev pub ChainTo : Fs → ℕ → ℕ → Type 0
ChainTo fs inode end = (j : ℕ) → blk_sz * j < end → inode_block fs inode j ≤ block_count fs

module _ (fs : Fs) (inode offset : ℕ) (buf : Buf) (at length : ℕ)
    (ok : Accepted fs inode offset at length) where
  pub read_data_lem :
      ChainTo fs inode (offset + wanted (inode_length fs inode) offset length)
      → let n = transferred (inode_length fs inode) offset length in
        let (status, buf') = read_data fs inode offset buf at length in
        (status ≡ n) × Holds fs inode offset at n buf buf'
  unfolding read_data
  read_data_lem chain =
      let len = inode_length fs inode in
      let used : add32 (sdiv32 len blk_sz) 1 ≡ len / blk_sz + 1 = ground arith in
      let blocks = len / blk_sz + 1 in
      let found : (ltb (inode_count fs) inode || (at == 0)) ≡ false =
        ground (arith, ok.inode_ok, ok.not_null) in
      let asked : (ltb len offset || (length == 0) || (len == 0)) ≡ false =
        ground (arith, ok.some_bytes, ok.within) in
      let over : slt32 (blocks * blk_sz % 2 ^ 32) (add32 offset length)
          ≡ ltb (blk_sz * blocks) (offset + length) =
        ground (arith, ok.fits, ok.file_fits) in
      let tail : sub32 len offset ≡ len - offset = omega (arith, ok.within, ok.file_fits) in
      let lesser : (if ltb length len then length else len) ≡ min length len = ground arith in
      let rounds : (if slt32 (offset / blk_sz) blocks then blocks - offset / blk_sz else 0)
          ≡ blocks - offset / blk_sz =
        ground (arith, ok.within, ok.file_fits) in
      let t : Transfer = record {
        inode = inode;
        offset = offset;
        at = at;
        start_block = offset / blk_sz;
      } in
      let left = wanted len offset length in
      let copied =
        read_blocks_lem fs t (blocks - offset / blk_sz) (offset / blk_sz) offset 0 left
          (transferred len offset length) buf refl (ground arith) (omega arith)
          (ground (arith, ok.some_bytes, ok.within)) (ground (arith, ok.fits, ok.file_fits))
          (ground (arith, ok.within)) chain in
      let there : t.at + 0 ≡ at = omega arith in
      let sum : 0 + transferred len offset length ≡ transferred len offset length = omega arith in
      rw (used, found, asked, over, tail, lesser, rounds) (copied.0 ∙ sum, rw there at copied.1)

  -- A read that stays within the file returns the number of bytes asked for, puts exactly those
  -- bytes of the file into the buffer, and changes no other byte.
  pub read_data-within :
      offset + length ≤ inode_length fs inode
      → ChainTo fs inode (offset + length)
      → let (status, buf') = read_data fs inode offset buf at length in
        (status ≡ length) × Holds fs inode offset at length buf buf'
  read_data-within inside chain =
      let len = inode_length fs inode in
      let all : wanted len offset length ≡ length = ground arith in
      let n : transferred len offset length ≡ length = ground arith in
      let r = read_data_lem (λ j h. chain j (omega (arith, all))) in (r.0 ∙ n, rw n at r.1)

  -- A read that starts behind the first byte, and whose end lies behind the end of the file but not
  -- behind its last block, returns more bytes than the file has from `offset` on, unless the block
  -- ends with the file. What it returns are the bytes of the block.
  pub read_data-past_end :
      0 < offset
      → inode_length fs inode < offset + length
      → offset + length ≤ blk_sz * (inode_length fs inode / blk_sz + 1)
      → ChainTo fs inode (offset + length)
      → let (status, buf') = read_data fs inode offset buf at length in
        (status ≡ min length (inode_length fs inode))
        × (inode_length fs inode < offset + status)
        × Holds fs inode offset at status buf buf'
  read_data-past_end later beyond block chain =
      let len = inode_length fs inode in
      let n : transferred len offset length ≡ min length len = ground arith in
      let all : wanted len offset length ≡ min length len = ground arith in
      let r = read_data_lem (λ j h. chain j (omega (arith, all))) in
      let status = r.0 ∙ n in (status, omega (arith, status, ok.within), rw (← r.0) at r.1)

-- read_data refuses, with -1 and the buffer as it was, an inode number above the count, a NULL
-- buffer, an offset behind the end of the file, an empty request and an empty file.
pub read_data-refused :
    (fs : Fs) (inode offset : ℕ) (buf : Buf) (at length : ℕ)
    → (inode_count fs < inode)
      ⊎ (at ≡ 0)
      ⊎ (inode_length fs inode < offset)
      ⊎ (length ≡ 0)
      ⊎ (inode_length fs inode ≡ 0)
    → read_data fs inode offset buf at length ≡ (minus_one, buf)
unfolding read_data
read_data-refused fs inode offset buf at length (inl h) = ground arith
read_data-refused fs inode offset buf at length (inr (inl h)) = ground arith
read_data-refused fs inode offset buf at length (inr (inr (inl h))) = ground arith
read_data-refused fs inode offset buf at length (inr (inr (inr (inl h)))) = ground arith
read_data-refused fs inode offset buf at length (inr (inr (inr (inr h)))) = ground arith
