-- ===== src/Filesystem/Blocks.antt =====
-- read_data of student-distrib/filesystem.c: which bytes of the file it copies, and how many.
use boz_os.Prelude.{
  ℕ, zero, suc, ◌+◌, ◌-◌, ◌*◌, ◌/◌, ◌%◌, ◌^◌, ◌≤◌, ◌<◌, ◌≡◌, inl, inr, refl, ◌&&◌, false, arith,
  ltb, leb, ◌==◌, if◌then◌else◌, slt32, add32, sub32, Buf, Bool-cases, ap, ◌∙◌,
}
use Prim.Native.Nat.{min}
use mathlib.Core.Path.{ap₂}
use boz_os.Clib.Asm.{memcpy_from}
use boz_os.Clib.Copy.{memcpy_from_lem}
use boz_os.Filesystem.{Fs, Transfer, blk_sz, inode_block, block_count, read_blocks, copy_length}

-- The byte `k` of the chain of blocks of an inode, whatever the length of the file is.
unfoldable pub stream : Fs → ℕ → ℕ → ℕ
stream fs inode k =
    fs.image (fs.data_blocks + blk_sz * inode_block fs inode (k / blk_sz) + k % blk_sz)

-- `n` bytes of the stream from `from` on have been put at `at`, and nothing else has changed.
abbrev pub Holds : Fs → ℕ → ℕ → ℕ → ℕ → Buf → Buf → Type 0
Holds fs inode from at n buf buf' =
    (q : ℕ)
    → buf' q ≡ (if leb at q && ltb q (at + n) then stream fs inode (from + (q - at)) else buf q)

copy_length_lem :
    (left o : ℕ) → left < 2 ^ 31 → o < blk_sz → copy_length left o ≡ min left (blk_sz - o)
unfolding copy_length
copy_length_lem left o h k = ground arith

stream_block :
    (fs : Fs) (inode pos i o k : ℕ)
    → pos / blk_sz ≡ i
    → pos % blk_sz ≡ o
    → k < blk_sz - o
    → stream fs inode (pos + k)
      ≡ fs.image (fs.data_blocks + blk_sz * inode_block fs inode i + o + k)
unfolding stream
stream_block fs inode pos i o k e e' h =
    let quotient : (pos + k) / blk_sz ≡ i = omega arith in
    let remainder : (pos + k) % blk_sz ≡ o + k = omega arith in
    let at = λ (b r : ℕ). fs.image (fs.data_blocks + blk_sz * inode_block fs inode b + r) in
    ap₂ at quotient remainder ∙ ap fs.image (omega arith)

-- Two pieces of the stream, one behind the other.
pub Holds-append :
    (fs : Fs) (inode pos at a b at' n : ℕ) (buf buf' buf'' : Buf)
    → Holds fs inode pos at a buf buf'
    → Holds fs inode (pos + a) at' b buf' buf''
    → at' ≡ at + a
    → n ≡ a + b
    → Holds fs inode pos at n buf buf''
Holds-append fs inode pos at a b at' n buf buf' buf'' h h' e e' q =
    let shift : at' < suc q → pos + a + (q - at') ≡ pos + (q - at) = λ l. omega arith in
    ground (arith, h q, h' q, shift)

module _ (fs : Fs) (t : Transfer) where
  -- The copy of one block is a piece of the stream.
  block_piece :
      (i pos o at n : ℕ) (buf : Buf)
      → pos / blk_sz ≡ i
      → pos % blk_sz ≡ o
      → n ≤ blk_sz - o
      → Holds fs t.inode pos at n buf
          (memcpy_from buf at fs.image (fs.data_blocks + blk_sz * inode_block fs t.inode i + o) n)
  block_piece i pos o at n buf e e' h q = ground (
    arith,
    memcpy_from_lem n buf at fs.image (fs.data_blocks + blk_sz * inode_block fs t.inode i + o) q,
    stream_block fs t.inode pos i o (q - at) e e',
  )

  -- What the loop does from block `i` on, with the position `pos` of the stream there, and `left`
  -- bytes to copy.
  pub read_blocks_lem :
      (rounds i pos copied left n : ℕ) (buf : Buf)
      → pos / blk_sz ≡ i
      → (if i == t.start_block then t.offset % blk_sz else 0) ≡ pos % blk_sz
      → t.start_block ≤ i
      → 0 < left
      → copied + left < 2 ^ 31
      → n ≡ min left (blk_sz * (i + rounds) - pos)
      → ((j : ℕ) → blk_sz * j < pos + left → inode_block fs t.inode j ≤ block_count fs)
      → let (status, buf') = read_blocks fs t rounds i copied left buf in
        (status ≡ copied + n) × Holds fs t.inode pos (t.at + copied) n buf buf'
  unfolding read_blocks
  read_blocks_lem zero i pos copied left n buf e o s l b en v =
      let none_left : n ≡ 0 = omega arith in rw none_left (omega arith, λ q. ground arith)
  read_blocks_lem (suc rounds) i pos copied left n buf e o s l b en v =
      let rest = pos % blk_sz in
      let c = min left (blk_sz - rest) in
      let taken : copy_length left rest ≡ c =
        copy_length_lem left rest (omega arith) (omega arith) in
      let good : ltb (block_count fs) (inode_block fs t.inode i) ≡ false = ground (arith, v i) in
      let added : add32 copied c ≡ copied + c = omega arith in
      let gone : sub32 left c ≡ left - c = omega arith in
      let at = t.at + copied in
      let buf' =
        memcpy_from buf at fs.image (fs.data_blocks + blk_sz * inode_block fs t.inode i + rest) c in
      let piece : Holds fs t.inode pos at c buf buf' =
        block_piece i pos rest at c buf e refl (omega arith) in
      rw (o, taken, good, added, gone)
        (elim (Bool-cases (slt32 0 (left - c))) [
          | inl more ↦
              let full : c ≡ blk_sz - rest = ground arith in
              let later = min (left - c) (blk_sz * (i + 1 + rounds) - (pos + c)) in
              let next =
                read_blocks_lem rounds (i + 1) (pos + c) (copied + c) (left - c) later buf'
                  (omega arith) (ground arith) (omega arith) (ground arith) (omega arith) refl
                  (λ j h. v j (omega arith)) in
              let sum : n ≡ c + later = omega arith in
              rw more (
                omega (arith, next.0),
                Holds-append fs t.inode pos at c later (t.at + (copied + c)) n buf buf' _ piece
                    next.1 (omega arith) sum,
              )
          | inr done ↦ let whole : n ≡ c = ground arith in rw (done, whole) (refl, piece)
        ])
