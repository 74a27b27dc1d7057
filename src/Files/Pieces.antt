-- ===== src/Files/Pieces.antt =====
-- A regular file read in pieces of 1024 bytes, and its bytes written to the terminal: fread of
-- student-distrib/filesystem.c and terminal_write of terminal.c.
use boz_os.Prelude.{
  true, ℕ, zero, suc, ◌+◌, ◌-◌, ◌*◌, ◌/◌, ◌%◌, ◌^◌, ◌≤◌, ◌<◌, ◌≡◌, ◌≢◌, ◌⊎◌, inl, inr, refl, ap,
  ◌∙◌, arith, false, ltb, leb, ◌==◌, ==_of_ne, if◌then◌else◌, minus_one, add32, slt32, Buf, ◌||◌,
  Bool-cases,
}
use native.Mathlib.Decide.{ℕ_discrete}
use boz_os.Filesystem.{Fs, blk_sz, inode_count, inode_length, read_data}
use boz_os.Filesystem.Blocks.{Holds}
use boz_os.Filesystem.Reading.{Accepted, ChainTo, wanted, transferred, read_data_lem}
use boz_os.State.{Kernel, Fd}
use boz_os.Screen.Stream.{putc_stream}
use boz_os.Files.{putc, set_fd, fd_at, fread, write_bytes, terminal_write}

-- The bytes that a read of 1024 gives in a file of length `len`, before its end.
abbrev pub piece : ℕ → ℕ
piece len = if ltb len 1024 then len else 1024

-- The bytes that all the reads give: a file of 1024 bytes or more is rounded up to whole pieces.
abbrev pub pieces : ℕ → ℕ
pieces len = if ltb len 1024 then len else 1024 * ((len + 1023) / 1024)

-- A position at which a piece starts, or the end.
abbrev pub AtPiece : ℕ → ℕ → ℕ → Type 0
AtPiece len pos left = (pos + left ≡ pieces len) × ((left ≡ 0) ⊎ ((pos % 1024 ≡ 0) × (pos < len)))

pub AtPiece-start : (len : ℕ) → AtPiece len 0 (pieces len)
AtPiece-start len = elim (ℕ_discrete len 0) [
  | yes e ↦ (omega arith, inl (ground (arith, e)))
  | no ne ↦ (omega arith, inr (refl, omega arith))
]

pub AtPiece-next :
    (len pos left : ℕ)
    → AtPiece len pos left
    → pos < len
    → pos % 1024 ≡ 0
    → (piece len ≤ left) × AtPiece len (pos + piece len) (left - piece len)
AtPiece-next len pos left (e, _) l m = elim (Bool-cases (ltb len 1024)) [
  | inl short ↦
      let first : pos ≡ 0 = ground (arith, short) in
      let all : left ≡ len = ground (arith, short, e, first) in
      rw short (omega arith, (omega arith, inl (omega arith)))
  | inr long ↦
      let e' : pos + left ≡ 1024 * ((len + 1023) / 1024) = ground (arith, long, e) in
      rw long (omega arith, (omega arith, more e'))
]
  where
    more :
        pos + left ≡ 1024 * ((len + 1023) / 1024)
        → (left - 1024 ≡ 0) ⊎ (((pos + 1024) % 1024 ≡ 0) × (pos + 1024 < len))
    more e' = elim (ℕ_discrete left 1024) [
      | yes same ↦ inl (omega arith)
      | no ne ↦ inr (omega arith, omega arith)
    ]

transferred-piece :
    (len pos : ℕ) → pos < len → pos % 1024 ≡ 0 → transferred len pos 1024 ≡ piece len
transferred-piece len pos l m = ground arith

within_pieces : (len pos : ℕ) → pos < len → pos % 1024 ≡ 0 → pos + wanted len pos 1024 ≤ pieces len
within_pieces len pos l m = ground arith

chain_pieces : (fs : Fs) (inode len : ℕ) → ChainTo fs inode len → ChainTo fs inode (pieces len)
chain_pieces fs inode len chain j h = chain j (ground (arith, h))

-- A file open at a descriptor, in blocks that the code accepts.
pub record IsFile (fs : Fs) (d : Fd) : Type 0 where
  pub inode_ok : d.inode_number ≤ inode_count fs
  pub file_fits : inode_length fs d.inode_number < 2 ^ 31 - blk_sz
  pub chain : ChainTo fs d.inode_number (inode_length fs d.inode_number)

-- A read of 1024 bytes before the end of the file gives one piece, and moves the position past it.
pub fread-piece :
    (k : Kernel) (p fd : ℕ) (buf : Buf) (at : ℕ) (fs : Fs) (d : Fd)
    → k.fs ≡ fs
    → fd_at k p fd ≡ d
    → IsFile fs d
    → at ≢ 0
    → d.file_position < inode_length fs d.inode_number
    → d.file_position % 1024 ≡ 0
    → let n = piece (inode_length fs d.inode_number) in
      (buf' : Buf) × (fread k p fd buf at 1024
        ≡ (n, buf', set_fd k p fd (record d { file_position = d.file_position + n })))
      × Holds fs d.inode_number d.file_position at n buf buf'
unfolding fread
fread-piece k p fd buf at fs d same_fs same_fd file not_null l m =
    let len = inode_length fs d.inode_number in
    let ok : Accepted fs d.inode_number d.file_position at 1024 = record {
      inode_ok = file.inode_ok;
      not_null = not_null;
      some_bytes = omega arith;
      within = l;
      fits = omega (arith, l, file.file_fits);
      file_fits = file.file_fits;
    } in
    let r = read_data_lem fs d.inode_number d.file_position buf at 1024 ok (λ j h.
      chain_pieces fs d.inode_number len file.chain j
        (omega (arith, h, within_pieces len d.file_position l m))) in
    let n : transferred len d.file_position 1024 ≡ piece len =
      transferred-piece len d.file_position l m in
    let status : (read_data fs d.inode_number d.file_position buf at 1024).0 ≡ piece len =
      r.0 ∙ n in
    let small : piece len ≤ 1024 = ground arith in
    let before : leb len d.file_position ≡ false = ground (arith, l) in
    let fine : (piece len == minus_one) ≡ false =
      ==_of_ne (piece len) minus_one (omega (arith, small)) in
    let sum : add32 d.file_position (piece len) ≡ d.file_position + piece len =
      omega (arith, l, file.file_fits, small) in
    (
      (read_data fs d.inode_number d.file_position buf at 1024).1,
      rw (same_fs, same_fd) (rw (before, status, fine, sum) refl),
      rw n at r.1,
    )

-- Behind the last piece a read gives nothing.
pub fread-end :
    (k : Kernel) (p fd : ℕ) (buf : Buf) (at n : ℕ)
    → inode_length k.fs (fd_at k p fd).inode_number ≤ (fd_at k p fd).file_position
    → fread k p fd buf at n ≡ (0, buf, k)
unfolding fread
fread-end k p fd buf at n h =
    let past : leb (inode_length k.fs (fd_at k p fd).inode_number) (fd_at k p fd).file_position
        ≡ true =
      ground (arith, h) in
    rw past refl

-- The bytes written are those of `f`, one after the other.
write_bytes-stream :
    (f : ℕ → ℕ) (text : ℕ) (buf : Buf) (at rounds i pos : ℕ) (k : Kernel)
    → text ≢ 1
    → ((j : ℕ) → j < rounds → buf (at + (i + j)) ≡ f (pos + j))
    → write_bytes k text buf at rounds i ≡ (i + rounds, putc_stream f rounds pos k)
unfolding write_bytes putc_stream
write_bytes-stream f text buf at zero i pos k plain same = ap (λ i. (i, k)) (omega arith)
write_bytes-stream f text buf at (suc rounds) i pos k plain same =
    let first : buf (at + i) ≡ f pos =
      ap (λ q. buf (at + q)) {y = i + 0} (omega arith)
      ∙ same 0 (omega arith)
      ∙ ap f {y = pos} (omega arith) in
    let later =
      write_bytes-stream f text buf at rounds (i + 1) (pos + 1) (putc k (f pos)) plain (λ j l.
        ap (λ q. buf (at + q)) {y = i + suc j} (omega arith)
        ∙ same (suc j) (omega arith)
        ∙ ap f {y = pos + 1 + j} (omega arith)) in
    rw (==_of_ne text 1 plain) (
      ap (λ c. write_bytes (putc k c) text buf at rounds (i + 1)) first
      ∙ later
      ∙ ap (λ i. (i, putc_stream f rounds (pos + 1) (putc k (f pos)))) (omega arith))

pub terminal_write-stream :
    (f : ℕ → ℕ) (k : Kernel) (p fd : ℕ) (buf : Buf) (at n pos : ℕ)
    → at ≢ 0
    → n < 2 ^ 31
    → (fd_at k p fd).text_file_flag ≢ 1
    → ((j : ℕ) → j < n → buf (at + j) ≡ f (pos + j))
    → terminal_write k p fd buf at n ≡ (n, putc_stream f n pos k)
unfolding terminal_write
terminal_write-stream f k p fd buf at n pos not_null small plain same =
    let fine : ((at == 0) || slt32 n 0) ≡ false = ground (arith, not_null, small) in
    rw fine (
      write_bytes-stream f (fd_at k p fd).text_file_flag buf at n 0 pos k plain
        (λ j l. ap (λ q. buf (at + q)) {y = j} (omega arith) ∙ same j l)
      ∙ ap (λ i. (i, putc_stream f n pos k)) (omega arith))
