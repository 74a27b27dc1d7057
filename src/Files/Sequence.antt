-- ===== src/Files/Sequence.antt =====
-- Reads of a regular file through its descriptor: fread of student-distrib/filesystem.c.
use boz_os.Prelude.{
  ℕ, ◌+◌, ◌-◌, ◌^◌, ◌≤◌, ◌<◌, ◌≡◌, ◌≢◌, ◌⊎◌, refl, ap, sym, ◌∙◌, add32, Buf, arith, ◌*◌, ◌/◌, ◌%◌,
  ◌&&◌, if◌then◌else◌, leb, ltb,
}
use mathlib.Core.Path.{subst, subst₂}
use boz_os.Filesystem.{Fs, blk_sz, inode_count, inode_length, read_data, inode_block}
use boz_os.Filesystem.Blocks.{stream, Holds, Holds-append}
use boz_os.Filesystem.Reading.{Accepted, ChainTo, read_data-within}
use boz_os.State.{Kernel, Fd}
use boz_os.Files.Descriptors.{set_fd_own, set_fd_frame}
use boz_os.Files.{set_fd, fd_at, fread}

-- The file behind the descriptor has `n` more bytes, in blocks that the code accepts, and its length
-- fits an `int32_t`.
pub record Left (k : Kernel) (p fd n : ℕ) : Type 0 where
  pub inode_ok : (fd_at k p fd).inode_number ≤ inode_count k.fs
  pub file_fits : inode_length k.fs (fd_at k p fd).inode_number < 2 ^ 31 - blk_sz
  pub inside : (fd_at k p fd).file_position + n ≤ inode_length k.fs (fd_at k p fd).inode_number
  pub chain : ChainTo k.fs (fd_at k p fd).inode_number ((fd_at k p fd).file_position + n)

-- The call returns `n`, with the next `n` bytes of the file in the buffer and the position moved past
-- them; nothing else has changed.
abbrev pub Reads : Kernel → ℕ → ℕ → Buf → ℕ → ℕ → ℕ × Buf × Kernel → Type 0
Reads k p fd buf at n (status, buf', k') =
    (status ≡ n)
    × Holds k.fs (fd_at k p fd).inode_number (fd_at k p fd).file_position at n buf buf'
    × (fd_at k' p fd ≡ record (fd_at k p fd) { file_position = (fd_at k p fd).file_position + n })
    × ((q j : ℕ) → (q ≢ p) ⊎ (j ≢ fd) → fd_at k' q j ≡ fd_at k q j)
    × (k'.fs ≡ k.fs)

set_fd_fs : (k : Kernel) (p fd : ℕ) (d : Fd) → (set_fd k p fd d).fs ≡ k.fs
unfolding set_fd
set_fd_fs k p fd d = refl

-- A read of some bytes that the file has left returns that number, puts exactly the next bytes of the
-- file into the buffer, moves the position past them, and changes nothing else.
pub fread-Reads :
    (k : Kernel) (p fd : ℕ) (buf : Buf) (at n : ℕ)
    → Left k p fd n
    → at ≢ 0
    → 0 < n
    → Reads k p fd buf at n (fread k p fd buf at n)
unfolding fread
fread-Reads k p fd buf at n left not_null some_bytes =
    let d = fd_at k p fd in
    let ok : Accepted k.fs d.inode_number d.file_position at n = record {
      inode_ok = left.inode_ok;
      not_null = not_null;
      some_bytes = some_bytes;
      within = omega (arith, left.inside);
      fits = omega (arith, left.inside, left.file_fits);
      file_fits = left.file_fits;
    } in
    let r =
      read_data-within k.fs d.inode_number d.file_position buf at n ok left.inside left.chain in
    let result = read_data k.fs d.inode_number d.file_position buf at n in
    let position : add32 d.file_position result.0 ≡ d.file_position + n =
      omega (arith, r.0, left.inside, left.file_fits) in
    let run : fread k p fd buf at n ≡ (
      result.0,
      result.1,
      set_fd k p fd (record d { file_position = add32 d.file_position result.0 }),
    ) =
      ground (arith, r.0, left.inside, left.file_fits) in
    subst (Reads k p fd buf at n) (sym run) (
      r.0,
      r.1,
      set_fd_own k p fd _ ∙ ap (λ v. record d { file_position = v }) position,
      set_fd_frame k p fd _,
      set_fd_fs k p fd _,
    )

Left-first : (k : Kernel) (p fd n m : ℕ) → Left k p fd (n + m) → Left k p fd n
Left-first k p fd n m left = record {
  inode_ok = left.inode_ok;
  file_fits = left.file_fits;
  inside = omega (arith, left.inside);
  chain = λ j h. left.chain j (omega arith);
}

Left-rest :
    (k k₁ : Kernel) (p fd n m : ℕ)
    → Left k p fd (n + m)
    → fd_at k₁ p fd ≡ record (fd_at k p fd) { file_position = (fd_at k p fd).file_position + n }
    → k₁.fs ≡ k.fs
    → Left k₁ p fd m
Left-rest k k₁ p fd n m left e f = record {
  inode_ok = rw (f, e) left.inode_ok;
  file_fits = rw (f, e) left.file_fits;
  inside = rw (f, e) (omega (arith, left.inside));
  chain = λ j h. rw (f, e) (left.chain j (let h' = rw e at h in omega (arith, h')));
}

-- The byte `i` of the file of an inode: the byte `i % 4096` of its data block number `i / 4096`.
abbrev pub file_byte : Fs → ℕ → ℕ → ℕ
file_byte fs inode i = fs.image (fs.data_blocks + 4096 * inode_block fs inode (i / 4096) + i % 4096)

stream-file_byte : (fs : Fs) (inode i : ℕ) → stream fs inode i ≡ file_byte fs inode i
unfolding stream
stream-file_byte fs inode i = refl

-- Two reads of some bytes each that the file has left, in blocks that the code accepts, into a buffer
-- that is not NULL, the second with its buffer behind the first's, do what one read of the sum does: the
-- second returns its count, and the buffer and the descriptor are the same in the end. The buffer then
-- has the bytes of the file from the position of the first read on, each in its place, and outside
-- what it held before.
pub fread-split :
    (k : Kernel) (p fd : ℕ) (buf : Buf) (at n m : ℕ)
    → Left k p fd (n + m)
    → at ≢ 0
    → 0 < n
    → 0 < m
    → let (_, buf₁, k₁) = fread k p fd buf at n in
      let (status, buf₂, k₂) = fread k₁ p fd buf₁ (at + n) m in
      let (_, buf', k') = fread k p fd buf at (n + m) in
      (status ≡ m)
      × ((q : ℕ) → buf₂ q ≡ buf' q)
      × (fd_at k₂ p fd ≡ fd_at k' p fd)
      × ((q : ℕ)
          → buf₂ q ≡ (
              if leb at q && ltb q (at + (n + m))
              then file_byte k.fs
                  (fd_at k p fd).inode_number
                  ((fd_at k p fd).file_position + (q - at))
              else buf q))
fread-split k p fd buf at n m left not_null some_bytes more =
    let first = fread-Reads k p fd buf at n (Left-first k p fd n m left) not_null some_bytes in
    let r₁ = fread k p fd buf at n in
    let moved = first.2 in
    let same = first.4 in
    let second =
      fread-Reads r₁.2 p fd r₁.1 (at + n) m (Left-rest k r₁.2 p fd n m left moved same)
        (omega arith) more in
    let whole = fread-Reads k p fd buf at (n + m) left not_null (omega arith) in
    let r₂ = fread r₁.2 p fd r₁.1 (at + n) m in
    let later : Holds k.fs (fd_at k p fd).inode_number ((fd_at k p fd).file_position + n) (at + n) m
        r₁.1 r₂.1 =
      subst₂ (λ (fs : Fs) (d : Fd). Holds fs d.inode_number d.file_position (at + n) m r₁.1 r₂.1)
        same moved second.1 in
    let joined =
      Holds-append k.fs (fd_at k p fd).inode_number (fd_at k p fd).file_position at n m (at + n)
        (n + m) buf r₁.1 r₂.1 first.1 later refl refl in
    (
      second.0,
      λ q. joined q ∙ sym (whole.1 q),
      second.2
          ∙ ap (λ (d : Fd). record d { file_position = d.file_position + m }) moved
          ∙ ap (λ v. record (fd_at k p fd) { file_position = v }) (omega arith)
          ∙ sym whole.2,
      λ q.
          joined q
          ∙ ap (λ (b : ℕ). if leb at q && ltb q (at + (n + m)) then b else buf q)
              (stream-file_byte k.fs (fd_at k p fd).inode_number
                ((fd_at k p fd).file_position + (q - at))),
    )
