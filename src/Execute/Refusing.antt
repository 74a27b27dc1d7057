-- ===== src/Execute/Refusing.antt =====
-- Step 2 of execute in student-distrib/syscalls.c: which files it takes for programs.
use boz_os.Prelude.{
  if_false, ℕ, ◌+◌, ◌-◌, ◌*◌, ◌^◌, ◌<◌, ◌≤◌, ◌≡◌, ◌⊎◌, inl, inr, refl, ap, ◌∙◌, arith, bit_or, true,
  false, some, none, ltb, leb, not, ◌==◌, ◌&&◌, if◌then◌else◌, Buf, Bool, minus_one, Option,
  Bool-cases,
}
use boz_os.State.{Kernel}
use boz_os.Filesystem.{
  Fs, inode_count, inode_length, blk_sz, read_data, read_dentry_by_name, dentry_inode,
}
use boz_os.Filesystem.Blocks.{stream}
use boz_os.Filesystem.Reading.{Accepted, ChainTo, read_data-within}
use boz_os.Files.{Env}
use boz_os.Execute.{Command, answers, stack_at, parse_command, entry_pt_addr, check_file, execute}

-- A file with a header of 28 bytes on blocks that the disk has.
pub record HasHeader (fs : Fs) (inode : ℕ) : Type 0 where
  pub inode_ok : inode ≤ inode_count fs
  pub long : 28 ≤ inode_length fs inode
  pub fits : inode_length fs inode < 2 ^ 31 - blk_sz
  pub chain : ChainTo fs inode 28

-- The file starts with the four bytes of an executable.
abbrev pub has_magic : Fs → ℕ → Bool
has_magic fs inode =
    (stream fs inode 0 == 0x7F)
    && (stream fs inode 1 == 0x45)
    && (stream fs inode 2 == 0x4C)
    && (stream fs inode 3 == 0x46)

-- Bytes 24 to 27, the low one first.
abbrev pub entry_of : Fs → ℕ → ℕ
entry_of fs inode =
    bit_or
      (bit_or (bit_or (bit_or 0 (stream fs inode 24)) (stream fs inode 25 * 2 ^ 8))
        (stream fs inode 26 * 2 ^ 16))
      (stream fs inode 27 * 2 ^ 24)

header_read :
    (fs : Fs) (inode offset : ℕ) (temp : Buf)
    → HasHeader fs inode
    → offset + 4 ≤ 28
    → let (status, buf) = read_data fs inode offset temp stack_at 4 in
      (status ≡ 4)
      × (buf stack_at ≡ stream fs inode offset)
      × (buf (stack_at + 1) ≡ stream fs inode (offset + 1))
      × (buf (stack_at + 2) ≡ stream fs inode (offset + 2))
      × (buf (stack_at + 3) ≡ stream fs inode (offset + 3))
header_read fs inode offset temp header h =
    let ok : Accepted fs inode offset stack_at 4 = record {
      inode_ok = header.inode_ok;
      not_null = omega arith;
      some_bytes = omega arith;
      within = omega (arith, header.long);
      fits = omega arith;
      file_fits = header.fits;
    } in
    let r =
      read_data-within fs inode offset temp stack_at 4 ok (omega (arith, h, header.long))
        (λ j l. header.chain j (omega (arith, h, l))) in
    let byte : (i : ℕ)
        → i < 4
        → (read_data fs inode offset temp stack_at 4).1 (stack_at + i)
          ≡ stream fs inode (offset + i) =
      λ i l. held i l _ _ (r.1 (stack_at + i)) in
    (
      r.0,
      byte 0 (omega arith) ∙ ap (stream fs inode) (omega arith),
      byte 1 (omega arith),
      byte 2 (omega arith),
      byte 3 (omega arith),
    )
  where
    held :
        (i : ℕ)
        → i < 4
        → (b v : ℕ)
        → v ≡ (
            if leb stack_at (stack_at + i) && ltb (stack_at + i) (stack_at + 4)
            then stream fs inode (offset + (stack_at + i - stack_at))
            else b)
        → v ≡ stream fs inode (offset + i)
    held i l b v e = ground (arith, e)

tests-in_turn :
    (a b c d : Bool) (x : Option ℕ)
    → (if not (if not a then false else if not b then false else if not c then false else d)
        then none
        else x)
      ≡ (if a && b && c && d then x else none)
tests-in_turn false b c d x = refl
tests-in_turn true false c d x = refl
tests-in_turn true true false d x = refl
tests-in_turn true true true false x = refl
tests-in_turn true true true true x = refl

-- The check of a file of 28 bytes at least, whose first 28 bytes stand on blocks of the disk: it
-- passes exactly if the file starts with the four bytes of an executable, and then gives the bytes
-- 24 to 27 as the entry point, the low one first.
pub check_file-magic :
    (temp : Buf) (fs : Fs) (inode : ℕ)
    → HasHeader fs inode
    → check_file temp fs inode ≡ (if has_magic fs inode then some (entry_of fs inode) else none)
unfolding check_file entry_pt_addr
check_file-magic temp fs inode header =
    let first = header_read fs inode 0 temp header (omega arith) in
    let entry = header_read fs inode 24 temp header (omega arith) in
    rw (first.0, first.1, first.2, first.3, first.4, entry.0, entry.1, entry.2, entry.3, entry.4)
      (tests-in_turn (stream fs inode 0 == 0x7F) (stream fs inode 1 == 0x45)
        (stream fs inode 2 == 0x4C) (stream fs inode 3 == 0x46) (some (entry_of fs inode)))

-- execute of a name that is not in the directory, or of a file of 28 bytes at least on blocks of
-- the disk that does not start with the four bytes of an executable, if the command can be taken
-- apart: it answers -1 and changes nothing.
pub execute-refused :
    (env : Env) (k : Kernel) (eflags esp ebp : ℕ) (command : Buf) (at : ℕ) (c : Command)
    (status : ℕ) (dentry : Buf)
    → parse_command env.temp command at ≡ some c
    → read_dentry_by_name env.fuel k.fs c.cmd1 0 env.temp ≡ some (status, dentry)
    → (status ≡ minus_one)
      ⊎ (HasHeader k.fs (dentry_inode dentry) × (has_magic k.fs (dentry_inode dentry) ≡ false))
    → execute env k eflags esp ebp command at ≡ some (answers minus_one k)
unfolding execute
execute-refused env k eflags esp ebp command at c status dentry parsed found (inl missing) =
    rw (parsed, found, missing) refl
execute-refused env k eflags esp ebp command at c status dentry parsed found (inr (header, plain)) =
    let no : check_file env.temp k.fs (dentry_inode dentry) ≡ none =
      check_file-magic env.temp k.fs (dentry_inode dentry) header ∙ if_false _ _ plain in
    elim (Bool-cases (status == minus_one)) [
      | inl missing ↦ rw (parsed, found, missing) refl
      | inr there ↦ rw (parsed, found, there, no) refl
    ]
