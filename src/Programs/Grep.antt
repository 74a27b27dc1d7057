-- ===== src/Programs/Grep.antt =====
-- The program grep, syscalls/ece391grep.c. The array `data` of 1025 bytes is called `bytes` here.
use boz_os.Prelude.{
  ℕ, zero, suc, ◌+◌, ◌-◌, ◌&&◌, not, Bool, true, false, Option, none, some, ltb, leb, ◌==◌,
  if◌then◌else◌, ◌>>=◌, minus_one, Buf, store,
}
use boz_os.Clib.Strings.{ece391_strncmp}
use boz_os.Clib.Support.{ece391_strlen, ece391_strcpy}
use boz_os.Programs.{Calls, local_at, ece391_fdputs, message, placed}

-- `while (line_end < last && '\n' != data[line_end]) line_end++`, with `last - line_end` rounds to go.
unfoldable pub scan_line : Buf → ℕ → ℕ → ℕ
scan_line bytes zero line_end = line_end
scan_line bytes (suc rounds) line_end =
    let rest = scan_line bytes rounds (line_end + 1) in
    if not (bytes (local_at + line_end) == b'\n') then rest else line_end

-- The comparison at `check`. `s` is of signed characters, `data` of unsigned ones, so a first character
-- of 128 or more is equal to none.
unfoldable pub matches : Buf → ℕ → Buf → ℕ → Bool
matches s s_len bytes check =
    ltb (s local_at) 128
    && (s local_at == bytes (local_at + check))
    && (ece391_strncmp bytes (local_at + check) s local_at s_len == 0)

-- Whether the loop over `check` finds a match, with `line_end - check` rounds to go.
unfoldable pub search_line : Buf → ℕ → Buf → ℕ → ℕ → Bool
search_line s s_len bytes zero check = false
search_line s s_len bytes (suc rounds) check =
    let rest = search_line s s_len bytes rounds (check + 1) in
    if matches s s_len bytes check then true else rest

module _ {S : Type 0} (c : Calls S) where
  -- The four prints for a match; `data` has a terminator at the end of the line.
  unfoldable pub print_match : Buf → Buf → ℕ → S → Option S
  print_match fname bytes line_start st = do
    st1 ← ece391_fdputs c 34 1 fname local_at st
    st2 ← message c ":" st1
    st3 ← ece391_fdputs c 1026 1 bytes (local_at + line_start) st2
    message c "\n" st3

  -- The inner loop over the lines of `data`, which has `last` bytes: what is in it behind the loop, and
  -- the new `last`. The copy of the part of a line goes downwards over itself, which copies what the
  -- array holds before it. `fuel` exceeds `last`.
  unfoldable pub grep_lines :
      ℕ → Buf → ℕ → Buf → (cnt last line_start : ℕ) → Buf → S → Option (Buf × ℕ × S)
  grep_lines zero s s_len fname cnt last line_start bytes st = none
  grep_lines (suc fuel) s s_len fname cnt last line_start bytes st =
      let line_end = scan_line bytes (last - line_start) line_start in
      let ended = store bytes (local_at + line_end) 0 in
      let part = (do
        moved ← ece391_strcpy 1025 ended local_at ended (local_at + line_start)
        some (moved, last - line_start, st)) in
      let whole = (do
        st1 ←
            if search_line s s_len ended (line_end - line_start) line_start
            then print_match fname ended line_start st
            else some st
        let rest = grep_lines fuel s s_len fname cnt last (line_end + 1) ended st1
        if leb last (line_end + 1) then some (ended, 0, st1) else rest) in
      if not (bytes (local_at + line_end) == b'\n') && not (cnt == 0) && not (line_start == 0)
      then part
      else whole

  -- The outer loop; `fuel` exceeds its rounds.
  unfoldable pub grep_file : ℕ → Buf → ℕ → Buf → (fd last : ℕ) → Buf → S → Option (ℕ × S)
  unfolding grep_lines
  grep_file zero s s_len fname fd last bytes st = none
  grep_file (suc fuel) s s_len fname fd last bytes st = do
    (cnt, bytes1, st1) ← c.ece391_read fd bytes (local_at + last) (1024 - last) st
    let failed = (do st2 ← message c "file read failed\n" st1; some (minus_one, st2))
    let go = (do
      (bytes2, last', st2) ← grep_lines 1025 s s_len fname cnt (last + cnt) 0 bytes1 st1
      let closed = (do
        (status, st3) ← c.ece391_close fd st2
        let unclosed = (do st4 ← message c "file close failed\n" st3; some (minus_one, st4))
        if status == minus_one then unclosed else some (0, st3))
      let rest = grep_file fuel s s_len fname fd last' bytes2 st2
      if cnt == 0 then closed else rest)
    if cnt == minus_one then failed else go

  unfoldable pub do_one_file : ℕ → Buf → Buf → Buf → S → Option (ℕ × S)
  unfolding grep_file
  do_one_file fuel bytes s fname st = do
    s_len ← ece391_strlen 1024 s local_at
    (fd, st1) ← c.ece391_open fname local_at st
    let failed = (do st2 ← message c "file open failed\n" st1; some (minus_one, st2))
    let go = grep_file fuel s s_len fname fd 0 bytes st1
    if fd == minus_one then failed else go

  -- The loop of main over the directory. `data` is what each file's array holds before.
  unfoldable pub grep_names : ℕ → Buf → Buf → (fd : ℕ) → Buf → S → Option (ℕ × S)
  unfolding do_one_file
  grep_names zero bytes search fd buf st = none
  grep_names (suc fuel) bytes search fd buf st = do
    (cnt, buf1, st1) ← c.ece391_read fd buf local_at 32 st
    let failed = (do st2 ← message c "directory entry read failed\n" st1; some (3, st2))
    let next = grep_names fuel bytes search fd buf1 st1
    let go = (do
      let name = store buf1 (local_at + cnt) 0
      (status, st2) ← do_one_file fuel bytes search name st1
      let rest = grep_names fuel bytes search fd name st2
      if not (status == 0) then some (3, st2) else rest)
    if cnt == 0
        then some (0, st1)
        else if cnt == minus_one
        then failed
        else if buf1 local_at == b'.'
        then next
        else go

  unfoldable pub grep : ℕ → Buf → Buf → Buf → S → Option (ℕ × S)
  unfolding grep_names
  grep fuel bytes buf search st = do
    (status, pattern_text, st1) ← c.ece391_getargs search local_at 1024 st
    let unread = (do st2 ← message c "could not read argument\n" st1; some (3, st2))
    let go = (do
      (fd, st2) ← c.ece391_open (placed ".") local_at st1
      let failed = (do st3 ← message c "directory open failed\n" st2; some (2, st3))
      if fd == minus_one then failed else grep_names fuel bytes pattern_text fd buf st2)
    if not (status == 0) then unread else go
