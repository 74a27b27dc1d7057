-- ===== src/Programs/Cat.antt =====
-- The program cat, syscalls/ece391cat.c.
use boz_os.Prelude.{
  ℕ, zero, suc, Option, none, some, not, ◌==◌, if◌then◌else◌, ◌>>=◌, minus_one, Buf,
}
use boz_os.Programs.{Calls, local_at, message}

module _ {S : Type 0} (c : Calls S) where
  -- The loop; `fuel` exceeds its rounds.
  unfoldable pub cat_loop : ℕ → ℕ → Buf → S → Option (ℕ × S)
  cat_loop zero fd buf st = none
  cat_loop (suc fuel) fd buf st = do
    (cnt, buf1, st1) ← c.ece391_read fd buf local_at 1024 st
    let failed = (do st2 ← message c "file read failed\n" st1; some (3, st2))
    let more = (do
      (status, st2) ← c.ece391_write 1 buf1 local_at cnt st1
      let rest = cat_loop fuel fd buf1 st2
      if status == minus_one then some (3, st2) else rest)
    if cnt == 0 then some (0, st1) else if cnt == minus_one then failed else more

  -- main, with what the array holds before.
  unfoldable pub cat : ℕ → Buf → S → Option (ℕ × S)
  unfolding cat_loop
  cat fuel buf st = do
    (status, name, st1) ← c.ece391_getargs buf local_at 1024 st
    let unread = (do st2 ← message c "could not read arguments\n" st1; some (3, st2))
    let go = (do
      (fd, st2) ← c.ece391_open name local_at st1
      let missing = (do st3 ← message c "file not found\n" st2; some (2, st3))
      if fd == minus_one then missing else cat_loop fuel fd name st2)
    if not (status == 0) then unread else go
