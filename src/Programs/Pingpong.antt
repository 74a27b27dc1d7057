-- ===== src/Programs/Pingpong.antt =====
-- The program pingpong, syscalls/ece391pingpong.c. Its loop does not end, so it is modelled letter by
-- letter. START, LOOPMAX and the others are written out as the macros expand.
use boz_os.Prelude.{
  ℕ, zero, suc, ◌+◌, ◌-◌, ◌%◌, Option, some, ◌==◌, if◌then◌else◌, ◌>>=◌, Buf, store,
}
use boz_os.Programs.{Calls, local_at, ece391_fdputs, placed}

-- BUFMAX, STARTLOOP and LOOPMAX
abbrev pub bufmax : ℕ
bufmax = 79 + 2

abbrev pub startloop : ℕ
startloop = 1 + 1

abbrev pub loopmax : ℕ
loopmax = 79 + 2 - 2 - 1

-- `for (...; i < ...; i++) buf[i] = ' ';`, with `rounds` to go at `i`.
unfoldable pub blank : Buf → ℕ → ℕ → Buf
blank buf zero i = buf
blank buf (suc rounds) i = blank (store buf (local_at + i) b' ') rounds (i + 1)

-- The walls.
unfoldable pub init_walls : Buf → Buf
init_walls buf =
    let b1 = store (blank buf bufmax 0) (local_at + (bufmax - 1)) 0 in
    let b2 = store b1 (local_at + (bufmax - 2)) b'\n' in
    let b3 = store b2 (local_at + (bufmax - 3)) b'|' in store b3 (local_at + 1) b'|'

-- The picture with the character at `j`.
unfoldable pub draw : Buf → ℕ → ℕ → Buf
draw buf j curchar = store (blank buf (loopmax - startloop) startloop) (local_at + j) curchar

-- The next letter; `curchar` is a `uint8_t`.
unfoldable pub next_char : ℕ → ℕ
next_char curchar = if curchar == b'Z' then b'A' else (curchar + 1) % 256

module _ {S : Type 0} (c : Calls S) (rtc_fd : ℕ) where
  -- A picture, and the wait for a tick of the clock. `garbage` is the object that the read is given.
  unfoldable pub show : Buf → Buf → S → Option S
  show garbage buf st = do
    st1 ← ece391_fdputs c bufmax 1 buf local_at st
    (_, _, st2) ← c.ece391_read rtc_fd garbage local_at 4 st1
    some st2

  -- The two inner loops, with `rounds` to go at `j`; the second one counts down.
  unfoldable pub move_out : ℕ → ℕ → ℕ → Buf → Buf → S → Option (Buf × S)
  unfolding show
  move_out zero j curchar garbage buf st = some (buf, st)
  move_out (suc rounds) j curchar garbage buf st = do
    let picture = draw buf j curchar
    st1 ← show garbage picture st
    move_out rounds (j + 1) curchar garbage picture st1

  unfoldable pub bounce_back : ℕ → ℕ → Buf → Buf → S → Option (Buf × S)
  unfolding show
  bounce_back zero curchar garbage buf st = some (buf, st)
  bounce_back (suc rounds) curchar garbage buf st = do
    let picture = draw buf (startloop + rounds) curchar
    st1 ← show garbage picture st
    bounce_back rounds curchar garbage picture st1

  -- `letters` rounds of the outer loop.
  unfoldable pub play : ℕ → ℕ → Buf → Buf → S → Option S
  unfolding move_out bounce_back
  play zero curchar garbage buf st = some st
  play (suc letters) curchar garbage buf st = do
    (b1, st1) ← move_out (loopmax - startloop) startloop curchar garbage buf st
    (b2, st2) ← bounce_back (loopmax - startloop) curchar garbage b1 st1
    play letters (next_char curchar) garbage b2 st2

-- main: the clock at 32 ticks, then the letters from 'A' on. `frequency` is the object of `ret_val`, with
-- 32 as a double word.
unfoldable pub pingpong : {S : Type 0} → Calls S → ℕ → Buf → Buf → Buf → S → Option S
unfolding init_walls play
pingpong c letters frequency garbage buf st = do
  (rtc_fd, st1) ← c.ece391_open (placed "rtc") local_at st
  (_, st2) ← c.ece391_write rtc_fd frequency local_at 4 st1
  play c rtc_fd letters b'A' garbage (init_walls buf) st2
