-- ===== src/Files/Typed.antt =====
-- A line from the keyboard to the program: copy_kb_buf of student-distrib/keyboard.c, then
-- terminal_read of student-distrib/terminal.c.
use boz_os.Prelude.{ℕ, ◌+◌, ◌^◌, ◌<◌, ◌≤◌, ◌≡◌, ◌≢◌, sym, ◌∙◌, arith, some, leb, if◌then◌else◌, Buf}
use boz_os.State.{Kernel, done}
use boz_os.Terminals.{kb_size}
use boz_os.Keyboard.{copy_kb_buf}
use boz_os.Keyboard.Lines.{copy_kb_buf-line}
use boz_os.Files.{terminal_read}
use boz_os.Files.Lines.{HasLine, terminal_read-line}

-- A line of `n` characters is in kb_buf and goes to int_buf, where a 0 stands behind it, and the flag
-- says that it has been entered: a terminal_read with room for the line and its end then returns
-- `n`, gives the program the line as it was typed, with its end, and clears the flag.
pub terminal_read-copy_kb_buf :
    (k : Kernel) (buf : Buf) (at nbytes n m : ℕ)
    → at ≢ 0
    → nbytes < 2 ^ 31
    → k.terminal_read_release k.active_task ≡ 1
    → HasLine k.kb_buf 0 n
    → n < nbytes
    → n < m
    → m < kb_size
    → k.int_buf m ≡ 0
    → (buf' : Buf) × (k' : Kernel) × (terminal_read (copy_kb_buf k) buf at nbytes
        ≡ some (done (n, buf', k')))
      × ((j : ℕ) → j ≤ n → buf' (at + j) ≡ k.kb_buf j)
      × (k'.terminal_read_release k.active_task ≡ 0)
unfolding copy_kb_buf
terminal_read-copy_kb_buf k buf at nbytes n m not_null small entered line room behind inside end =
    let moved : (q : ℕ)
        → (copy_kb_buf k).int_buf q ≡ (if leb q n then k.kb_buf q else k.int_buf q) =
      λ q.
        (copy_kb_buf-line k n q (omega (arith, behind, inside)) line.ends
          (λ j h. line.inside j (omega arith) h)).1 in
    let within : (q : ℕ) → q ≤ n → (copy_kb_buf k).int_buf q ≡ k.kb_buf q =
      λ q h. moved q ∙ ground (arith, h) in
    let there : HasLine (copy_kb_buf k).int_buf 0 n = record {
      inside = λ j l h e. line.inside j l h (sym (within j (omega (arith, h))) ∙ e);
      ends = within n (omega arith) ∙ line.ends;
    } in
    let behind' : (copy_kb_buf k).int_buf m ≡ 0 = moved m ∙ ground (arith, behind, end) in
    let (buf', k', run, bytes, released) =
      terminal_read-line (copy_kb_buf k) buf at nbytes n m not_null small entered there room behind
        inside behind' in
    (buf', k', run, λ j h. bytes j h ∙ within j h, released)
