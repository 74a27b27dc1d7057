-- ===== src/Keyboard/Lines.antt =====
-- copy_kb_buf of student-distrib/keyboard.c: a finished line goes to int_buf.
use boz_os.Prelude.{
  ℕ, zero, suc, ◌+◌, ◌<◌, ◌≤◌, ◌≡◌, ◌≢◌, ◌∙◌, arith, leb, ◌&&◌, if◌then◌else◌, Buf, store,
}
use native.Mathlib.Decide.{ℕ_discrete}
use boz_os.State.{Kernel}
use boz_os.Terminals.{kb_size}
use boz_os.Keyboard.{move_line, copy_kb_buf}

move_line_lem :
    (kb int : Buf) (rounds i n q : ℕ)
    → i ≤ n
    → n < i + rounds
    → kb n ≡ b'\n'
    → ((j : ℕ) → i ≤ j → j < n → kb j ≢ b'\n')
    → ((move_line kb int rounds i).0 q ≡ (if leb i q && leb q n then 0 else kb q))
      × ((move_line kb int rounds i).1 q ≡ (if leb i q && leb q n then kb q else int q))
unfolding move_line
move_line_lem kb int zero i n q l h e none = absurd (omega arith)
move_line_lem kb int (suc rounds) i n q l h e none = elim (ℕ_discrete i n) [
  | yes same ↦ (ground (arith, e, same), ground (arith, e, same))
  | no ne ↦
      let miss = none i (omega arith) (omega arith) in
      let kb' = store kb i 0 in
      let int' = store int i (kb i) in
      let there : kb' n ≡ b'\n' = ground (arith, e, ne) in
      let before : (j : ℕ) → i + 1 ≤ j → j < n → kb' j ≢ b'\n' =
        λ j l' h'. ground (arith, none j (omega arith) h') in
      let ih = move_line_lem kb' int' rounds (i + 1) n q (omega arith) (omega arith) there before in
      (ground (arith, ih.0, miss), ground (arith, ih.1, miss))
]

-- copy_kb_buf with a line of `n` characters in kb_buf: the line and its end go to the start of
-- int_buf, the bytes of kb_buf that held them become 0, and the other bytes of both buffers stay.
pub copy_kb_buf-line :
    (k : Kernel) (n q : ℕ)
    → n < kb_size
    → k.kb_buf n ≡ b'\n'
    → ((j : ℕ) → j < n → k.kb_buf j ≢ b'\n')
    → ((copy_kb_buf k).kb_buf q ≡ (if leb q n then 0 else k.kb_buf q))
      × ((copy_kb_buf k).int_buf q ≡ (if leb q n then k.kb_buf q else k.int_buf q))
unfolding copy_kb_buf
copy_kb_buf-line k n q short end before =
    let moved =
      move_line_lem k.kb_buf k.int_buf kb_size 0 n q (omega arith) (omega arith) end
        (λ j l. before j) in
    (moved.0 ∙ ground arith, moved.1 ∙ ground arith)
