-- ===== src/Screen/Cursor.antt =====
-- putc of student-distrib/lib.c keeps the printing position on the screen.
use mathlib.Core.Path.{fun_ext}
use boz_os.Screen.Scroll.{scrolled, video_scroll-scrolled}
use boz_os.Prelude.{
  ℕ, ◌+◌, ◌*◌, ◌<◌, ◌≡◌, ◌≢◌, ◌⊎◌, inl, inr, ◌∙◌, arith, ◌||◌, ◌==◌, if◌then◌else◌, Bool-cases,
  if_true, if_false, ap, true, false, Buf, IsBytes, refl, ◌-◌, ◌&&◌,
}
use native.Mathlib.Decide.{ℕ_discrete}
use boz_os.State.{Kernel, Term, outb}
use boz_os.Screen.{
  active_task, place, put_cell, get_video_mem, get_terminal_color, num_cols, num_rows, video_scroll,
  putc, next_line, next_column, set_position, update_cursor, get_terminal_ptr,
}

-- Every terminal's position is on the screen.
pub record OnScreen (k : Kernel) : Type 0 where
  pub column : (n : ℕ) → (k.terminal_table n).x < num_cols
  pub row : (n : ℕ) → (k.terminal_table n).y < num_rows

-- The position as one number, in reading order.
abbrev pub linear : Term → ℕ
linear t = num_cols * t.y + t.x

-- The column and the row behind a character at column `x` and row `y`.
abbrev column_behind : ℕ → ℕ
column_behind x = if x == 79 then 0 else x + 1

abbrev row_behind : ℕ → ℕ → ℕ
row_behind x y = if x == 79 then (if y == 24 then 24 else y + 1) else y

next_column_x :
    (k : Kernel)
    → (k.terminal_table k.active_task).x < num_cols
    → ((next_column k).terminal_table k.active_task).x
      ≡ column_behind (k.terminal_table k.active_task).x
unfolding next_column set_position video_scroll
next_column_x k h = ground arith

next_column_y :
    (k : Kernel)
    → (k.terminal_table k.active_task).x < num_cols
    → (k.terminal_table k.active_task).y < num_rows
    → ((next_column k).terminal_table k.active_task).y
      ≡ row_behind (k.terminal_table k.active_task).x (k.terminal_table k.active_task).y
unfolding next_column set_position video_scroll
next_column_y k h h' = ground arith

next_line_x : (k : Kernel) → ((next_line k).terminal_table k.active_task).x ≡ 0
unfolding next_line set_position video_scroll
next_line_x k = ground arith

next_line_y :
    (k : Kernel)
    → ((next_line k).terminal_table k.active_task).y
      ≡ row_behind 79 (k.terminal_table k.active_task).y
unfolding next_line set_position video_scroll
next_line_y k = ground arith

-- update_cursor moves no position.
putc-place : (k : Kernel) (c : ℕ) → (putc k c).terminal_table ≡ (place k c).terminal_table
unfolding putc update_cursor outb
putc-place k c = elim (Bool-cases ((place k c).active_terminal == k.active_task)) [
  | inl h ↦ ap (λ (u : Kernel). u.terminal_table) (if_true _ _ h)
  | inr h ↦ ap (λ (u : Kernel). u.terminal_table) (if_false _ _ h)
]

place-OnScreen : (k : Kernel) (c : ℕ) → OnScreen k → OnScreen (place k c)
unfolding place next_line next_column set_position video_scroll
place-OnScreen k c ok = record {
  column = λ n. ground (arith, ok.column n, ok.column k.active_task, ok.row k.active_task);
  row = λ n. ground (arith, ok.row n, ok.column k.active_task, ok.row k.active_task);
}

-- putc keeps every terminal's position on the screen.
pub putc-OnScreen : (k : Kernel) (c : ℕ) → OnScreen k → OnScreen (putc k c)
putc-OnScreen k c ok =
    let ok' = place-OnScreen k c ok in
    record {
      column = λ n. rw (putc-place k c) (ok'.column n);
      row = λ n. rw (putc-place k c) (ok'.row n);
    }

-- The state in which next_column finds the character written.
abbrev pub written : Kernel → ℕ → Kernel
written k c =
    let t = k.terminal_table k.active_task in
    record k {
      vram =
          put_cell k.vram (get_video_mem k active_task) (num_cols * t.y + t.x) c
            (get_terminal_color k active_task);
    }

pub place_char :
    (k : Kernel) (c : ℕ) → c ≢ b'\n' → c ≢ b'\r' → place k c ≡ next_column (written k c)
unfolding place
place_char k c nl cr =
    let other : ((c == b'\n') || (c == b'\r')) ≡ false = ground arith in if_false _ _ other

pub place_line : (k : Kernel) (c : ℕ) → (c ≡ b'\n') ⊎ (c ≡ b'\r') → place k c ≡ next_line k
unfolding place
place_line k c h =
    let line : ((c == b'\n') || (c == b'\r')) ≡ true = ground arith in if_true _ _ line

module _ (k k' : Kernel) (c : ℕ) (moved : place k c ≡ k') where
  putc_x : ((putc k c).terminal_table k.active_task).x ≡ (k'.terminal_table k.active_task).x
  putc_x =
      ap (λ t. (t k.active_task).x) (putc-place k c)
      ∙ ap (λ (u : Kernel). (u.terminal_table k.active_task).x) moved

  putc_y : ((putc k c).terminal_table k.active_task).y ≡ (k'.terminal_table k.active_task).y
  putc_y =
      ap (λ t. (t k.active_task).y) (putc-place k c)
      ∙ ap (λ (u : Kernel). (u.terminal_table k.active_task).y) moved

-- putc moves no other terminal.
putc-others :
    (k : Kernel) (c n : ℕ) → n ≢ k.active_task → (putc k c).terminal_table n ≡ k.terminal_table n
unfolding place next_line next_column set_position video_scroll
putc-others k c n ne = ap (λ t. t n) (putc-place k c) ∙ ground arith

putc-vram : (k : Kernel) (c : ℕ) → (putc k c).vram ≡ (place k c).vram
unfolding putc update_cursor outb
putc-vram k c = elim (Bool-cases ((place k c).active_terminal == k.active_task)) [
  | inl h ↦ ap (λ (u : Kernel). u.vram) (if_true _ _ h)
  | inr h ↦ ap (λ (u : Kernel). u.vram) (if_false _ _ h)
]

next_column-vram :
    (k : Kernel)
    → (k.terminal_table k.active_task).x < num_cols
    → (k.terminal_table k.active_task).y < num_rows
    → (next_column k).vram ≡ (
        if linear (k.terminal_table k.active_task) == 1999
        then (video_scroll k active_task).vram
        else k.vram)
unfolding next_column set_position
next_column-vram k h h' =
    let t = k.terminal_table k.active_task in
    elim (Bool-cases ((t.y == num_rows - 1) && (t.x == num_cols - 1))) [
      | inl last ↦
          let here : (linear t == 1999) ≡ true = ground (arith, last) in rw (last, here) refl
      | inr before ↦
          let here : (linear t == 1999) ≡ false = ground (arith, before, h, h') in
          rw (before, here) refl
    ]

-- The page at `page` with a character and its colour in the cell `n`.
abbrev pub with_cell : Buf → ℕ → ℕ → ℕ → ℕ → Buf
with_cell m page n c color q =
    if q == page + 2 * n + 1 then color else if q == page + 2 * n then c else m q

put_cell-with_cell :
    (m : Buf) (page n c color : ℕ) → put_cell m page n c color ≡ with_cell m page n c color
unfolding put_cell
put_cell-with_cell m page n c color = fun_ext (λ q. ground arith)

written-IsBytes : (k : Kernel) (c : ℕ) → IsBytes k.vram → c < 256 → IsBytes (written k c).vram
unfolding put_cell get_terminal_color
written-IsBytes k c bytes h q = ground (arith, bytes q, h)

-- The page behind a character that is no line end.
putc-page :
    (k : Kernel) (c q : ℕ)
    → OnScreen k
    → IsBytes k.vram
    → c < 256
    → c ≢ b'\n'
    → c ≢ b'\r'
    → let t = k.terminal_table k.active_task in
      let page = get_video_mem k active_task in
      let color = get_terminal_color k active_task in
      let cell = with_cell k.vram page (linear t) c color in
      (putc k c).vram q ≡ (if linear t == 1999 then scrolled cell page color q else cell q)
unfolding get_video_mem get_terminal_color get_terminal_ptr
putc-page k c q ok bytes h nl cr =
    let t = k.terminal_table k.active_task in
    let page = get_video_mem k active_task in
    let color = get_terminal_color k active_task in
    let move = putc-vram k c ∙ ap (λ (u : Kernel). u.vram) (place_char k c nl cr) in
    let column = next_column-vram (written k c) (ok.column k.active_task) (ok.row k.active_task) in
    let scroll = video_scroll-scrolled (written k c) active_task q (written-IsBytes k c bytes h) in
    let cell = put_cell-with_cell k.vram page (linear t) c color in
    ap (λ (m : Buf). m q) (move ∙ column) ∙ elim (Bool-cases (linear t == 1999)) [
      | inl last ↦ rw last (scroll ∙ ap (λ m. scrolled m page color q) cell)
      | inr before ↦ rw before (ap (λ (m : Buf). m q) cell)
    ]

putc-position :
    (k : Kernel) (c n : ℕ)
    → OnScreen k
    → c ≢ b'\n'
    → c ≢ b'\r'
    → linear ((putc k c).terminal_table n) ≡ (
        if n == k.active_task
        then (if linear (k.terminal_table n) == 1999 then 1920 else linear (k.terminal_table n) + 1)
        else linear (k.terminal_table n))
putc-position k c n ok nl cr = elim (ℕ_discrete n k.active_task) [
  | yes e ↦
      let h = ok.column k.active_task in
      let h' = ok.row k.active_task in
      let move = place_char k c nl cr in
      let x = putc_x k (next_column (written k c)) c move ∙ next_column_x (written k c) h in
      let y = putc_y k (next_column (written k c)) c move ∙ next_column_y (written k c) h h' in
      rw (e, x, y) (ground (arith, h, h'))
  | no ne ↦ rw (putc-others k c n ne) (ground arith)
]

-- putc of a byte that is no line end, when every terminal's position is on the screen and the video
-- memory holds bytes: its cell of the
-- terminal's page gets the character and the colour. The terminal's position moves by one in reading
-- order, from the last cell back to the start of the last row; exactly then the page moves up by one
-- row, with a blank row below. No other byte of video memory changes, and no other terminal's
-- position moves.
pub putc-advances :
    (k : Kernel) (c n : ℕ)
    → OnScreen k
    → IsBytes k.vram
    → c < 256
    → c ≢ b'\n'
    → c ≢ b'\r'
    → (linear ((putc k c).terminal_table n) ≡ (
        if n == k.active_task
        then (if linear (k.terminal_table n) == 1999 then 1920 else linear (k.terminal_table n) + 1)
        else linear (k.terminal_table n)))
      × ((q : ℕ)
          → let t = k.terminal_table k.active_task in
            let page = get_video_mem k active_task in
            let color = get_terminal_color k active_task in
            let cell = with_cell k.vram page (linear t) c color in
            (putc k c).vram q ≡ (if linear t == 1999 then scrolled cell page color q else cell q))
putc-advances k c n ok bytes h nl cr =
    (putc-position k c n ok nl cr, λ q. putc-page k c q ok bytes h nl cr)

-- A line end takes its terminal to the start of the next row, or of the last row again, and no other
-- terminal's position moves.
pub putc-line_end :
    (k : Kernel) (c n : ℕ)
    → OnScreen k
    → (c ≡ b'\n') ⊎ (c ≡ b'\r')
    → linear ((putc k c).terminal_table n) ≡ (
        if n == k.active_task
        then num_cols * (if (k.terminal_table n).y == 24 then 24 else (k.terminal_table n).y + 1)
        else linear (k.terminal_table n))
putc-line_end k c n ok h = elim (ℕ_discrete n k.active_task) [
  | yes e ↦
      let move = place_line k c h in
      let x = putc_x k (next_line k) c move ∙ next_line_x k in
      let y = putc_y k (next_line k) c move ∙ next_line_y k in rw (e, x, y) (ground arith)
  | no ne ↦ rw (putc-others k c n ne) (ground arith)
]
