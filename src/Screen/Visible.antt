-- ===== src/Screen/Visible.antt =====
-- What is printed by a task goes to the page of its own terminal: student-distrib/lib.c, putc,
-- video_scroll and get_video_mem.
use boz_os.Prelude.{
  ℕ, ◌+◌, ◌*◌, ◌<◌, ◌≤◌, ◌≡◌, ◌≢◌, ◌⊎◌, inl, inr, ◌∙◌, arith, ◌||◌, ◌==◌, Buf, ap, Bool-cases,
  if_true, if_false, IsBytes,
}
use boz_os.State.{Kernel, outb}
use boz_os.Screen.{
  Active, active_task, num_cols, video, put_cell, video_scroll, get_video_mem, get_terminal_color,
  get_terminal_ptr, place, putc, next_line, next_column, set_position, update_cursor,
}
use boz_os.Screen.Scroll.{video_scroll-scrolled, scrolled}
use boz_os.Screen.Cursor.{OnScreen, written, place_char, place_line}

putc_vram : (k : Kernel) (c : ℕ) → (putc k c).vram ≡ (place k c).vram
unfolding putc update_cursor outb
putc_vram k c = elim (Bool-cases ((place k c).active_terminal == k.active_task)) [
  | inl h ↦ ap (λ (u : Kernel). u.vram) (if_true _ _ h)
  | inr h ↦ ap (λ (u : Kernel). u.vram) (if_false _ _ h)
]

-- The address lies outside the 4000 bytes of the page.
abbrev pub Outside : ℕ → ℕ → Type 0
Outside page q = (q < page) ⊎ (page + 4000 ≤ q)

scroll_frame :
    (k : Kernel) (q : ℕ)
    → IsBytes k.vram
    → Outside (get_video_mem k active_task) q
    → (video_scroll k active_task).vram q ≡ k.vram q
scroll_frame k q bytes out =
    video_scroll-scrolled k active_task q bytes
    ∙ outside k.vram (get_video_mem k active_task) (get_terminal_color k active_task) out
  where
    outside : (m : Buf) (page color : ℕ) → Outside page q → scrolled m page color q ≡ m q
    outside m page color out = ground arith

color_small : (k : Kernel) (arg : Active) → get_terminal_color k arg < 256
unfolding get_terminal_color
color_small k arg = ground arith

written_frame :
    (k : Kernel) (c q : ℕ)
    → OnScreen k
    → Outside (get_video_mem k active_task) q
    → (written k c).vram q ≡ k.vram q
unfolding put_cell
written_frame k c q ok out = go (get_video_mem k active_task) (get_terminal_color k active_task) out
  where
    go :
        (page color : ℕ)
        → Outside page q
        → put_cell k.vram page
            (num_cols * (k.terminal_table k.active_task).y + (k.terminal_table k.active_task).x)
            c
            color
            q
          ≡ k.vram q
    go page color out = ground (arith, ok.column k.active_task, ok.row k.active_task)

written-IsBytes : (k : Kernel) (c : ℕ) → IsBytes k.vram → c < 256 → IsBytes (written k c).vram
unfolding put_cell
written-IsBytes k c bytes small q = ground (arith, bytes q, color_small k active_task)

next_line_frame :
    (k : Kernel) (q : ℕ)
    → IsBytes k.vram
    → Outside (get_video_mem k active_task) q
    → (next_line k).vram q ≡ k.vram q
unfolding next_line set_position
next_line_frame k q bytes out = ground (arith, scroll_frame k q bytes)

next_column_frame :
    (k : Kernel) (q : ℕ)
    → IsBytes k.vram
    → Outside (get_video_mem k active_task) q
    → (next_column k).vram q ≡ k.vram q
unfolding next_column set_position
next_column_frame k q bytes out = ground (arith, scroll_frame k q bytes)

-- putc changes no byte outside the 4000 bytes of the page that get_video_mem gives for the task.
pub putc-frame :
    (k : Kernel) (c q : ℕ)
    → OnScreen k
    → IsBytes k.vram
    → c < 256
    → Outside (get_video_mem k active_task) q
    → (putc k c).vram q ≡ k.vram q
unfolding get_video_mem get_terminal_ptr
putc-frame k c q ok bytes small out =
    ap (λ m. m q) (putc_vram k c) ∙ (elim (Bool-cases ((c == b'\n') || (c == b'\r'))) [
      | inl h ↦
          ap (λ (u : Kernel). u.vram q) (place_line k c (ground arith))
          ∙ next_line_frame k q bytes out
      | inr h ↦
          ap (λ (u : Kernel). u.vram q) (place_char k c (ground arith) (ground arith))
          ∙ next_column_frame (written k c) q (written-IsBytes k c bytes small) out
          ∙ written_frame k c q ok out
    ])

-- While another terminal than the task's is shown, what the task prints leaves the visible page as it
-- is, if the backing page of its terminal is apart from it.
pub putc-hidden :
    (k : Kernel) (c q : ℕ)
    → OnScreen k
    → IsBytes k.vram
    → c < 256
    → k.active_task ≢ k.active_terminal
    → video + 4096 ≤ (k.terminal_table k.active_task).video
    → video ≤ q
    → q < video + 4000
    → (putc k c).vram q ≡ k.vram q
unfolding get_video_mem get_terminal_ptr
putc-hidden k c q ok bytes small other apart l h =
    putc-frame k c q ok bytes small (inl (ground arith))
