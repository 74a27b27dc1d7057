-- ===== src/Tests/Consoles.antt =====
-- Concrete runs of putc and video_scroll of student-distrib/lib.c.
use boz_os.Prelude.{ℕ, ◌≡◌, arith, IsBytes}
use boz_os.Screen.{
  active_term, get_video_mem, get_terminal_color, video_scroll, putc, get_terminal_ptr,
}
use boz_os.Screen.Scroll.{scrolled, video_scroll-scrolled}
use boz_os.Screen.Cursor.{OnScreen, linear, putc-OnScreen, putc-advances, with_cell}
use boz_os.Screen.Visible.{putc-hidden}
use boz_os.Tests.{running}

blank-IsBytes : IsBytes (running 0).vram
blank-IsBytes q = omega arith

corner : (shown : ℕ) → OnScreen (running shown)
corner shown = record { column = λ n. omega arith; row = λ n. omega arith }

video_scroll-scrolled_example :
    (video_scroll (running 0) active_term).vram 0xB8F00
    ≡ scrolled
        (running 0).vram
        (get_video_mem (running 0) active_term)
        (get_terminal_color (running 0) active_term)
        0xB8F00
video_scroll-scrolled_example = video_scroll-scrolled (running 0) active_term 0xB8F00 blank-IsBytes

putc-OnScreen_example : OnScreen (putc (running 0) b'x')
putc-OnScreen_example = putc-OnScreen (running 0) b'x' (corner 0)

-- The last cell of the first terminal, which is shown.
putc-advances_example :
    (linear ((putc (running 0) b'x').terminal_table 0) ≡ 1920)
    × ((q : ℕ)
        → (putc (running 0) b'x').vram q
          ≡ scrolled (with_cell (running 0).vram 0xB8000 1999 b'x' 2) 0xB8000 2 q)
unfolding get_video_mem get_terminal_color get_terminal_ptr
putc-advances_example =
    putc-advances (running 0) b'x' 0 (corner 0) blank-IsBytes (omega arith) (omega arith)
      (omega arith)

putc-hidden_example : (putc (running 1) b'x').vram 0xB8000 ≡ 0
putc-hidden_example =
    putc-hidden (running 1) b'x' 0xB8000 (corner 1) blank-IsBytes (omega arith) (omega arith)
      (omega arith) (omega arith) (omega arith)
