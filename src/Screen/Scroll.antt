-- ===== src/Screen/Scroll.antt =====
-- The writes of the console in student-distrib/lib.c: which cells they reach.
use boz_os.Prelude.{
  ℕ, zero, suc, ◌+◌, ◌*◌, ◌-◌, ◌%◌, ◌≡◌, inl, ◌∙◌, arith, ltb, leb, ◌&&◌, ◌==◌, if◌then◌else◌, Buf,
  IsBytes,
}
use boz_os.Clib.Asm.{memcpy}
use boz_os.Clib.Copy.{memcpy-copied, copied}
use boz_os.State.{Kernel}
use boz_os.Screen.{
  Active, num_cols, num_rows, scroll_size, video_mem_row1, put_cell, blank_cells, video_scroll,
  get_video_mem, get_terminal_color,
}

-- `rounds` cells from `index` on are blank, and nothing else has changed.
pub blank_cells_lem :
    (rounds : ℕ) (m : Buf) (page color index q : ℕ)
    → blank_cells m page color rounds index q ≡ (
        if leb (page + 2 * index) q && ltb q (page + 2 * (index + rounds))
        then (if (q - page) % 2 == 0 then b' ' else color)
        else m q)
unfolding blank_cells put_cell
blank_cells_lem zero m page color index q = ground arith
blank_cells_lem (suc rounds) m page color index q =
    ground
      (arith, blank_cells_lem rounds (put_cell m page index b' ' color) page color (index + 1) q)

-- The page one row further up, the last row blank.
abbrev pub scrolled : Buf → ℕ → ℕ → Buf
scrolled m page color q =
    if leb page q && ltb q (page + scroll_size)
    then m (q + video_mem_row1)
    else if leb page q && ltb q (page + 2 * num_cols * num_rows)
    then (if (q - page) % 2 == 0 then b' ' else color)
    else m q

scroll_bytes :
    (m m' : Buf) (page color q : ℕ)
    → m' q ≡ copied m page (page + video_mem_row1) scroll_size q
    → blank_cells m' page color num_cols (num_cols * (num_rows - 1)) q ≡ scrolled m page color q
scroll_bytes m m' page color q e =
    blank_cells_lem num_cols m' page color (num_cols * (num_rows - 1)) q ∙ rest (m' q) e
  where
    rest :
        (b : ℕ)
        → b ≡ copied m page (page + video_mem_row1) scroll_size q
        → (if leb (page + 3840) q && ltb q (page + 4000)
            then (if (q - page) % 2 == 0 then b' ' else color)
            else b)
          ≡ scrolled m page color q
    rest b e = ground arith

-- video_scroll moves every row of the page up by one and blanks the last in the terminal's colour;
-- it writes nowhere outside the 4000 bytes of the page.
pub video_scroll-scrolled :
    (k : Kernel) (arg : Active) (q : ℕ)
    → IsBytes k.vram
    → (video_scroll k arg).vram q
      ≡ scrolled k.vram (get_video_mem k arg) (get_terminal_color k arg) q
unfolding video_scroll
video_scroll-scrolled k arg q bytes =
    let page = get_video_mem k arg in
    scroll_bytes k.vram (memcpy k.vram page (page + video_mem_row1) scroll_size) page
      (get_terminal_color k arg) q
      (memcpy-copied k.vram page (page + video_mem_row1) scroll_size q bytes (inl (omega arith)))
