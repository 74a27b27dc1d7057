-- ===== src/Screen.antt =====
-- The console part of student-distrib/lib.c: the visible page at 0xB8000, one backing page for each
-- terminal, and the printing position in term_t. get_terminal_ptr answers NULL above terminal 2;
-- its callers here pass active_task and active_terminal, which stay below 3.
pub mod Scroll
pub mod Cursor
pub mod Visible
pub mod Frame
pub mod Stream
use boz_os.Prelude.{
  ℕ, zero, suc, ◌+◌, ◌*◌, ◌-◌, ◌/◌, ◌%◌, ◌^◌, bit_and, not, ◌&&◌, ◌||◌, Option, some, none, ◌==◌,
  if◌then◌else◌, slt32, Buf, store, List, [], ◌∷◌, bit_and,
}
use boz_os.Clib.Asm.{memcpy}
use boz_os.State.{Term, Kernel, update, outb}

-- enum active_t
pub data Active : Type 0 where
  active_task active_term : Active

abbrev pub video : ℕ
video = 0xB8000

abbrev pub num_cols : ℕ
num_cols = 80

abbrev pub num_rows : ℕ
num_rows = 25

-- SCROLL_SIZE and VIDEO_MEM_ROW1
abbrev pub scroll_size : ℕ
scroll_size = (num_rows - 1) * num_cols * 2

abbrev pub video_mem_row1 : ℕ
video_mem_row1 = 2 * num_cols

-- The terminal that an argument of type active_t stands for.
abbrev pub chosen : Kernel → Active → ℕ
chosen k active_task = k.active_task
chosen k active_term = k.active_terminal

unfoldable pub get_terminal_ptr : Kernel → ℕ → Term
get_terminal_ptr k n = k.terminal_table n

-- The assignment of new `x` and `y` through that pointer.
unfoldable pub set_position : Kernel → ℕ → ℕ → ℕ → Kernel
set_position k n x y = record k {
  terminal_table = update k.terminal_table n (record (k.terminal_table n) { x = x; y = y });
}

-- `pos` is a `uint16_t`.
unfoldable pub update_cursor : Kernel → ℕ → ℕ → Kernel
update_cursor k x y =
    let pos = (y * num_cols + x) % 2 ^ 16 in
    let k1 = outb k 0x0F 0x3D4 in
    let k2 = outb k1 (bit_and pos 0xFF) 0x3D5 in
    let k3 = outb k2 0x0E 0x3D4 in outb k3 (bit_and (pos / 2 ^ 8) 0xFF) 0x3D5

unfoldable pub get_screen_x : Kernel → Active → ℕ
get_screen_x k arg = (get_terminal_ptr k (chosen k arg)).x

unfoldable pub get_screen_y : Kernel → Active → ℕ
get_screen_y k arg = (get_terminal_ptr k (chosen k arg)).y

unfoldable pub set_screen_x : Kernel → ℕ → Active → Kernel
set_screen_x k val arg =
    let n = chosen k arg in
    let t = get_terminal_ptr k n in
    if not (slt32 val 0) && slt32 val num_cols
    then update_cursor (set_position k n val t.y) val t.y
    else k

unfoldable pub set_screen_y : Kernel → ℕ → Active → Kernel
set_screen_y k val arg =
    let n = chosen k arg in
    let t = get_terminal_ptr k n in
    if not (slt32 val 0) && slt32 val num_rows
    then update_cursor (set_position k n t.x val) t.x val
    else k

unfoldable pub get_terminal_color : Kernel → Active → ℕ
get_terminal_color k arg =
    let color = (get_terminal_ptr k (chosen k arg)).color in if color == 0 then 0x7 else color % 256

unfoldable pub get_video_mem : Kernel → Active → ℕ
get_video_mem k active_term = video
get_video_mem k active_task =
    if k.active_task == k.active_terminal then video else (get_terminal_ptr k k.active_task).video

-- One cell of a page: the character and its colour.
unfoldable pub put_cell : Buf → ℕ → ℕ → ℕ → ℕ → Buf
put_cell m page index c color = store (store m (page + 2 * index) c) (page + 2 * index + 1) color

-- Blanks in `rounds` cells of a page from `index` on.
unfoldable pub blank_cells : Buf → ℕ → ℕ → ℕ → ℕ → Buf
blank_cells m page color zero index = m
blank_cells m page color (suc rounds) index =
    blank_cells (put_cell m page index b' ' color) page color rounds (index + 1)

unfoldable pub clear_screen : Kernel → Kernel
clear_screen k =
    let page = get_video_mem k active_term in
    let color = get_terminal_color k active_term in
    let k' = record k { vram = blank_cells k.vram page color (num_rows * num_cols) 0 } in
    set_screen_x (set_screen_y k' 0 active_term) 0 active_term

unfoldable pub video_scroll : Kernel → Active → Kernel
video_scroll k arg =
    let page = get_video_mem k arg in
    let color = get_terminal_color k arg in
    let moved = memcpy k.vram page (page + video_mem_row1) scroll_size in
    record k { vram = blank_cells moved page color num_cols (num_cols * (num_rows - 1)) }

-- The new position and whether the page scrolls, on a line end and on any other character.
unfoldable pub next_line : Kernel → Kernel
next_line k =
    let n = k.active_task in
    let t = k.terminal_table n in
    if t.y == num_rows - 1
    then set_position (video_scroll k active_task) n 0 t.y
    else set_position k n 0 (t.y + 1)

unfoldable pub next_column : Kernel → Kernel
next_column k =
    let n = k.active_task in
    let t = k.terminal_table n in
    let x = (t.x + 1) % num_cols in
    let y = if x == 0 then t.y + 1 else t.y in
    if (t.y == num_rows - 1) && (t.x == num_cols - 1)
    then set_position (video_scroll k active_task) n 0 (num_rows - 1)
    else set_position k n x ((y + x / num_cols) % num_rows)

-- The character and the move of the position.
unfoldable pub place : Kernel → ℕ → Kernel
place k c =
    let n = k.active_task in
    let t = k.terminal_table n in
    let page = get_video_mem k active_task in
    let color = get_terminal_color k active_task in
    let written = put_cell k.vram page (num_cols * t.y + t.x) c color in
    if (c == b'\n') || (c == b'\r') then next_line k else next_column (record k { vram = written })

unfoldable pub putc : Kernel → ℕ → Kernel
putc k c =
    let n = k.active_task in
    let k' = place k c in
    if k'.active_terminal == n
    then update_cursor k' (k'.terminal_table n).x (k'.terminal_table n).y
    else k'

-- puts, with the number of characters; `none` if the string has no terminator within `fuel` bytes.
unfoldable pub puts : ℕ → Kernel → Buf → ℕ → ℕ → Option (ℕ × Kernel)
puts zero k s p index = none
puts (suc fuel) k s p index =
    let rest = puts fuel (putc k (s (p + index))) s p (index + 1) in
    if s (p + index) == 0 then some (index, k) else rest
