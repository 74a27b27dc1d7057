-- ===== src/Keyboard.antt =====
-- student-distrib/keyboard.c: what the interrupt handler does with a scan code, which is a parameter
-- here, and the two buffers of 128 bytes. `none` is a buffer without a terminator.
pub mod Keys
pub mod Table
pub mod Typing
pub mod Lines
use boz_os.Idt.{Handler, keyboard, set_idt_wrapper, soft_int_start}
use boz_os.Prelude.{
  ℕ, zero, suc, ◌+◌, ◌*◌, ◌-◌, ◌/◌, ◌%◌, ◌^◌, bit_and, bit_xor, not, ◌&&◌, ◌||◌, Option, some, none,
  ◌>>=◌, ltb, leb, ◌==◌, if◌then◌else◌, add32, sub32, Buf, store,
}
use boz_os.Clib.Strings.{strlen}
use boz_os.State.{Kernel, update}
use boz_os.Screen.{
  Active, active_term, video, num_cols, num_rows, get_screen_x, get_screen_y, set_screen_x,
  set_screen_y, get_terminal_color, put_cell, clear_screen, video_scroll, update_cursor,
}
use boz_os.Interrupts.{send_eoi, enable_irq}
use boz_os.Terminals.{kb_size, switch_terminal}
use Keys.{scan_code_table}

abbrev pub base_kb_size : ℕ
base_kb_size = 90

-- SHIFT_FLAG, CAPS_FLAG, CTRL_FLAG and ALT_FLAG: digits in base 16.
abbrev pub shift_flag : ℕ
shift_flag = 0x1

abbrev pub caps_flag : ℕ
caps_flag = 0x10

abbrev pub ctrl_flag : ℕ
ctrl_flag = 0x100

abbrev pub alt_flag : ℕ
alt_flag = 0x1000

unfoldable pub kb_init : (Handler → ℕ) → Kernel → Kernel
kb_init address k =
    record (set_idt_wrapper (enable_irq k 1) (soft_int_start + 1) (address keyboard)) {
      key_status = 0;
      terminal_read_release = update (update (update k.terminal_read_release 0 0) 1 0) 2 0;
    }

unfoldable pub put_newln_kb : Kernel → Kernel
put_newln_kb k =
    let y = get_screen_y k active_term in
    if y == num_rows - 1
    then set_screen_x (video_scroll k active_term) 0 active_term
    else set_screen_x (set_screen_y k (y + 1) active_term) 0 active_term

unfoldable pub convert_to_vid_idx : ℕ → ℕ → ℕ → ℕ
convert_to_vid_idx x y buf_len = num_cols * y + x + buf_len

-- The drawing of a character `c` that add_char_to_buf has put at `buf_len`, and the scrolling behind
-- it.
unfoldable pub draw : Kernel → ℕ → ℕ → Kernel
draw k c buf_len =
    let x = get_screen_x k active_term in
    let y = get_screen_y k active_term in
    let cell =
      put_cell k.vram video (convert_to_vid_idx x y buf_len) c (get_terminal_color k active_term) in
    let line = put_newln_kb k in
    if c == b'\n'
    then if leb num_cols (buf_len + x) then put_newln_kb line else line
    else update_cursor (record k { vram = cell }) (x + 1 + buf_len % num_cols)
        (y + buf_len / num_cols)

unfoldable pub echo : Kernel → ℕ → ℕ → Kernel
echo k c buf_len =
    let x = get_screen_x k active_term in
    let y = get_screen_y k active_term in
    if (y == num_rows - 1) && (buf_len + x == num_cols - 1)
    then set_screen_y (video_scroll (draw k c buf_len) active_term) (y - 1) active_term
    else draw k c buf_len

unfoldable pub add_char_to_buf : Kernel → ℕ → Option Kernel
add_char_to_buf k c = do
  buf_len ← strlen kb_size k.kb_buf 0
  some (
      if ltb buf_len (kb_size - 1)
      then echo (record k { kb_buf = store (store k.kb_buf (buf_len + 1) 0) buf_len c }) c buf_len
      else if c == b'\n'
      then put_newln_kb (put_newln_kb k)
      else k)

-- The column of the cursor can be -1 here; update_cursor keeps its low sixteen bits only.
unfoldable pub erase : Kernel → ℕ → Kernel
erase k buf_len =
    let x = get_screen_x k active_term in
    let y = get_screen_y k active_term in
    let cell = store k.vram (video + 2 * (convert_to_vid_idx x y buf_len - 1)) b' ' in
    update_cursor (record k { vram = cell }) (add32 (sub32 x 1) (buf_len % num_cols))
      (y + buf_len / num_cols)

unfoldable pub del_char_from_buf : Kernel → Option Kernel
del_char_from_buf k = do
  buf_len ← strlen kb_size k.kb_buf 0
  some (
      if ltb 0 buf_len
      then erase (record k { kb_buf = store k.kb_buf (buf_len - 1) 0 }) buf_len
      else k)

-- The loop of copy_kb_buf from index `i` on.
unfoldable pub move_line : Buf → Buf → ℕ → ℕ → Buf × Buf
move_line kb_buf int_buf zero i = (kb_buf, int_buf)
move_line kb_buf int_buf (suc rounds) i =
    let kb_buf' = store kb_buf i 0 in
    let int_buf' = store int_buf i (kb_buf i) in
    let rest = move_line kb_buf' int_buf' rounds (i + 1) in
    if kb_buf i == b'\n' then (kb_buf', int_buf') else rest

unfoldable pub copy_kb_buf : Kernel → Kernel
copy_kb_buf k =
    let (kb_buf, int_buf) = move_line k.kb_buf k.int_buf kb_size 0 in
    record k { kb_buf = kb_buf; int_buf = int_buf }

-- A key that is released.
unfoldable pub key_released : Kernel → ℕ → Kernel
key_released k scan_code =
    if scan_code == 0xAA
    then record k { key_status = bit_and k.key_status 0x11110 }
    else if scan_code == 0x9D
    then record k { key_status = bit_and k.key_status 0x11011 }
    else if scan_code == 0xB8
    then record k { key_status = bit_and k.key_status 0x10111 }
    else k

-- The index for a key that only types, by the keys that are held: any other status than these reads
-- the last table, for the test of the code is `key_status && CAPS_FLAG && SHIFT_FLAG`.
unfoldable pub position_of : ℕ → ℕ → ℕ
position_of key_status scan_code =
    let shift = scan_code + base_kb_size in
    let caps = scan_code + 2 * base_kb_size in
    let both = scan_code + 3 * base_kb_size in
    if key_status == 0
    then if ltb scan_code base_kb_size then scan_code else 0
    else if key_status == shift_flag
    then if ltb shift (2 * base_kb_size) && leb base_kb_size shift then shift else 0
    else if key_status == caps_flag
    then if ltb caps (3 * base_kb_size) && leb base_kb_size caps then caps else 0
    else if ltb both (4 * base_kb_size) && leb (3 * base_kb_size) both
    then both
    else 0

-- The answer 0 with the kernel of a step that may fault.
abbrev pub nothing : Option Kernel → Option (ℕ × Kernel)
nothing none = none
nothing (some k) = some (0, k)

-- A key that is pressed.
unfoldable pub key_pressed : Kernel → ℕ → Option (ℕ × Kernel)
key_pressed k scan_code =
    let status = k.key_status in
    let cleared = clear_screen k in
    let ctrl = not (bit_and status ctrl_flag == 0) in
    let alt = not (bit_and status alt_flag == 0) in
    if scan_code == 0x2A
    then some (0, record k { key_status = add32 status shift_flag })
    else if scan_code == 0x3A
    then some (0, record k { key_status = bit_xor status caps_flag })
    else if scan_code == 0x1D
    then some (0, record k { key_status = add32 status ctrl_flag })
    else if (scan_code == 0x26) && ctrl
    then some (0, record cleared { kb_buf = store cleared.kb_buf 0 0 })
    else if scan_code == 0x38
    then some (0, record k { key_status = add32 status alt_flag })
    else if (scan_code == 0x3B) && alt
    then nothing (switch_terminal k 0)
    else if (scan_code == 0x3C) && alt
    then nothing (switch_terminal k 1)
    else if (scan_code == 0x3D) && alt
    then nothing (switch_terminal k 2)
    else if scan_code == 0x1C
    then some (
      scan_code,
      record k { terminal_read_release = update k.terminal_read_release k.active_terminal 1 },
    )
    else some (position_of status scan_code, k)

unfoldable pub get_scan_code : Kernel → ℕ → Option (ℕ × Kernel)
get_scan_code k scan_code =
    if leb 0x80 scan_code then some (0, key_released k scan_code) else key_pressed k scan_code

unfoldable pub kb_int_handler : Kernel → ℕ → Option Kernel
kb_int_handler k scan_code = do
  (c, k') ← get_scan_code (send_eoi k 1) scan_code
  let char = scan_code_table c
  if char == b'\x08'
      then del_char_from_buf k'
      else if char == b'\n'
      then add_line k'
      else if char == 0
      then some k'
      else add_char_to_buf k' char
  where
    add_line : Kernel → Option Kernel
    add_line k' = do k'' ← add_char_to_buf k' b'\n'; some (copy_kb_buf k'')
