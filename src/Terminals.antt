-- ===== src/Terminals.antt =====
-- multi_term_init and switch_terminal of student-distrib/multi_term.c. A pointer to the page of a
-- terminal is its physical address, which the page table maps to itself.
pub mod Switching
use boz_os.Prelude.{
  ℕ, ◌+◌, ◌*◌, ◌/◌, ◌%◌, ◌^◌, bit_or, ◌||◌, Option, some, ◌>>=◌, ltb, ◌==◌, if◌then◌else◌, Buf,
}
use boz_os.Clib.Asm.{memcpy, memset, memcpy_from}
use boz_os.Clib.Strings.{strlen}
use boz_os.State.{Term, Kernel, term_3, update}
use boz_os.Screen.{video, num_cols, num_rows, blank_cells, update_cursor}

-- TERM_1_VIDEO, TERM_2_VIDEO and TERM_3_VIDEO.
abbrev pub term_video : ℕ → ℕ
term_video n = video + (n + 1) * 2 ^ 12

abbrev pub user_video_mem : ℕ
user_video_mem = 136 * 2 ^ 20

abbrev pub video_size : ℕ
video_size = num_cols * num_rows * 2

abbrev pub kb_size : ℕ
kb_size = 128

-- COLOR_1, COLOR_2 and COLOR_3.
abbrev pub term_color : ℕ → ℕ
term_color n = if n == 0 then 0x7 else if n == 1 then 0xA else 0xC

unfoldable pub set_active_terminal : Kernel → ℕ → Kernel
set_active_terminal k n = record k { active_terminal = n }

-- What multi_term_init writes to the entry of a terminal: all fields but the keyboard buffer.
unfoldable pub init_term : Term → ℕ → Term
init_term t n = record t {
  pcb_head = 0;
  video = term_video n;
  x = 0;
  y = 0;
  color = term_color n;
  vidmap_addr = user_video_mem + 2 ^ 12 * n;
}

unfoldable pub multi_term_init : Kernel → Kernel
multi_term_init k =
    let usage = λ (p : ℕ). if ltb p 6 then 0 else k.process_usage p in
    let terms =
      λ (n : ℕ). if ltb term_3 n then k.terminal_table n else init_term (k.terminal_table n) n in
    let blank =
      λ (m : Buf) (n : ℕ). blank_cells m (term_video n) (term_color n) (num_rows * num_cols) 0 in
    record (set_active_terminal (record k { process_usage = usage }) 0) {
      terminal_table = terms;
      vram = blank (blank (blank k.vram 0) 1) 2;
    }

-- Saving the screen and the keyboard buffer in the entry of the active terminal.
unfoldable pub save_terminal : Kernel → Kernel
save_terminal k =
    let n = k.active_terminal in
    let t = k.terminal_table n in
    record k {
      vram = memcpy k.vram t.video video video_size;
      terminal_table =
          update k.terminal_table n
            (record t { kb_buf = memcpy_from t.kb_buf 0 k.kb_buf 0 kb_size });
    }

-- Clearing both, and loading those of the entry `n`.
unfoldable pub load_terminal : Kernel → ℕ → Kernel
load_terminal k n =
    let t = k.terminal_table n in
    record k {
      vram = memcpy (memset k.vram video b' ' video_size) video t.video video_size;
      kb_buf = memcpy_from (memset k.kb_buf 0 0 kb_size) 0 t.kb_buf 0 kb_size;
    }

-- The four assignments to vidmap_ptable.
unfoldable pub map_video : (ℕ → ℕ) → ℕ → ℕ → ℕ
map_video table n =
    update
      (update (update (update table 0 (bit_or (term_video 0) 0x7)) 1 (bit_or (term_video 1) 0x7)) 2
        (bit_or (term_video 2) 0x7))
      n (bit_or video 0x7)

-- switch_terminal; `none` is a keyboard buffer without a terminator.
unfoldable pub switch_terminal : Kernel → ℕ → Option Kernel
switch_terminal k new_terminal =
    let k' = load_terminal (save_terminal k) new_terminal in
    let t = k'.terminal_table new_terminal in
    let keep = ltb term_3 new_terminal || (new_terminal == k.active_terminal) in
    if keep then some k else do
      buf_len ← strlen kb_size k'.kb_buf 0
      let shown = update_cursor k' (t.x + buf_len % num_cols) (t.y + buf_len / num_cols)
      some (
          set_active_terminal
            (record shown { vidmap_ptable = map_video shown.vidmap_ptable new_terminal })
            new_terminal)
