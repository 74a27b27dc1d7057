-- ===== src/Screen/Stream.antt =====
-- Printing a run of bytes, and that it does not look at the process structures: putc of
-- student-distrib/lib.c.
use boz_os.Prelude.{
  ◌-◌, ◌==◌, ◌&&◌, ◌||◌, Bool-cases, inl, inr, ℕ, zero, suc, ◌+◌, ◌≡◌, refl, ap, ◌∙◌, arith,
}
use boz_os.State.{Kernel, Pcb, outb}
use boz_os.Screen.{
  num_rows, num_cols, get_video_mem, get_terminal_ptr, get_terminal_color, video_scroll,
  set_position, next_line, next_column, place, putc, update_cursor,
}
use boz_os.Screen.Frame.{Shown, Shown-refl, Shown-trans, putc-Shown}

-- The bytes of `f` from `pos` on, `n` of them, one after the other.
unfoldable pub putc_stream : (ℕ → ℕ) → ℕ → ℕ → Kernel → Kernel
putc_stream f zero pos k = k
putc_stream f (suc n) pos k = putc_stream f n (pos + 1) (putc k (f pos))

abbrev pub with_pcb : (ℕ → Pcb) → Kernel → Kernel
with_pcb pcb k = record k { pcb = pcb }

next_line-with_pcb :
    (pcb : ℕ → Pcb) (k : Kernel) → next_line (with_pcb pcb k) ≡ with_pcb pcb (next_line k)
unfolding next_line set_position video_scroll get_video_mem get_terminal_ptr get_terminal_color
next_line-with_pcb pcb k = elim (Bool-cases ((k.terminal_table k.active_task).y == num_rows - 1)) [
  | inl e ↦ rw e refl
  | inr e ↦ rw e refl
]

next_column-with_pcb :
    (pcb : ℕ → Pcb) (k : Kernel) → next_column (with_pcb pcb k) ≡ with_pcb pcb (next_column k)
unfolding next_column set_position video_scroll get_video_mem get_terminal_ptr get_terminal_color
next_column-with_pcb pcb k =
    let t = k.terminal_table k.active_task in
    elim (Bool-cases ((t.y == num_rows - 1) && (t.x == num_cols - 1))) [
      | inl e ↦ rw e refl
      | inr e ↦ rw e refl
    ]

place-with_pcb :
    (pcb : ℕ → Pcb) (k : Kernel) (c : ℕ) → place (with_pcb pcb k) c ≡ with_pcb pcb (place k c)
unfolding place get_video_mem get_terminal_ptr get_terminal_color
place-with_pcb pcb k c = elim (Bool-cases ((c == b'\n') || (c == b'\r'))) [
  | inl e ↦ rw e (next_line-with_pcb pcb k)
  | inr e ↦ rw e (next_column-with_pcb pcb _)
]

putc-with_pcb :
    (pcb : ℕ → Pcb) (k : Kernel) (c : ℕ) → putc (with_pcb pcb k) c ≡ with_pcb pcb (putc k c)
unfolding putc update_cursor outb
putc-with_pcb pcb k c =
    rw (place-with_pcb pcb k c) (elim (Bool-cases ((place k c).active_terminal == k.active_task)) [
      | inl e ↦ rw e refl
      | inr e ↦ rw e refl
    ])

pub putc_stream-with_pcb :
    (pcb : ℕ → Pcb) (f : ℕ → ℕ) (n pos : ℕ) (k : Kernel)
    → putc_stream f n pos (with_pcb pcb k) ≡ with_pcb pcb (putc_stream f n pos k)
unfolding putc_stream
putc_stream-with_pcb pcb f zero pos k = refl
putc_stream-with_pcb pcb f (suc n) pos k =
    ap (putc_stream f n (pos + 1)) (putc-with_pcb pcb k (f pos))
    ∙ putc_stream-with_pcb pcb f n (pos + 1) (putc k (f pos))

pub putc_stream-Shown : (f : ℕ → ℕ) (n pos : ℕ) (k : Kernel) → Shown k (putc_stream f n pos k)
unfolding putc_stream
putc_stream-Shown f zero pos k = Shown-refl k
putc_stream-Shown f (suc n) pos k =
    Shown-trans k (putc k (f pos)) (putc_stream f n (pos + 1) (putc k (f pos)))
      (putc-Shown k (f pos)) (putc_stream-Shown f n (pos + 1) (putc k (f pos)))

pub putc_stream-append :
    (f : ℕ → ℕ) (a b pos mid n : ℕ) (k : Kernel)
    → mid ≡ pos + a
    → n ≡ a + b
    → putc_stream f n pos k ≡ putc_stream f b mid (putc_stream f a pos k)
unfolding putc_stream
putc_stream-append f zero b pos mid n k e e' =
    let start : pos ≡ mid = omega arith in let same : n ≡ b = omega arith in rw (same, start) refl
putc_stream-append f (suc a) b pos mid zero k e e' = absurd (omega arith)
putc_stream-append f (suc a) b pos mid (suc n) k e e' =
    putc_stream-append f a b (pos + 1) mid n (putc k (f pos)) (omega arith) (omega arith)
