-- ===== src/Screen/Frame.antt =====
-- What printing changes, student-distrib/lib.c: putc and puts.
use boz_os.Prelude.{
  ℕ, zero, suc, ◌+◌, ◌<◌, ◌≤◌, ◌≡◌, ◌≢◌, refl, sym, ap, ◌∙◌, arith, Bool, true, false, some, ◌==◌,
  if◌then◌else◌, Buf,
}
use native.Mathlib.Decide.{ℕ_discrete}
use boz_os.State.{Kernel, Term, update, update_own, update_other, outb}
use boz_os.Screen.{
  active_task, video_scroll, set_position, next_line, next_column, place, putc, puts, update_cursor,
}

-- Only the screen, the printing positions and the ports have changed.
pub record Shown (k k' : Kernel) : Type 0 where
  pub frame : record k { terminal_table = k'.terminal_table; vram = k'.vram; ports = k'.ports } ≡ k'
  pub heads : (t : ℕ) → (k'.terminal_table t).pcb_head ≡ (k.terminal_table t).pcb_head

pub Shown-refl : (k : Kernel) → Shown k k
Shown-refl k = record { frame = refl; heads = λ t. refl }

pub Shown-trans : (k k₁ k₂ : Kernel) → Shown k k₁ → Shown k₁ k₂ → Shown k k₂
Shown-trans k k₁ k₂ s s' = record {
  frame =
      ap
        (λ (u : Kernel). record u {
          terminal_table = k₂.terminal_table;
          vram = k₂.vram;
          ports = k₂.ports;
        })
        s.frame
      ∙ s'.frame;
  heads = λ t. s'.heads t ∙ s.heads t;
}

if-Shown : (b : Bool) (k x y : Kernel) → Shown k x → Shown k y → Shown k (if b then x else y)
if-Shown true k x y s s' = s
if-Shown false k x y s s' = s'

set_position-Shown : (k : Kernel) (n x y : ℕ) → Shown k (set_position k n x y)
unfolding set_position
set_position-Shown k n x y = record { frame = refl; heads = heads }
  where
    heads :
        (t : ℕ)
        → (update k.terminal_table n (record (k.terminal_table n) { x = x; y = y }) t).pcb_head
          ≡ (k.terminal_table t).pcb_head
    heads t = elim (ℕ_discrete t n) [
      | yes e ↦
          ap
            (λ t.
              (update k.terminal_table n (record (k.terminal_table n) { x = x; y = y }) t).pcb_head)
            e
          ∙ ap (λ (u : Term). u.pcb_head) (update_own k.terminal_table n _)
          ∙ ap (λ t. (k.terminal_table t).pcb_head) (sym e)
      | no ne ↦ ap (λ (u : Term). u.pcb_head) (update_other k.terminal_table n _ t ne)
    ]

vram-Shown : (k : Kernel) (m : Buf) → Shown k (record k { vram = m })
vram-Shown k m = record { frame = refl; heads = λ t. refl }

scrolled-Shown :
    (k : Kernel) (n x y : ℕ) → Shown k (set_position (video_scroll k active_task) n x y)
unfolding video_scroll
scrolled-Shown k n x y =
    Shown-trans k (video_scroll k active_task) (set_position (video_scroll k active_task) n x y)
      (vram-Shown k (video_scroll k active_task).vram)
      (set_position-Shown (video_scroll k active_task) n x y)

next_line-Shown : (k : Kernel) → Shown k (next_line k)
unfolding next_line
next_line-Shown k = if-Shown _ k _ _ (scrolled-Shown k _ _ _) (set_position-Shown k _ _ _)

next_column-Shown : (k : Kernel) → Shown k (next_column k)
unfolding next_column
next_column-Shown k = if-Shown _ k _ _ (scrolled-Shown k _ _ _) (set_position-Shown k _ _ _)

place-Shown : (k : Kernel) (c : ℕ) → Shown k (place k c)
unfolding place
place-Shown k c =
    if-Shown _ k _ _ (next_line-Shown k) (Shown-trans k _ _ (vram-Shown k _) (next_column-Shown _))

update_cursor-Shown : (k : Kernel) (x y : ℕ) → Shown k (update_cursor k x y)
unfolding update_cursor outb
update_cursor-Shown k x y = record { frame = refl; heads = λ t. refl }

pub putc-Shown : (k : Kernel) (c : ℕ) → Shown k (putc k c)
unfolding putc
putc-Shown k c =
    if-Shown _ k _ _
      (Shown-trans k (place k c) _ (place-Shown k c) (update_cursor-Shown (place k c) _ _))
      (place-Shown k c)

-- puts on a string that ends within the fuel.
pub puts-Shown :
    (fuel : ℕ) (k : Kernel) (s : Buf) (p i n : ℕ)
    → i ≤ n
    → n < i + fuel
    → ((j : ℕ) → i ≤ j → j < n → s (p + j) ≢ 0)
    → s (p + n) ≡ 0
    → (k' : Kernel) × (puts fuel k s p i ≡ some (n, k')) × Shown k k'
unfolding puts
puts-Shown zero k s p i n l f inside end = absurd (omega arith)
puts-Shown (suc fuel) k s p i n l f inside end = elim (ℕ_discrete i n) [
  | yes e ↦
      let stop : (s (p + i) == 0) ≡ true = ground (arith, ap (λ i. s (p + i)) e ∙ end) in
      (k, rw stop (ap (λ n. some (n, k)) e), Shown-refl k)
  | no ne ↦
      let k₁ = putc k (s (p + i)) in
      let rest =
        puts-Shown fuel k₁ s p (i + 1) n (omega arith) (omega arith)
          (λ j h h'. inside j (omega arith) h') end in
      let more : (s (p + i) == 0) ≡ false = ground (arith, inside i (omega arith) (omega arith)) in
      (rest.0, rw more rest.1, Shown-trans k k₁ rest.0 (putc-Shown k (s (p + i))) rest.2)
]
