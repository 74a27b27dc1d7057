-- ===== src/Keyboard/Typing.antt =====
-- add_char_to_buf and del_char_from_buf of student-distrib/keyboard.c on kb_buf.
use boz_os.Prelude.{
  ℕ, ◌+◌, ◌-◌, ◌<◌, ◌≡◌, ◌≢◌, refl, sym, ap, ◌∙◌, arith, Bool, true, false, ltb, ◌==◌,
  if◌then◌else◌, Buf, some, store,
}
use native.Mathlib.Decide.{ℕ_discrete}
use mathlib.Core.Path.{subst, subst₂}
use boz_os.Clib.Strings.{strlen}
use boz_os.Clib.Strings.Length.{HasLength, strlen-HasLength}
use boz_os.State.{Kernel, outb}
use boz_os.Screen.{
  Active, active_term, set_screen_x, set_screen_y, set_position, update_cursor, video_scroll,
}
use boz_os.Terminals.{kb_size}
use boz_os.Keyboard.{put_newln_kb, draw, echo, erase, add_char_to_buf, del_char_from_buf}

-- Both branches keep the buffer.
kept_if :
    (b : Bool) (x y : Kernel) (v : Buf)
    → x.kb_buf ≡ v
    → y.kb_buf ≡ v
    → (if b then x else y).kb_buf ≡ v
kept_if true x y v h h' = h
kept_if false x y v h h' = h'

update_cursor_kb : (k : Kernel) (x y : ℕ) → (update_cursor k x y).kb_buf ≡ k.kb_buf
unfolding update_cursor outb
update_cursor_kb k x y = refl

set_screen_x_kb : (k : Kernel) (v : ℕ) (arg : Active) → (set_screen_x k v arg).kb_buf ≡ k.kb_buf
unfolding set_screen_x set_position
set_screen_x_kb k v arg = kept_if _ _ _ k.kb_buf (update_cursor_kb _ _ _) refl

set_screen_y_kb : (k : Kernel) (v : ℕ) (arg : Active) → (set_screen_y k v arg).kb_buf ≡ k.kb_buf
unfolding set_screen_y set_position
set_screen_y_kb k v arg = kept_if _ _ _ k.kb_buf (update_cursor_kb _ _ _) refl

video_scroll_kb : (k : Kernel) (arg : Active) → (video_scroll k arg).kb_buf ≡ k.kb_buf
unfolding video_scroll
video_scroll_kb k arg = refl

put_newln_kb_kb : (k : Kernel) → (put_newln_kb k).kb_buf ≡ k.kb_buf
unfolding put_newln_kb
put_newln_kb_kb k =
    kept_if _ _ _ k.kb_buf (set_screen_x_kb _ _ _ ∙ video_scroll_kb _ _)
      (set_screen_x_kb _ _ _ ∙ set_screen_y_kb _ _ _)

draw_kb : (k : Kernel) (c buf_len : ℕ) → (draw k c buf_len).kb_buf ≡ k.kb_buf
unfolding draw
draw_kb k c buf_len =
    let line = put_newln_kb k in
    kept_if (c == b'\n') (if _ then put_newln_kb line else line) (update_cursor _ _ _) k.kb_buf
      (kept_if _ (put_newln_kb line) line k.kb_buf (put_newln_kb_kb line ∙ put_newln_kb_kb k)
        (put_newln_kb_kb k))
      (update_cursor_kb _ _ _)

echo_kb : (k : Kernel) (c buf_len : ℕ) → (echo k c buf_len).kb_buf ≡ k.kb_buf
unfolding echo
echo_kb k c buf_len =
    let d = draw k c buf_len in
    kept_if _ (set_screen_y (video_scroll d active_term) _ active_term) d k.kb_buf
      (set_screen_y_kb (video_scroll d active_term) _ active_term
        ∙ video_scroll_kb d active_term
        ∙ draw_kb k c buf_len)
      (draw_kb k c buf_len)

erase_kb : (k : Kernel) (buf_len : ℕ) → (erase k buf_len).kb_buf ≡ k.kb_buf
unfolding erase
erase_kb k buf_len = update_cursor_kb _ _ _

-- The 128 bytes hold a string of `n` characters.
abbrev pub Typed : Buf → ℕ → Type 0
Typed b n = (n < kb_size) × HasLength b 0 n

put_Typed :
    (b : Buf) (n c : ℕ)
    → Typed b n
    → n < 127
    → 0 < c
    → Typed (store (store b (n + 1) 0) n c) (n + 1)
put_Typed b n c typed room visible =
    (omega arith, (ground arith, λ i h. ground (arith, typed.1.1 i)))

found_length : (k : Kernel) (n : ℕ) → Typed k.kb_buf n → strlen kb_size k.kb_buf 0 ≡ some n
found_length k n t = (strlen-HasLength kb_size k.kb_buf 0 n).1 t

-- Typing keeps kb_buf a string within its 128 bytes: a character that is not 0 goes behind the
-- characters that are there, unless these are 127 already, and then the buffer stays as it is.
pub add_char_to_buf-Typed :
    (k : Kernel) (c n : ℕ)
    → Typed k.kb_buf n
    → 0 < c
    → (k' : Kernel) × (add_char_to_buf k c ≡ some k')
      × Typed k'.kb_buf (if ltb n 127 then n + 1 else n)
      × ((i : ℕ) → i < n → k'.kb_buf i ≡ k.kb_buf i)
      × (n < 127 → k'.kb_buf n ≡ c)
unfolding add_char_to_buf
add_char_to_buf-Typed k c n typed visible =
    let e = found_length k n typed in
    elim (ℕ_discrete n 127) [
      | yes full ↦
          let kb : (if c == b'\n' then put_newln_kb (put_newln_kb k) else k).kb_buf ≡ k.kb_buf =
            kept_if _ _ _ k.kb_buf (put_newln_kb_kb _ ∙ put_newln_kb_kb k) refl in
          (
            if c == b'\n' then put_newln_kb (put_newln_kb k) else k,
            ground (arith, e, full),
            subst₂ Typed (sym kb) (ground (arith, full)) typed,
            λ i h. ap (λ (b : Buf). b i) kb,
            λ h. absurd (omega arith),
          )
      | no room ↦
          let kb = echo_kb (record k { kb_buf = store (store k.kb_buf (n + 1) 0) n c }) c n in
          (
            echo (record k { kb_buf = store (store k.kb_buf (n + 1) 0) n c }) c n,
            ground (arith, e, typed.0, room),
            subst₂ Typed (sym kb) (ground (arith, room, typed.0))
                (put_Typed k.kb_buf n c typed (omega (arith, room, typed.0)) visible),
            λ i h. ap (λ (b : Buf). b i) kb ∙ ground arith,
            λ h. ap (λ (b : Buf). b n) kb ∙ ground arith,
          )
    ]

-- The backspace key takes the last character off again: kb_buf stays a string, one character shorter,
-- or empty if it was empty, and the characters that are left are as they were.
pub del_char_from_buf-Typed :
    (k : Kernel) (n : ℕ)
    → Typed k.kb_buf n
    → (k' : Kernel) × (del_char_from_buf k ≡ some k')
      × Typed k'.kb_buf (n - 1)
      × ((i : ℕ) → i < n - 1 → k'.kb_buf i ≡ k.kb_buf i)
unfolding del_char_from_buf
del_char_from_buf-Typed k n typed =
    let e = found_length k n typed in
    elim (ℕ_discrete n 0) [
      | yes empty ↦
          (k, ground (arith, e, empty), subst (Typed k.kb_buf) (omega arith) typed, λ i h. refl)
      | no some_typed ↦
          let kb = erase_kb (record k { kb_buf = store k.kb_buf (n - 1) 0 }) n in
          (
            erase (record k { kb_buf = store k.kb_buf (n - 1) 0 }) n,
            ground (arith, e, some_typed),
            subst₂ Typed (sym kb) refl (cut_Typed k.kb_buf n typed some_typed),
            λ i h. ap (λ (b : Buf). b i) kb ∙ ground arith,
          )
    ]
  where
    cut_Typed : (b : Buf) (n : ℕ) → Typed b n → n ≢ 0 → Typed (store b (n - 1) 0) (n - 1)
    cut_Typed b n typed ne =
        (omega (arith, typed.0), (ground arith, λ i h. ground (arith, typed.1.1 i)))
