-- ===== src/Terminals/Switching.antt =====
-- switch_terminal of student-distrib/multi_term.c: what is on the screen, and what is being typed, comes
-- back.
use boz_os.Prelude.{
  ℕ, ◌+◌, ◌-◌, ◌/◌, ◌%◌, ◌<◌, ◌≤◌, ◌≡◌, ◌≢◌, inl, inr, refl, sym, ap, ◌∙◌, arith, ltb, leb, ◌==◌,
  ◌&&◌, if◌then◌else◌, Buf, some, IsBytes,
}
use mathlib.Core.Path.{ap₂, subst}
use native.Mathlib.Decide.{ℕ_discrete}
use boz_os.Clib.Asm.{memcpy, memset, memcpy_from}
use boz_os.Clib.Copy.{memcpy-copied, memcpy_from_lem}
use boz_os.Clib.Fill.{memset-filled}
use boz_os.Clib.Strings.{strlen}
use boz_os.Clib.Strings.Length.{HasLength, strlen-HasLength}
use boz_os.State.{Kernel, Term, update_own, update_other, outb, term_3}
use boz_os.Screen.{num_cols, video, update_cursor}
use boz_os.Terminals.{
  term_video, video_size, kb_size, set_active_terminal, save_terminal, load_terminal, map_video,
  switch_terminal,
}

-- The pages of the terminals are where multi_term_init puts them, and memory holds bytes.
pub record InPlace (k : Kernel) : Type 0 where
  pub page : (n : ℕ) → n ≤ term_3 → (k.terminal_table n).video ≡ term_video n
  pub bytes : IsBytes k.vram

save_page :
    (m : Buf) (p q : ℕ)
    → IsBytes m
    → video + video_size ≤ p
    → memcpy m p video video_size q
      ≡ (if leb p q && ltb q (p + video_size) then m (video + (q - p)) else m q)
save_page m p q bytes apart = memcpy-copied m p video video_size q bytes (inr apart)

load_page :
    (m : Buf) (p q : ℕ)
    → IsBytes m
    → video + video_size ≤ p
    → memcpy (memset m video b' ' video_size) video p video_size q
      ≡ (if leb video q && ltb q (video + video_size) then m (p + (q - video)) else m q)
load_page m p q bytes apart =
    memcpy-copied (memset m video b' ' video_size) video p video_size q cleared (inl (omega arith))
    ∙ ground (
      arith,
      memset-filled m video b' ' video_size q,
      memset-filled m video b' ' video_size (p + (q - video)),
    )
  where
    cleared : IsBytes (memset m video b' ' video_size)
    cleared r = ground (arith, memset-filled m video b' ' video_size r, bytes r)

memcpy_whole : (dst src : Buf) (i : ℕ) → i < kb_size → memcpy_from dst 0 src 0 kb_size i ≡ src i
memcpy_whole dst src i l = ground (arith, memcpy_from_lem kb_size dst 0 src 0 i)

-- Where the screen of a terminal stands, and where what is being typed on it does.
abbrev pub home : Kernel → ℕ → ℕ
home k n = if n == k.active_terminal then video else term_video n

abbrev pub typing : Kernel → ℕ → ℕ → ℕ
typing k n i = if n == k.active_terminal then k.kb_buf i else (k.terminal_table n).kb_buf i

-- The state behind the two halves of a switch, the cursor apart.
abbrev moved : Kernel → ℕ → Kernel
moved k n = load_terminal (save_terminal k) n

module _ (k : Kernel) (n : ℕ) (ok : InPlace k) (old : k.active_terminal ≤ term_3) (new : n ≤ term_3)
    (other : n ≢ k.active_terminal) where
  saved-IsBytes : IsBytes (memcpy k.vram (term_video k.active_terminal) video video_size)
  saved-IsBytes q = ground (
    arith,
    save_page k.vram (term_video k.active_terminal) q ok.bytes (omega arith),
    ok.bytes q,
    ok.bytes (video + (q - term_video k.active_terminal)),
  )

  -- The entry of the new terminal is as it was.
  saved_entry :
      {A : Type 0} (f : Term → A) → f ((save_terminal k).terminal_table n) ≡ f (k.terminal_table n)
  unfolding save_terminal
  saved_entry f = ap f (update_other k.terminal_table k.active_terminal _ n other)

  moved_vram :
      (q : ℕ)
      → (moved k n).vram q
        ≡ memcpy
            (memset
              (memcpy k.vram (term_video k.active_terminal) video video_size)
              video
              b' '
              video_size)
            video
            (term_video n)
            video_size
            q
  unfolding save_terminal load_terminal
  moved_vram q =
      ap₂
        (λ p p'.
          memcpy (memset (memcpy k.vram p video video_size) video b' ' video_size) video p'
            video_size q)
        (ok.page k.active_terminal old) (saved_entry (λ t. t.video) ∙ ok.page n new)

  -- Each terminal's screen, at the place where it stands behind the switch.
  moved_screen :
      (m q : ℕ)
      → m ≤ term_3
      → q < video_size
      → (moved k n).vram ((if m == n then video else term_video m) + q) ≡ k.vram (home k m + q)
  moved_screen m q h l =
      let p = (if m == n then video else term_video m) + q in
      let s = memcpy k.vram (term_video k.active_terminal) video video_size in
      moved_vram p
      ∙ load_page s (term_video n) p saved-IsBytes (omega arith)
      ∙ ground (
        arith,
        save_page k.vram (term_video k.active_terminal) p ok.bytes (omega arith),
        save_page k.vram (term_video k.active_terminal) (term_video n + (p - video)) ok.bytes
            (omega arith),
      )

  loaded_kb : (i : ℕ) → i < kb_size → (moved k n).kb_buf i ≡ (k.terminal_table n).kb_buf i
  unfolding load_terminal save_terminal
  loaded_kb i l =
      memcpy_whole (memset k.kb_buf 0 0 kb_size) ((save_terminal k).terminal_table n).kb_buf i l
      ∙ saved_entry (λ (t : Term). t.kb_buf i)

  own_kb :
      (i : ℕ) → i < kb_size → ((moved k n).terminal_table k.active_terminal).kb_buf i ≡ k.kb_buf i
  unfolding save_terminal load_terminal
  own_kb i l =
      ap (λ (t : Term). t.kb_buf i) (update_own k.terminal_table k.active_terminal _)
      ∙ memcpy_whole (k.terminal_table k.active_terminal).kb_buf k.kb_buf i l

  other_kb :
      (m i : ℕ)
      → m ≢ k.active_terminal
      → ((moved k n).terminal_table m).kb_buf i ≡ (k.terminal_table m).kb_buf i
  unfolding save_terminal load_terminal
  other_kb m i ne =
      ap (λ (t : Term). t.kb_buf i) (update_other k.terminal_table k.active_terminal _ m ne)

  -- What was being typed on each terminal.
  moved_typing :
      (m i : ℕ)
      → i < kb_size
      → (if m == n then (moved k n).kb_buf i else ((moved k n).terminal_table m).kb_buf i)
        ≡ typing k m i
  moved_typing m i l = elim (ℕ_discrete m n) [
    | yes e ↦
        subst
          (λ m.
            (if m == n then (moved k n).kb_buf i else ((moved k n).terminal_table m).kb_buf i)
            ≡ typing k m i)
          (sym e) (ground (arith, loaded_kb i l, other))
    | no ne ↦ elim (ℕ_discrete m k.active_terminal) [
      | yes e ↦
          subst
            (λ m.
              (if m == n then (moved k n).kb_buf i else ((moved k n).terminal_table m).kb_buf i)
              ≡ typing k m i)
            (sym e) (ground (arith, own_kb i l, other))
      | no apart ↦ ground (arith, other_kb m i apart, ne, apart)
    ]
  ]

-- The last steps of a switch.
settled :
    (k : Kernel) (x y n : ℕ) (table : ℕ → ℕ)
    → n ≤ term_3
    → set_active_terminal (record (update_cursor k x y) { vidmap_ptable = table }) n
      ≡ record k { ports = (update_cursor k x y).ports; vidmap_ptable = table; active_terminal = n }
unfolding set_active_terminal update_cursor outb
settled k x y n table h = refl

-- What a switch to the terminal `n` leaves behind: `n` is shown, and every terminal still has its
-- screen and what was being typed on it.
pub record Switched (k : Kernel) (n : ℕ) (k' : Kernel) : Type 0 where
  pub shown : k'.active_terminal ≡ n
  pub screen :
      (m q : ℕ) → m ≤ term_3 → q < video_size → k'.vram (home k' m + q) ≡ k.vram (home k m + q)
  pub typed : (m i : ℕ) → i < kb_size → typing k' m i ≡ typing k m i

-- switch_terminal to one of the three terminals, if its keyboard buffer holds a string, runs to its
-- end and shows that terminal; the 4000 bytes of every terminal's screen, at the visible page if it
-- is shown and at its own page else, and the 128 bytes that are being typed on it, stay the same.
pub switch_terminal-Switched :
    (k : Kernel) (n len : ℕ)
    → InPlace k
    → k.active_terminal ≤ term_3
    → n ≤ term_3
    → len < kb_size
    → HasLength (k.terminal_table n).kb_buf 0 len
    → (k' : Kernel) × (switch_terminal k n ≡ some k') × Switched k n k'
unfolding switch_terminal
switch_terminal-Switched k n len ok old new short string =
    let k₁ = moved k n in
    elim (ℕ_discrete n k.active_terminal) [
      | yes e ↦ (
        k,
        ground (arith, e),
        record { shown = sym e; screen = λ m q h l. refl; typed = λ m i l. refl },
      )
      | no other ↦
          let short' : strlen kb_size k₁.kb_buf 0 ≡ some len =
            (strlen-HasLength kb_size k₁.kb_buf 0 len).1 (
              short,
              (
                loaded_kb k n ok old new other (0 + len) (omega arith) ∙ string.0,
                λ i h z.
                    string.1 i h (sym (loaded_kb k n ok old new other (0 + i) (omega arith)) ∙ z),
              ),
            ) in
          let t = k₁.terminal_table n in
          let x = t.x + len % num_cols in
          let y = t.y + len / num_cols in
          let run : switch_terminal k n
              ≡ some (
                  set_active_terminal
                    (record (update_cursor k₁ x y) {
                      vidmap_ptable = map_video (update_cursor k₁ x y).vidmap_ptable n;
                    })
                    n) =
            ground (arith, short', new, other) in
          (
            _,
            run ∙ ap some (settled k₁ x y n _ new),
            record {
              shown = refl;
              screen = moved_screen k n ok old new other;
              typed = moved_typing k n ok old new other;
            },
          )
    ]
