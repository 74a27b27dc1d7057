-- ===== src/Paging/View.antt =====
-- The video pages that a user program sees: vidmap of student-distrib/syscalls.c, with switch_terminal of
-- student-distrib/multi_term.c.
use mathlib.Core.Path.{subst}
use boz_os.Clib.Strings.{strlen}
use boz_os.Screen.{num_cols, update_cursor, video}
use boz_os.Terminals.{
  kb_size, save_terminal, load_terminal, switch_terminal, set_active_terminal, term_video,
  user_video_mem, map_video,
}
use boz_os.Prelude.{
  ◌%◌, ◌/◌, sym, ◌>>=◌, none, if_false, ==_of_ne, some, ◌≢◌, Option, ℕ, zero, suc, ◌+◌, ◌*◌, ◌^◌,
  ◌<◌, ◌≤◌, ◌≡◌, refl, ap, ◌∙◌, arith, bit_or, ◌&&◌, ◌||◌, false, ltb, leb, ◌==◌, if◌then◌else◌,
}
use boz_os.State.{update_own, outb, Kernel, term_3, update, kernel_base}
use boz_os.Paging.{vidmap, page_size, fill_table, kernel_top}

-- `fill_table` fills exactly its rounds.
pub fill_table_lem :
    (table : ℕ → ℕ) (v rounds i j : ℕ)
    → fill_table table v rounds i j ≡ (if leb i j && ltb j (i + rounds) then v else table j)
unfolding fill_table
fill_table_lem table v zero i j = ground arith
fill_table_lem table v (suc rounds) i j =
    ground (arith, fill_table_lem (update table i v) v rounds (i + 1) j)

-- Where a user program finds the screen of terminal `t`.
abbrev pub user_screen : ℕ → ℕ
user_screen t = user_video_mem + 2 ^ 12 * t

-- The page behind it while terminal `front` is taken to be shown.
abbrev pub screen_page : ℕ → ℕ → ℕ
screen_page front t = if t == front then video else term_video t

-- The directory leads from there to the table at `table_at`, whose pages, present, writable and open to
-- user programs, are the screens of the three terminals; no other page is present.
pub record Views (table_at : ℕ) (front : ℕ) (k : Kernel) : Type 0 where
  pub directory :
      (t : ℕ) → t ≤ term_3 → k.page_directory (user_screen t / 2 ^ 22) ≡ bit_or table_at 0x7
  pub pages :
      (t : ℕ)
      → t ≤ term_3
      → k.vidmap_ptable (user_screen t / 2 ^ 12 % 2 ^ 10) ≡ screen_page front t + 0x7
  pub absent : (i : ℕ) → i < page_size → term_3 < i → k.vidmap_ptable i ≡ 0x6

map_video-pages :
    (table : ℕ → ℕ) (front t : ℕ)
    → front ≤ term_3
    → t ≤ term_3
    → map_video table front t ≡ screen_page front t + 0x7
unfolding map_video
map_video-pages table zero zero h h' = refl
map_video-pages table zero (suc zero) h h' = refl
map_video-pages table zero (suc (suc zero)) h h' = refl
map_video-pages table (suc zero) zero h h' = refl
map_video-pages table (suc zero) (suc zero) h h' = refl
map_video-pages table (suc zero) (suc (suc zero)) h h' = refl
map_video-pages table (suc (suc zero)) zero h h' = refl
map_video-pages table (suc (suc zero)) (suc zero) h h' = refl
map_video-pages table (suc (suc zero)) (suc (suc zero)) h h' = refl
map_video-pages table front (suc (suc (suc t))) h h' = absurd (omega arith)
map_video-pages table (suc (suc (suc front))) t h h' = absurd (omega arith)

map_video-rest :
    (table : ℕ → ℕ) (front i : ℕ) → front ≤ term_3 → term_3 < i → map_video table front i ≡ table i
unfolding map_video
map_video-rest table front i h h' = ground (arith, h, h')

slot : (t : ℕ) → t ≤ term_3 → user_screen t / 2 ^ 12 % 2 ^ 10 ≡ t
slot t h = omega arith

map_video-Views :
    (table_at front : ℕ) (k : Kernel) (table : ℕ → ℕ)
    → front ≤ term_3
    → ((t : ℕ) → t ≤ term_3 → k.page_directory (user_screen t / 2 ^ 22) ≡ bit_or table_at 0x7)
    → ((i : ℕ) → i < page_size → term_3 < i → table i ≡ 0x6)
    → k.vidmap_ptable ≡ map_video table front
    → Views table_at front k
map_video-Views table_at front k table h directory absent e = record {
  directory = directory;
  pages = λ t l.
      ap k.vidmap_ptable (slot t l) ∙ ap (λ (f : ℕ → ℕ). f t) e ∙ map_video-pages table front t h l;
  absent = λ i l l'. ap (λ (f : ℕ → ℕ). f i) e ∙ map_video-rest table front i h l' ∙ absent i l l';
}

-- The pointer that vidmap accepts.
abbrev pub Accepted : ℕ → Type 0
Accepted screen_start =
    ((screen_start == 0) || (leb kernel_top screen_start && ltb screen_start kernel_base)) ≡ false

-- The tables behind the last steps of a switch.
settled-tables :
    (k : Kernel) (x y n : ℕ)
    → n ≤ term_3
    → let shown = update_cursor k x y in
      let k' =
        set_active_terminal (record shown { vidmap_ptable = map_video shown.vidmap_ptable n }) n in
      (k'.vidmap_ptable ≡ map_video k.vidmap_ptable n) × (k'.page_directory ≡ k.page_directory)
unfolding set_active_terminal update_cursor outb
settled-tables k x y n h = (refl, refl)

switched-tables :
    (k₁ k' : Kernel) (n : ℕ) (length : Option ℕ) (x y : ℕ → ℕ)
    → n ≤ term_3
    → (do
      buf_len ← length
      let shown = update_cursor k₁ (x buf_len) (y buf_len)
      some (
          set_active_terminal (record shown { vidmap_ptable = map_video shown.vidmap_ptable n }) n))
      ≡ some k'
    → (k'.vidmap_ptable ≡ map_video k₁.vidmap_ptable n) × (k'.page_directory ≡ k₁.page_directory)
switched-tables k₁ k' n none x y h run = cc
switched-tables k₁ k' n (some len) x y h run =
    let shown = update_cursor k₁ (x len) (y len) in
    let settled =
      set_active_terminal (record shown { vidmap_ptable = map_video shown.vidmap_ptable n }) n in
    let e : settled ≡ k' = cc in
    subst
      (λ (k' : Kernel).
        (k'.vidmap_ptable ≡ map_video k₁.vidmap_ptable n) × (k'.page_directory ≡ k₁.page_directory))
      e (settled-tables k₁ (x len) (y len) n h)

switch_terminal-tables :
    (k k' : Kernel) (n : ℕ)
    → n ≤ term_3
    → n ≢ k.active_terminal
    → switch_terminal k n ≡ some k'
    → (k'.vidmap_ptable ≡ map_video k.vidmap_ptable n) × (k'.page_directory ≡ k.page_directory)
unfolding switch_terminal load_terminal save_terminal
switch_terminal-tables k k' n h ne run =
    let k₁ = load_terminal (save_terminal k) n in
    let keep : (ltb term_3 n || (n == k.active_terminal)) ≡ false =
      ground (arith, h, ==_of_ne n k.active_terminal ne) in
    let t = k₁.terminal_table n in
    switched-tables k₁ k' n (strlen kb_size k₁.kb_buf 0) (λ len. t.x + len % num_cols)
      (λ len. t.y + len / num_cols) h (sym (if_false _ _ keep) ∙ run)

-- vidmap from a program of terminal `k.active_task`, with a pointer that it accepts: it answers 0 and
-- gives the address of that terminal's screen; from there the program's pages are the screens of the
-- three terminals, that of its own terminal being taken to be the one shown, and no other. After a
-- switch to another terminal `n`, they are the screens with `n` shown.
pub vidmap-Views :
    (table_at screen_start n : ℕ) (k k'' : Kernel)
    → k.active_task ≤ term_3
    → n ≤ term_3
    → n ≢ k.active_terminal
    → Accepted screen_start
    → switch_terminal (vidmap table_at k screen_start).2 n ≡ some k''
    → ((vidmap table_at k screen_start).0 ≡ 0)
      × ((vidmap table_at k screen_start).1 ≡ user_screen k.active_task)
      × Views table_at k.active_task (vidmap table_at k screen_start).2
      × Views table_at n k''
unfolding vidmap
vidmap-Views table_at screen_start n k k'' task h ne accepted run =
    let cleared = fill_table k.vidmap_ptable 0x6 page_size 0 in
    let directory = update k.page_directory (user_video_mem / 2 ^ 22) (bit_or table_at 0x7) in
    let k' = record k {
      page_directory = directory;
      vidmap_ptable = map_video cleared k.active_task;
    } in
    let result : vidmap table_at k screen_start ≡ (0, user_screen k.active_task, k') =
      if_false _ _ accepted in
    let at_directory : (t : ℕ)
        → t ≤ term_3
        → directory (user_screen t / 2 ^ 22) ≡ bit_or table_at 0x7 =
      λ t l.
        ap directory {y = user_video_mem / 2 ^ 22} (omega arith)
        ∙ update_own k.page_directory (user_video_mem / 2 ^ 22) (bit_or table_at 0x7) in
    let absent : (i : ℕ) → i < page_size → term_3 < i → cleared i ≡ 0x6 =
      λ i l l'. fill_table_lem k.vidmap_ptable 0x6 page_size 0 i ∙ ground (arith, l) in
    let mapped : Views table_at k.active_task k' =
      map_video-Views table_at k.active_task k' cleared task at_directory absent refl in
    let run' : switch_terminal k' n ≡ some k'' =
      ap (λ (r : ℕ × ℕ × Kernel). switch_terminal r.2 n) (sym result) ∙ run in
    let (table, same) = switch_terminal-tables k' k'' n h ne run' in
    (
      ap (λ (r : ℕ × ℕ × Kernel). r.0) result,
      ap (λ (r : ℕ × ℕ × Kernel). r.1) result,
      subst (λ (r : ℕ × ℕ × Kernel). Views table_at k.active_task r.2) (sym result) mapped,
      map_video-Views table_at n k'' (map_video cleared k.active_task) h
          (λ t l. ap (λ (f : ℕ → ℕ). f (user_screen t / 2 ^ 22)) same ∙ at_directory t l)
          (λ i l l'. map_video-rest cleared k.active_task i task l' ∙ absent i l l') table,
    )
