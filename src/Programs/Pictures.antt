-- ===== src/Programs/Pictures.antt =====
-- The pictures that pingpong, syscalls/ece391pingpong.c, shows.
use boz_os.Prelude.{
  ℕ, zero, suc, ◌+◌, ◌-◌, ◌≤◌, ◌<◌, ◌≡◌, ◌≢◌, ◌⊎◌, sym, ◌∙◌, inl, inr, arith, true, Bool-cases,
  ◌==◌, leb, ltb, ◌&&◌, ◌||◌, if◌then◌else◌, Buf, store,
}
use boz_os.Clib.Strings.Length.{HasLength}
use boz_os.Programs.{local_at}
use boz_os.Programs.Pingpong.{bufmax, startloop, loopmax, blank, init_walls, draw}

-- The picture: walls at 1 and 78, the character between them, a line end and the terminator.
abbrev pub picture_at : ℕ → ℕ → ℕ → ℕ
picture_at j curchar i =
    if i == j
    then curchar
    else if (i == 1) || (i == 78)
    then b'|'
    else if i == 79
    then b'\n'
    else if i == 80
    then 0
    else b' '

blank_lem :
    (buf : Buf) (rounds i q : ℕ)
    → blank buf rounds i q
      ≡ (if leb (local_at + i) q && ltb q (local_at + i + rounds) then b' ' else buf q)
unfolding blank
blank_lem buf zero i q = ground arith
blank_lem buf (suc rounds) i q =
    ground (arith, blank_lem (store buf (local_at + i) b' ') rounds (i + 1) q)

-- What the array holds outside the part between the walls.
abbrev pub HasWalls : Buf → Type 0
HasWalls buf =
    (i : ℕ)
    → i < bufmax
    → (i < startloop) ⊎ (loopmax ≤ i)
    → buf (local_at + i) ≡ picture_at startloop b' ' i

walls : (buf : Buf) → HasWalls (init_walls buf)
unfolding init_walls
walls buf i h c = ground (arith, blank_lem buf bufmax 0 (local_at + i), h, c)

draw-picture :
    (buf : Buf) (j curchar : ℕ)
    → HasWalls buf
    → startloop ≤ j
    → j < loopmax
    → (i : ℕ) → i < bufmax
    → draw buf j curchar (local_at + i) ≡ picture_at j curchar i
unfolding draw
draw-picture buf j curchar w l h i b = elim (Bool-cases (ltb i startloop || leb loopmax i)) [
  | inl outside ↦
      let kept : buf (local_at + i) ≡ picture_at startloop b' ' i = w i b (sides i outside) in
      ground (arith, blank_lem buf (loopmax - startloop) startloop (local_at + i), kept, outside)
  | inr inside ↦
      ground (arith, blank_lem buf (loopmax - startloop) startloop (local_at + i), inside)
]
  where
    sides : (i : ℕ) → (ltb i startloop || leb loopmax i) ≡ true → (i < startloop) ⊎ (loopmax ≤ i)
    sides i outside = ground (arith, outside)

-- The array as the program has it: set up, then drawn on between the walls.
pub data Drawn : Buf → Type 0 where
  set_up : (buf : Buf) → Drawn (init_walls buf)
  drawn_on :
      {buf : Buf} (j curchar : ℕ)
      → Drawn buf
      → startloop ≤ j
      → j < loopmax
      → Drawn (draw buf j curchar)

Drawn-HasWalls : {buf : Buf} → Drawn buf → HasWalls buf
Drawn-HasWalls (set_up buf) = walls buf
Drawn-HasWalls (drawn_on {buf} j curchar d l h) =
    λ i b c. draw-picture buf j curchar (Drawn-HasWalls d) l h i b ∙ same i c
  where
    same :
        (i : ℕ)
        → (i < startloop) ⊎ (loopmax ≤ i)
        → picture_at j curchar i ≡ picture_at startloop b' ' i
    same i c = ground (arith, c, l, h)

-- However often the program has drawn, the next picture with a letter at a place between the walls is a
-- string of 80 characters: the two walls, the letter at its place and nowhere else, blanks, and a line end.
pub Drawn-picture :
    (buf : Buf) (j curchar : ℕ)
    → Drawn buf
    → startloop ≤ j
    → j < loopmax
    → curchar ≢ 0
    → ((i : ℕ) → i < bufmax → draw buf j curchar (local_at + i) ≡ picture_at j curchar i)
      × HasLength (draw buf j curchar) local_at 80
Drawn-picture buf j curchar d l h visible =
    let picture = draw-picture buf j curchar (Drawn-HasWalls d) l h in
    (
      picture,
      (
        picture 80 (omega arith) ∙ ground (arith, l, h),
        λ i b e. seen i b (sym (picture i (omega arith)) ∙ e),
      ),
    )
  where
    seen : (i : ℕ) → i < 80 → picture_at j curchar i ≢ 0
    seen i b = ground (arith, visible, b, l, h)
