-- ===== src/Process/Chain.antt =====
-- A terminal's process list in memory as a list of process numbers.
use boz_os.Prelude.{
  ℕ, zero, suc, ◌+◌, ◌*◌, ◌-◌, ◌<◌, ◌≤◌, ◌≡◌, ◌≢◌, refl, arith, some, List, [], ◌∷◌, ◌++◌, length,
  ◌==◌, if◌then◌else◌,
}
use boz_os.State.{Pcb, max_processes, kernel_base, pcb_offset}
use boz_os.Process.{get_pcb_base, walk, set_child}

-- From the address `a` the child pointers lead through the structures of the processes listed.
abbrev pub Chain : (ℕ → Pcb) → ℕ → List ℕ → Type 0
Chain pcb a [] = a ≡ 0
Chain pcb a (p ∷ ps) =
    (p < max_processes) × (a ≡ get_pcb_base p) × Chain pcb (pcb (get_pcb_base p)).child_pcb ps

-- How often a process is listed.
abbrev pub count : ℕ → List ℕ → ℕ
count p [] = 0
count p (q ∷ qs) = (if q == p then 1 else 0) + count p qs

-- The last process, behind `p`.
abbrev pub last : ℕ → List ℕ → ℕ
last p [] = p
last p (q ∷ qs) = last q qs

pub get_pcb_base_bounds :
    (p : ℕ)
    → p < max_processes
    → (kernel_base - 6 * pcb_offset ≤ get_pcb_base p) × (get_pcb_base p + pcb_offset ≤ kernel_base)
unfolding get_pcb_base
get_pcb_base_bounds p h = ground arith

-- Two processes never share a structure: get_PCB_base gives a number below six an address that it
-- gives no other number.
pub get_pcb_base-injective : (p q : ℕ) → p < max_processes → get_pcb_base p ≡ get_pcb_base q → p ≡ q
unfolding get_pcb_base
get_pcb_base-injective p q h e = ground arith

-- The walk ends at the last process, given as much fuel as there are processes.
pub walk-last :
    (fuel : ℕ) (pcb : ℕ → Pcb) (p : ℕ) (ps : List ℕ)
    → Chain pcb (pcb (get_pcb_base p)).child_pcb ps
    → length ps < fuel
    → walk fuel pcb (get_pcb_base p) ≡ some (get_pcb_base (last p ps))
unfolding walk
walk-last zero pcb p ps c f = absurd (omega arith)
walk-last (suc fuel) pcb p [] c f = ground arith
walk-last (suc fuel) pcb p (q ∷ ps) c f =
    ground (arith, walk-last fuel pcb q ps c.2 (omega arith), get_pcb_base_bounds q c.0)

-- A change of structures outside the list leaves the list alone.
pub Chain-frame :
    (pcb pcb' : ℕ → Pcb) (ps : List ℕ) (a : ℕ)
    → ((p : ℕ)
        → 0 < count p ps
        → (pcb' (get_pcb_base p)).child_pcb ≡ (pcb (get_pcb_base p)).child_pcb)
    → Chain pcb a ps
    → Chain pcb' a ps
Chain-frame pcb pcb' [] a same c = c
Chain-frame pcb pcb' (p ∷ ps) a same c =
    let e = same p (ground arith) in
    (
      c.0,
      c.1,
      Chain-frame pcb pcb' ps (pcb' (get_pcb_base p)).child_pcb (λ q l. same q (omega arith))
          (rw e c.2),
    )

pub count-append : (p : ℕ) (xs ys : List ℕ) → count p (xs ++ ys) ≡ count p xs + count p ys
count-append p [] ys = omega arith
count-append p (x ∷ xs) ys = omega (arith, count-append p xs ys)

-- The process numbers are below 6, so the counts of those six add up to the length.
pub length-count :
    (pcb : ℕ → Pcb) (a : ℕ) (ps : List ℕ)
    → Chain pcb a ps
    → length ps ≡ count 0 ps + count 1 ps + count 2 ps + count 3 ps + count 4 ps + count 5 ps
length-count pcb a [] c = refl
length-count pcb a (p ∷ ps) c =
    let ih = length-count pcb (pcb (get_pcb_base p)).child_pcb ps c.2 in
    let one : (if p == 0 then 1 else 0)
          + (if p == 1 then 1 else 0)
          + (if p == 2 then 1 else 0)
          + (if p == 3 then 1 else 0)
          + (if p == 4 then 1 else 0)
          + (if p == 5 then 1 else 0)
        ≡ 1 =
      ground (arith, c.0) in
    omega (arith, ih, one)

pub count-last : (p : ℕ) (ps : List ℕ) → 0 < count (last p ps) (p ∷ ps)
count-last p [] = ground arith
count-last p (q ∷ qs) = omega (arith, count-last q qs)

pub last-lt :
    (pcb : ℕ → Pcb) (a p : ℕ) (ps : List ℕ) → Chain pcb a (p ∷ ps) → last p ps < max_processes
last-lt pcb a p [] c = c.0
last-lt pcb a p (q ∷ qs) c = last-lt pcb (pcb (get_pcb_base p)).child_pcb q qs c.2

-- A process that is not listed stands nowhere else when the last one links to it.
pub Chain-snoc :
    (pcb : ℕ → Pcb) (a p : ℕ) (ps : List ℕ) (new : ℕ)
    → Chain pcb a (p ∷ ps)
    → count (last p ps) (p ∷ ps) ≡ 1
    → new < max_processes
    → count new (p ∷ ps) ≡ 0
    → (pcb (get_pcb_base new)).child_pcb ≡ 0
    → Chain (set_child pcb (get_pcb_base (last p ps)) (get_pcb_base new)) a ((p ∷ ps) ++ (new ∷ []))
unfolding set_child
Chain-snoc pcb a p [] new c once small absent free =
    (c.0, c.1, (small, ground arith, ground (arith, get_pcb_base-injective new p small)))
Chain-snoc pcb a p (q ∷ qs) new c once small absent free =
    let apart : p ≢ last q qs = ground (arith, count-last q qs) in
    let same : get_pcb_base p ≢ get_pcb_base (last q qs) =
      λ e. apart (get_pcb_base-injective p (last q qs) c.0 e) in
    let rest =
      Chain-snoc pcb (pcb (get_pcb_base p)).child_pcb q qs new c.2 (ground arith) small
        (ground arith) free in
    let kept : (set_child pcb (get_pcb_base (last q qs)) (get_pcb_base new)
          (get_pcb_base p)).child_pcb
        ≡ (pcb (get_pcb_base p)).child_pcb =
      ground arith in
    (c.0, c.1, rw kept rest)

-- The last process has no child.
pub Chain-end :
    (pcb : ℕ → Pcb) (a p : ℕ) (ps : List ℕ)
    → Chain pcb a (p ∷ ps)
    → (pcb (get_pcb_base (last p ps))).child_pcb ≡ 0
Chain-end pcb a p [] c = c.2
Chain-end pcb a p (q ∷ qs) c = Chain-end pcb (pcb (get_pcb_base p)).child_pcb q qs c.2

-- The list without its last process, when the one before forgets it.
pub Chain-cut :
    (pcb : ℕ → Pcb) (a p : ℕ) (ps : List ℕ) (self : ℕ)
    → Chain pcb a ((p ∷ ps) ++ (self ∷ []))
    → count (last p ps) (p ∷ ps) ≡ 1
    → Chain (set_child pcb (get_pcb_base (last p ps)) 0) a (p ∷ ps)
unfolding set_child
Chain-cut pcb a p [] self c once = (c.0, c.1, ground arith)
Chain-cut pcb a p (q ∷ qs) self c once =
    let apart : p ≢ last q qs = ground (arith, count-last q qs) in
    let same : get_pcb_base p ≢ get_pcb_base (last q qs) =
      λ e. apart (get_pcb_base-injective p (last q qs) c.0 e) in
    let rest = Chain-cut pcb (pcb (get_pcb_base p)).child_pcb q qs self c.2 (ground arith) in
    let kept : (set_child pcb (get_pcb_base (last q qs)) 0 (get_pcb_base p)).child_pcb
        ≡ (pcb (get_pcb_base p)).child_pcb =
      ground arith in
    (c.0, c.1, rw kept rest)
