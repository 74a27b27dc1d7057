-- ===== src/Process/Searching.antt =====
-- The searches of student-distrib/multi_term.c: add_PCB for a process number that is not in use, and
-- get_PCB_tail for the last process of a list.
use boz_os.Prelude.{
  refl, ℕ, zero, suc, ◌+◌, ◌<◌, ◌≤◌, ◌≡◌, ◌≢◌, inl, inr, arith, ◌==◌, minus_one, Bool-cases,
}
use native.Mathlib.Decide.{ℕ_discrete}
use boz_os.State.{Kernel, Pcb, max_processes}
use boz_os.Process.{first_free, walk, get_pcb_tail}

-- What the search for a free number finds.
pub data Searched (usage : ℕ → ℕ) (from to : ℕ) : ℕ → Type 0 where
  free_at : (p : ℕ) → from ≤ p → p < to → usage p ≡ 0 → Searched usage from to p
  all_used : ((p : ℕ) → from ≤ p → p < to → usage p ≢ 0) → Searched usage from to minus_one

pub first_free-Searched :
    (usage : ℕ → ℕ) (rounds from to : ℕ)
    → from + rounds ≡ to
    → Searched usage from to (first_free usage rounds from)
unfolding first_free
first_free-Searched usage zero from to e = all_used (λ p l h. absurd (omega arith))
first_free-Searched usage (suc rounds) from to e = elim (Bool-cases (usage from == 0)) [
  | inl hit ↦ rw hit (free_at from (omega arith) (omega arith) (ground arith))
  | inr miss ↦
      rw miss (later (ground arith) (first_free-Searched usage rounds (from + 1) to (omega arith)))
]
  where
    later : usage from ≢ 0 → {p : ℕ} → Searched usage (from + 1) to p → Searched usage from to p
    later ne (free_at p l h u) = free_at p (omega arith) h u
    later ne (all_used used) = all_used (λ p l h. elim (ℕ_discrete from p) [
      | yes e ↦ λ z. ne (rw e z)
      | no ne ↦ used p (omega arith) h
    ])

-- A walk reads the child pointers only.
walk_same :
    (fuel : ℕ) (pcb pcb' : ℕ → Pcb) (a : ℕ)
    → ((q : ℕ) → (pcb' q).child_pcb ≡ (pcb q).child_pcb)
    → walk fuel pcb' a ≡ walk fuel pcb a
unfolding walk
walk_same zero pcb pcb' a same = refl
walk_same (suc fuel) pcb pcb' a same =
    let ih = walk_same fuel pcb pcb' (pcb a).child_pcb same in rw (same a, ih) refl

pub get_pcb_tail_same :
    (k k' : Kernel) (t : ℕ)
    → (k'.terminal_table t).pcb_head ≡ (k.terminal_table t).pcb_head
    → ((q : ℕ) → (k'.pcb q).child_pcb ≡ (k.pcb q).child_pcb)
    → get_pcb_tail k' t ≡ get_pcb_tail k t
unfolding get_pcb_tail
get_pcb_tail_same k k' t e same =
    rw (e, walk_same max_processes k.pcb k'.pcb (k.terminal_table t).pcb_head same) refl
