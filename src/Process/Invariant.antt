-- ===== src/Process/Invariant.antt =====
-- get_PCB_tail of student-distrib/multi_term.c on process lists that are apart and agree
-- with process_usage.
use boz_os.Prelude.{
  ap, sym, ◌∙◌, ℕ, zero, suc, ◌+◌, ◌<◌, ◌≤◌, ◌≡◌, ◌≢◌, arith, some, List, [], ◌∷◌, length,
}
use mathlib.Core.Path.{subst}
use boz_os.State.{Kernel, max_processes, term_3}
use boz_os.Process.{get_pcb_base, get_pcb_tail, walk}
use boz_os.Process.Chain.{
  Chain-frame, Chain, count, last, length-count, walk-last, get_pcb_base_bounds,
}

-- How often a process is listed, over the three terminals.
abbrev pub total : (ℕ → List ℕ) → ℕ → ℕ
total chains p = count p (chains 0) + count p (chains 1) + count p (chains 2)

-- Each terminal's list is the one given, no process is listed twice, the processes listed are those
-- in use, and a structure that is not in use has no child.
pub record IsTidy (chains : ℕ → List ℕ) (k : Kernel) : Type 0 where
  pub chain : (t : ℕ) → t ≤ term_3 → Chain k.pcb (k.terminal_table t).pcb_head (chains t)
  pub counted : (p : ℕ) → p < max_processes → total chains p ≡ k.process_usage p
  pub flag : (p : ℕ) → p < max_processes → k.process_usage p ≤ 1
  pub free :
      (p : ℕ) → p < max_processes → k.process_usage p ≡ 0 → (k.pcb (get_pcb_base p)).child_pcb ≡ 0

-- Only the heads, the child pointers and process_usage count.
pub IsTidy-same :
    (chains : ℕ → List ℕ) (k k' : Kernel)
    → ((t : ℕ) → (k'.terminal_table t).pcb_head ≡ (k.terminal_table t).pcb_head)
    → ((a : ℕ) → (k'.pcb a).child_pcb ≡ (k.pcb a).child_pcb)
    → ((p : ℕ) → k'.process_usage p ≡ k.process_usage p)
    → IsTidy chains k
    → IsTidy chains k'
IsTidy-same chains k k' heads children usage tidy = record {
  chain = λ t h.
      subst (λ a. Chain k'.pcb a (chains t)) (sym (heads t))
        (Chain-frame k.pcb k'.pcb (chains t) (k.terminal_table t).pcb_head
          (λ p l. children (get_pcb_base p)) (tidy.chain t h));
  counted = λ p h. tidy.counted p h ∙ sym (usage p);
  flag = λ p h. omega (arith, usage p, tidy.flag p h);
  free = λ p h u. children (get_pcb_base p) ∙ tidy.free p h (sym (usage p) ∙ u);
}

-- Lists that agree on every terminal.
pub IsTidy-lists :
    (chains lists : ℕ → List ℕ) (k : Kernel)
    → ((t : ℕ) → chains t ≡ lists t)
    → IsTidy chains k
    → IsTidy lists k
IsTidy-lists chains lists k same tidy = record {
  chain = λ t h. subst (Chain k.pcb (k.terminal_table t).pcb_head) (same t) (tidy.chain t h);
  counted = λ p h. omega (
    arith,
    tidy.counted p h,
    ap (count p) (same 0),
    ap (count p) (same 1),
    ap (count p) (same 2),
  );
  flag = tidy.flag;
  free = tidy.free;
}

-- The address of the last process of a list, NULL if there is none.
abbrev pub tail_address : List ℕ → ℕ
tail_address [] = 0
tail_address (p ∷ ps) = get_pcb_base (last p ps)

pub count-le-total :
    (chains : ℕ → List ℕ) (t p : ℕ) → t ≤ term_3 → count p (chains t) ≤ total chains p
count-le-total chains zero p h = omega arith
count-le-total chains (suc zero) p h = omega arith
count-le-total chains (suc (suc zero)) p h = omega arith
count-le-total chains (suc (suc (suc t))) p h = absurd (omega arith)

module _ (chains : ℕ → List ℕ) (k : Kernel) (tidy : IsTidy chains k) where
  pub count-le-one : (t p : ℕ) → t ≤ term_3 → p < max_processes → count p (chains t) ≤ 1
  count-le-one t p h l = omega (arith, count-le-total chains t p h, tidy.counted p l, tidy.flag p l)

  pub length-le : (t : ℕ) → t ≤ term_3 → length (chains t) ≤ max_processes
  length-le t h = omega (
    arith,
    length-count k.pcb (k.terminal_table t).pcb_head (chains t) (tidy.chain t h),
    count-le-one t 0 h (omega arith),
    count-le-one t 1 h (omega arith),
    count-le-one t 2 h (omega arith),
    count-le-one t 3 h (omega arith),
    count-le-one t 4 h (omega arith),
    count-le-one t 5 h (omega arith),
  )

  pub walk-tail :
      (a : ℕ) (ps : List ℕ)
      → Chain k.pcb a ps
      → length ps ≤ max_processes
      → a ≢ 0
      → walk max_processes k.pcb a ≡ some (tail_address ps)
  walk-tail a [] c l ne = absurd (ne c)
  walk-tail a (p ∷ ps) c l ne = rw c.1 (walk-last max_processes k.pcb p ps c.2 (omega arith))

  -- get_PCB_tail ends, and finds the last process of the terminal's list, or NULL if it is empty.
  pub get_pcb_tail-last : (t : ℕ) → t ≤ term_3 → get_pcb_tail k t ≡ some (tail_address (chains t))
  unfolding get_pcb_tail
  get_pcb_tail-last t h = go (chains t) (tidy.chain t h) (length-le t h)
    where
      go :
          (ps : List ℕ)
          → Chain k.pcb (k.terminal_table t).pcb_head ps
          → length ps ≤ max_processes
          → get_pcb_tail k t ≡ some (tail_address ps)
      go [] c l = ground arith
      go (p ∷ ps) c l =
          ground
            (arith, walk-tail (k.terminal_table t).pcb_head (p ∷ ps) c l, get_pcb_base_bounds p c.0)
