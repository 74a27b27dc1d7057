-- ===== src/Process/Adding.antt =====
-- add_PCB of student-distrib/multi_term.c keeps the process lists of the three terminals apart, and in
-- step with process_usage.
use boz_os.Prelude.{
  false, true, ℕ, zero, suc, ◌+◌, ◌<◌, ◌≤◌, ◌≡◌, ◌≢◌, refl, arith, Option, some, List, [], ◌∷◌,
  ◌++◌, length, ◌==◌, if◌then◌else◌, minus_one,
}
use native.Mathlib.Decide.{ℕ_discrete}
use mathlib.Core.Path.{sym, subst, subst₂, ap, ◌∙◌}
use boz_os.State.{Pcb, Kernel, max_processes, term_3, update}
use boz_os.Process.Searching.{Searched, free_at, all_used, first_free-Searched}
use boz_os.Process.{get_pcb_base, set_child, set_pcb_head, first_free, add_pcb}
use boz_os.Process.Chain.{
  Chain, Chain-frame, Chain-snoc, count, count-append, count-last, last, last-lt,
  get_pcb_base-injective, get_pcb_base_bounds,
}
use boz_os.Process.Invariant.{total, IsTidy, count-le-total, count-le-one, length-le, walk-tail}

-- The outcome of adding a process to a terminal: -1 and no change if all numbers are in use, or the
-- number of a process that was free, which is now the last one of that terminal's list; only the
-- table of the terminals, the child pointers and process_usage have changed.
pub data Added (chains : ℕ → List ℕ) (k : Kernel) (t : ℕ) : Option (ℕ × Kernel) → Type 0 where
  refused :
      ((p : ℕ) → p < max_processes → k.process_usage p ≡ 1) → Added chains k t (some (minus_one, k))
  added :
      (p : ℕ) (k' : Kernel)
      → p < max_processes
      → k.process_usage p ≡ 0
      → record k {
        process_usage = k'.process_usage;
        terminal_table = k'.terminal_table;
        pcb = k'.pcb;
      }
        ≡ k'
      → ((a : ℕ) → record (k.pcb a) { child_pcb = (k'.pcb a).child_pcb } ≡ k'.pcb a)
      → IsTidy (update chains t (chains t ++ (p ∷ []))) k'
      → Added chains k t (some (p, k'))

only_child :
    (pcb : ℕ → Pcb) (b c a : ℕ)
    → record (pcb a) { child_pcb = (set_child pcb b c a).child_pcb } ≡ set_child pcb b c a
unfolding set_child
only_child pcb b c a = elim (ℕ_discrete a b) [
  | yes e ↦ let hit : (a == b) ≡ true = ground (arith, e) in rw (hit, e) refl
  | no ne ↦ let miss : (a == b) ≡ false = ground (arith, ne) in rw miss refl
]

pub total-update :
    (chains : ℕ → List ℕ) (t p q : ℕ)
    → t ≤ term_3
    → total (update chains t (chains t ++ (p ∷ []))) q ≡ total chains q + (if p == q then 1 else 0)
total-update chains zero p q h = omega (arith, count-append q (chains 0) (p ∷ []))
total-update chains (suc zero) p q h = omega (arith, count-append q (chains 1) (p ∷ []))
total-update chains (suc (suc zero)) p q h = omega (arith, count-append q (chains 2) (p ∷ []))
total-update chains (suc (suc (suc t))) p q h = absurd (omega arith)

pub two-le-total :
    (chains : ℕ → List ℕ) (s t p : ℕ)
    → s ≤ term_3
    → t ≤ term_3
    → s ≢ t
    → count p (chains s) + count p (chains t) ≤ total chains p
two-le-total chains zero zero p h h' ne = absurd (ne refl)
two-le-total chains zero (suc zero) p h h' ne = omega arith
two-le-total chains zero (suc (suc zero)) p h h' ne = omega arith
two-le-total chains (suc zero) zero p h h' ne = omega arith
two-le-total chains (suc zero) (suc zero) p h h' ne = absurd (ne refl)
two-le-total chains (suc zero) (suc (suc zero)) p h h' ne = omega arith
two-le-total chains (suc (suc zero)) zero p h h' ne = omega arith
two-le-total chains (suc (suc zero)) (suc zero) p h h' ne = omega arith
two-le-total chains (suc (suc zero)) (suc (suc zero)) p h h' ne = absurd (ne refl)
two-le-total chains (suc (suc (suc s))) t p h h' ne = absurd (omega arith)
two-le-total chains s (suc (suc (suc t))) p h h' ne = absurd (omega arith)

module _ (chains : ℕ → List ℕ) (k : Kernel) (tidy : IsTidy chains k) (t : ℕ) (here : t ≤ term_3)
    (p : ℕ) (small : p < max_processes) (unused : k.process_usage p ≡ 0) where
  -- The lists with `p` behind those of the terminal.
  abbrev grown : ℕ → List ℕ
  grown = update chains t (chains t ++ (p ∷ []))

  absent : (s : ℕ) → s ≤ term_3 → count p (chains s) ≡ 0
  absent s h = omega (arith, count-le-total chains s p h, tidy.counted p small)

  grown_counted : (q : ℕ) → q < max_processes → total grown q ≡ update k.process_usage p 1 q
  grown_counted q l = ground (arith, total-update chains t p q here, tidy.counted q l)

  other-same : (s : ℕ) → s ≢ t → chains s ≡ grown s
  other-same s ne = ground arith

  own-grown : (s : ℕ) → s ≡ t → chains t ++ (p ∷ []) ≡ grown s
  own-grown s e = ground arith

  -- The terminal had no process.
  first-IsTidy :
      chains t ≡ []
      → IsTidy grown (
          set_pcb_head (record k { process_usage = update k.process_usage p 1 }) t (get_pcb_base p))
  unfolding set_pcb_head
  first-IsTidy e =
      let alone : Chain k.pcb (get_pcb_base p) (p ∷ []) = (small, refl, tidy.free p small unused) in
      record {
        chain = λ s h. elim (ℕ_discrete s t) [
          | yes same ↦
              subst₂ (Chain k.pcb) (ground arith)
                (ap (λ ps. ps ++ (p ∷ [])) (sym e) ∙ own-grown s same) alone
          | no other ↦ subst₂ (Chain k.pcb) (ground arith) (other-same s other) (tidy.chain s h)
        ];
        counted = grown_counted;
        flag = λ q l. ground (arith, tidy.flag q l);
        free = λ q l u. ground (arith, tidy.free q l);
      }

  -- The terminal's last process is given the new one as its child.
  child-IsTidy :
      (q : ℕ) (qs : List ℕ)
      → chains t ≡ q ∷ qs
      → IsTidy grown (record k {
        process_usage = update k.process_usage p 1;
        pcb = set_child k.pcb (get_pcb_base (last q qs)) (get_pcb_base p);
      })
  unfolding set_child
  child-IsTidy q qs e =
      let end = last q qs in
      let listed : Chain k.pcb (k.terminal_table t).pcb_head (q ∷ qs) =
        rw e at (tidy.chain t here) in
      let end_small = last-lt k.pcb (k.terminal_table t).pcb_head q qs listed in
      let once : count end (chains t) ≡ 1 = omega (
        arith,
        ap (count end) e,
        count-last q qs,
        count-le-one chains k tidy t end here end_small,
      ) in
      let linked =
        Chain-snoc k.pcb (k.terminal_table t).pcb_head q qs p listed (ap (count end) (sym e) ∙ once)
          small (ap (count p) (sym e) ∙ absent t here) (tidy.free p small unused) in
      let pcb' = set_child k.pcb (get_pcb_base end) (get_pcb_base p) in
      let elsewhere : (r : ℕ)
          → get_pcb_base end ≢ get_pcb_base r
          → (pcb' (get_pcb_base r)).child_pcb ≡ (k.pcb (get_pcb_base r)).child_pcb =
        λ r ne. ground arith in
      let apart : (s r : ℕ)
          → s ≤ term_3
          → s ≢ t
          → get_pcb_base end ≡ get_pcb_base r
          → ¬ (0 < count r (chains s)) =
        λ s r h other same l.
          let e' : end ≡ r = get_pcb_base-injective end r end_small same in
          omega (
            arith,
            ap (λ v. count v (chains s)) e',
            once,
            two-le-total chains s t end h here other,
            tidy.counted end end_small,
            tidy.flag end end_small,
          ) in
      let in_use : (r : ℕ) → get_pcb_base end ≡ get_pcb_base r → k.process_usage r ≢ 0 = λ r same u.
        let e' : end ≡ r = get_pcb_base-injective end r end_small same in
        omega (
          arith,
          ap k.process_usage e',
          once,
          count-le-total chains t end here,
          tidy.counted end end_small,
        ) in
      record {
        chain = λ s h. elim (ℕ_discrete s t) [
          | yes same ↦
              subst₂ (Chain pcb') (ap (λ u. (k.terminal_table u).pcb_head) (sym same))
                (ap (λ ps. ps ++ (p ∷ [])) (sym e) ∙ own-grown s same) linked
          | no other ↦ subst (Chain pcb' (k.terminal_table s).pcb_head) (other-same s other) (
              Chain-frame k.pcb pcb' (chains s) (k.terminal_table s).pcb_head
                (λ r l. elsewhere r (λ same. apart s r h other same l)) (tidy.chain s h))
        ];
        counted = grown_counted;
        flag = λ r l. ground (arith, tidy.flag r l);
        free = λ r l u.
            elsewhere r (λ same. in_use r same (ground arith)) ∙ tidy.free r l (ground arith);
      }

-- add_PCB on a terminal's number, while the lists of the three terminals are apart and in step
-- with process_usage: if all six numbers are in use it answers -1 and changes nothing; else it
-- answers a number that was free, which is now in use and the last of that terminal's list; the
-- lists are still apart and in step, and nothing but process_usage, the table of the terminals and
-- the links between structures has changed.
pub add_pcb-Added :
    (chains : ℕ → List ℕ) (k : Kernel) (t : ℕ)
    → IsTidy chains k
    → t ≤ term_3
    → Added chains k t (add_pcb k t)
unfolding add_pcb
add_pcb-Added chains k t tidy here =
    go (first_free-Searched k.process_usage max_processes 0 max_processes refl) refl (chains t) refl
  where
    go :
        {n : ℕ}
        → Searched k.process_usage 0 max_processes n
        → first_free k.process_usage max_processes 0 ≡ n
        → (ps : List ℕ) → chains t ≡ ps
        → Added chains k t (add_pcb k t)
    go (all_used used) e ps e' =
        rw (e, add_pcb) (refused (λ p h. omega (arith, tidy.flag p h, used p (omega arith) h)))
    go (free_at p l h u) e [] e' =
        let c : (k.terminal_table t).pcb_head ≡ 0 = rw e' at (tidy.chain t here) in
        let run : add_pcb k t
            ≡ some (
              p,
              set_pcb_head (record k { process_usage = update k.process_usage p 1 }) t
                  (get_pcb_base p),
            ) =
          ground (arith, h) in
        subst (Added chains k t) (sym run)
          (added p _ h u refl (λ a. refl) (first-IsTidy chains k tidy t here p h u e'))
    go (free_at p l h u) e (q ∷ qs) e' =
        let c : Chain k.pcb (k.terminal_table t).pcb_head (q ∷ qs) = rw e' at (tidy.chain t here) in
        let ne : (k.terminal_table t).pcb_head ≢ 0 =
          ground (arith, get_pcb_base_bounds q c.0, c.1) in
        let short : length (q ∷ qs) ≤ max_processes =
          omega (arith, length-le chains k tidy t here, ap length e') in
        let walked = walk-tail chains k tidy (k.terminal_table t).pcb_head (q ∷ qs) c short ne in
        let run : add_pcb k t
            ≡ some (
              p,
              record k {
                process_usage = update k.process_usage p 1;
                pcb = set_child k.pcb (get_pcb_base (last q qs)) (get_pcb_base p);
              },
            ) =
          ground (arith, walked, h) in
        subst (Added chains k t) (sym run) (
          added p _ h u refl (only_child k.pcb (get_pcb_base (last q qs)) (get_pcb_base p))
            (child-IsTidy chains k tidy t here p h u q qs e'))
