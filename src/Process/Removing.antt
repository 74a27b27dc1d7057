-- ===== src/Process/Removing.antt =====
-- The end of a process in halt of student-distrib/syscalls.c: its number is free again, and the one
-- before it in the terminal's list is the last.
use boz_os.Prelude.{
  ℕ, zero, suc, ◌+◌, ◌<◌, ◌≤◌, ◌≡◌, ◌≢◌, refl, sym, ap, ◌∙◌, arith, List, [], ◌∷◌, ◌++◌, ◌==◌,
  if◌then◌else◌,
}
use native.Mathlib.Decide.{ℕ_discrete}
use mathlib.Core.Path.{subst}
use boz_os.State.{update_own, update_other, Kernel, Pcb, max_processes, term_3, update}
use boz_os.Process.{get_pcb_base, set_child}
use boz_os.Process.Chain.{
  Chain, Chain-frame, Chain-cut, Chain-end, count, count-append, count-last, last, last-lt,
  get_pcb_base-injective,
}
use boz_os.Process.Invariant.{total, IsTidy, count-le-total, count-le-one}
use boz_os.Process.Adding.{two-le-total}

-- What a terminal's list adds to the total is not more than the total without it.
total-shrunk :
    (chains : ℕ → List ℕ) (t p q : ℕ) (ps : List ℕ)
    → t ≤ term_3
    → chains t ≡ ps ++ (p ∷ [])
    → total chains q ≡ total (update chains t ps) q + (if p == q then 1 else 0)
total-shrunk chains zero p q ps h e = omega (arith, ap (count q) e, count-append q ps (p ∷ []))
total-shrunk chains (suc zero) p q ps h e =
    omega (arith, ap (count q) e, count-append q ps (p ∷ []))
total-shrunk chains (suc (suc zero)) p q ps h e =
    omega (arith, ap (count q) e, count-append q ps (p ∷ []))
total-shrunk chains (suc (suc (suc t))) p q ps h e = absurd (omega arith)

pub last-append : (p : ℕ) (ps : List ℕ) (q : ℕ) → last p (ps ++ (q ∷ [])) ≡ q
last-append p [] q = refl
last-append p (r ∷ rs) q = last-append r rs q

before-lt :
    (pcb : ℕ → Pcb) (a p : ℕ) (ps : List ℕ) (q : ℕ)
    → Chain pcb a ((p ∷ ps) ++ (q ∷ []))
    → last p ps < max_processes
before-lt pcb a p [] q c = c.0
before-lt pcb a p (r ∷ rs) q c = before-lt pcb (pcb (get_pcb_base p)).child_pcb r rs q c.2

module _ (chains : ℕ → List ℕ) (k : Kernel) (tidy : IsTidy chains k) (t : ℕ) (here : t ≤ term_3)
    (q : ℕ) (qs : List ℕ) (p : ℕ) (listed : chains t ≡ (q ∷ qs) ++ (p ∷ [])) where
  abbrev before : ℕ
  before = last q qs

  -- The kernel without the process.
  abbrev pub removed : Kernel
  removed = record k {
    process_usage = update k.process_usage p 0;
    pcb = set_child k.pcb (get_pcb_base before) 0;
  }

  abbrev pub shrunk : ℕ → List ℕ
  shrunk = update chains t (q ∷ qs)

  own : Chain k.pcb (k.terminal_table t).pcb_head ((q ∷ qs) ++ (p ∷ []))
  own = subst (Chain k.pcb (k.terminal_table t).pcb_head) listed (tidy.chain t here)

  pub removed-lt : p < max_processes
  removed-lt =
      subst (λ n. n < max_processes) (last-append q qs p)
        (last-lt k.pcb (k.terminal_table t).pcb_head q (qs ++ (p ∷ [])) own)

  pub no_child : (k.pcb (get_pcb_base p)).child_pcb ≡ 0
  no_child =
      ap (λ n. (k.pcb (get_pcb_base n)).child_pcb) (sym (last-append q qs p))
      ∙ Chain-end k.pcb (k.terminal_table t).pcb_head q (qs ++ (p ∷ [])) own

  pub counts : (r : ℕ) → r < max_processes → count r (q ∷ qs) + (if p == r then 1 else 0) ≤ 1
  counts r l = omega (
    arith,
    ap (count r) listed,
    count-append r (q ∷ qs) (p ∷ []),
    count-le-one chains k tidy t r here l,
  )

  self_once : ◌≡◌ {A = ℕ} (if p == p then 1 else 0) 1
  self_once = ground arith

  pub used : k.process_usage p ≡ 1
  used = omega (
    arith,
    self_once,
    ap (count p) listed,
    count-append p (q ∷ qs) (p ∷ []),
    count-le-total chains t p here,
    tidy.counted p removed-lt,
    tidy.flag p removed-lt,
  )

  before_small : before < max_processes
  before_small = before-lt k.pcb (k.terminal_table t).pcb_head q qs p own

  before_once : count before (q ∷ qs) ≡ 1
  before_once = omega (arith, counts before before_small, count-last q qs)

  pub apart : p ≢ before
  apart e = omega (
    arith,
    self_once,
    ap {B = ℕ} (λ n. if p == n then 1 else 0) e,
    counts before before_small,
    count-last q qs,
  )

  -- Only the structure of the process before has another child.
  elsewhere :
      (r : ℕ)
      → r ≢ before
      → (removed.pcb (get_pcb_base r)).child_pcb ≡ (k.pcb (get_pcb_base r)).child_pcb
  unfolding set_child
  elsewhere r ne =
      ap (λ (s : Pcb). s.child_pcb)
        (update_other k.pcb (get_pcb_base before) _ (get_pcb_base r)
          (λ e. ne (sym (get_pcb_base-injective before r before_small (sym e)))))

  before_total : (s : ℕ) → s ≤ term_3 → s ≢ t → count before (chains s) ≡ 0
  before_total s h ne = omega (
    arith,
    before_once,
    ap (count before) listed,
    count-append before (q ∷ qs) (p ∷ []),
    two-le-total chains s t before h here ne,
    tidy.counted before before_small,
    tidy.flag before before_small,
  )

  pub removed-IsTidy : IsTidy shrunk removed
  unfolding set_child
  removed-IsTidy = record {
    chain = λ s h. elim (ℕ_discrete s t) [
      | yes same ↦
          subst (λ s. Chain removed.pcb (k.terminal_table s).pcb_head (shrunk s)) (sym same)
            (subst (Chain removed.pcb (k.terminal_table t).pcb_head)
              (sym (update_own chains t (q ∷ qs)))
              (Chain-cut k.pcb (k.terminal_table t).pcb_head q qs p own before_once))
      | no other ↦
          subst (Chain removed.pcb (k.terminal_table s).pcb_head)
            (sym (update_other chains t (q ∷ qs) s other))
            (Chain-frame k.pcb removed.pcb (chains s) (k.terminal_table s).pcb_head
              (λ r l.
                elsewhere r
                  (λ e. omega (arith, l, ap (λ n. count n (chains s)) e, before_total s h other)))
              (tidy.chain s h))
    ];
    counted = λ r l.
        ground (arith, total-shrunk chains t p r (q ∷ qs) here listed, used, tidy.counted r l);
    flag = λ r l. ground (arith, tidy.flag r l);
    free = λ r l u. elim (ℕ_discrete r before) [
      | yes e ↦
          ap (λ n. (removed.pcb (get_pcb_base n)).child_pcb) e
          ∙ ap (λ (s : Pcb). s.child_pcb) (update_own k.pcb (get_pcb_base before) _)
      | no ne ↦ elsewhere r ne ∙ (elim (ℕ_discrete r p) [
        | yes e ↦ ap (λ n. (k.pcb (get_pcb_base n)).child_pcb) e ∙ no_child
        | no other ↦ tidy.free r l (ground arith)
      ])
    ];
  }
