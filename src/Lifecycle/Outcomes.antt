-- ===== src/Lifecycle/Outcomes.antt =====
-- Results of execute, halt and task_switch taken apart, and lists by their last entry.
use boz_os.Prelude.{
  ℕ, ◌≡◌, ap, arith, Bool, true, false, some, none, Option, List, [], ◌∷◌, ◌++◌, if◌then◌else◌,
}
use boz_os.State.{Kernel}
use boz_os.Scheduler.{Next, resumes, executes, returns}
use boz_os.Execute.{Launch, enters, answers}

-- The kernel in a result of execute, and in one of halt or task_switch.
abbrev pub entered_kernel : Kernel → Option Launch → Kernel
entered_kernel d (some (enters eip cs eflags esp ss k)) = k
entered_kernel d (some (answers status k)) = d
entered_kernel d none = d

abbrev pub resumed_kernel : Kernel → Option Next → Kernel
resumed_kernel d (some (resumes esp ebp eax k)) = k
resumed_kernel d (some (returns k)) = d
resumed_kernel d (some (executes k)) = d
resumed_kernel d none = d

abbrev pub is_resumed : Option Next → Bool
is_resumed (some (resumes esp ebp eax k)) = true
is_resumed (some (returns k)) = false
is_resumed (some (executes k)) = false
is_resumed none = false

-- The branches of task_switch.
pub resumed_last :
    (b b' : Bool) (k₁ k₂ k₃ k' : Kernel) (esp ebp eax esp' ebp' eax' : ℕ)
    → ◌≡◌ {A = Option Next}
        (some (if b then returns k₁ else if b' then executes k₂ else resumes esp ebp eax k₃))
        (some (resumes esp' ebp' eax' k'))
    → k₃ ≡ k'
resumed_last true b' k₁ k₂ k₃ k' esp ebp eax esp' ebp' eax' e =
    let no : false ≡ true = ap is_resumed e in ground (arith, no)
resumed_last false true k₁ k₂ k₃ k' esp ebp eax esp' ebp' eax' e =
    let no : false ≡ true = ap is_resumed e in ground (arith, no)
resumed_last false false k₁ k₂ k₃ k' esp ebp eax esp' ebp' eax' e = ap (resumed_kernel k₁) e

-- A list is empty, has one entry, or has a last one behind a first.
pub data Shape : List ℕ → Type 0 where
  empty : Shape []
  single : (q : ℕ) → Shape (q ∷ [])
  more : (q : ℕ) (qs : List ℕ) (p : ℕ) → Shape ((q ∷ qs) ++ (p ∷ []))

grow : (q : ℕ) {ps : List ℕ} → Shape ps → Shape (q ∷ ps)
grow q empty = single q
grow q (single r) = more q [] r
grow q (more r rs p) = more q (r ∷ rs) p

pub shape : (ps : List ℕ) → Shape ps
shape [] = empty
shape (q ∷ qs) = grow q (shape qs)
