-- ===== src/Syscalls.antt =====
-- handle_syscall_asm of student-distrib/IDT_asm.S: the number of a system call in EAX chooses the function.
-- The numbers are those of student-distrib/syscalls.h and syscalls/ece391sysnum.h.
use boz_os.Prelude.{
  sym, ℕ, zero, suc, ◌-◌, ◌^◌, ◌<◌, ◌≡◌, ◌↔◌, refl, ap, ◌∙◌, arith, Option, none, some, List, [],
  ◌∷◌, slt32, if◌then◌else◌, minus_one, Bool-cases, inl, inr,
}

pub data Syscall : Type 0 where
  halt execute read write open_file close getargs vidmap set_handler sigreturn : Syscall

abbrev pub syscall_num_min : ℕ
syscall_num_min = 1

abbrev pub syscall_num_max : ℕ
syscall_num_max = 10

-- SYS_HALT to SYS_SIGRETURN.
unfoldable pub number_of : Syscall → ℕ
number_of halt = 1
number_of execute = 2
number_of read = 3
number_of write = 4
number_of open_file = 5
number_of close = 6
number_of getargs = 7
number_of vidmap = 8
number_of set_handler = 9
number_of sigreturn = 10

abbrev pub syscall_jump_table : List Syscall
syscall_jump_table =
    halt ∷ execute ∷ read ∷ write ∷ open_file ∷ close ∷ getargs ∷ vidmap ∷ set_handler ∷ sigreturn
    ∷ []

abbrev entry_at : List Syscall → ℕ → Option Syscall
entry_at [] i = none
entry_at (f ∷ fs) zero = some f
entry_at (f ∷ fs) (suc i) = entry_at fs i

-- The two comparisons, then the table; `none` is `syscall_negative_ret`.
unfoldable pub dispatch : ℕ → Option Syscall
dispatch eax =
    if slt32 eax syscall_num_min
    then none
    else if slt32 syscall_num_max eax
    then none
    else entry_at syscall_jump_table (eax - 1)

-- The whole handler around what the functions do.
unfoldable pub handle_syscall {ℓ} :
    {S : Type ℓ} → (Syscall → S → Option (ℕ × S)) → ℕ → S → Option (ℕ × S)
handle_syscall run eax st = elim (dispatch eax) [ none ↦ some (minus_one, st) | some f ↦ run f st ]

entries-number :
    (i : ℕ) {f : Syscall} → entry_at syscall_jump_table i ≡ some f → suc i ≡ number_of f
unfolding number_of
entries-number zero e = ap number_of {x = halt} cc
entries-number (suc zero) e = ap number_of {x = execute} cc
entries-number (suc (suc zero)) e = ap number_of {x = read} cc
entries-number (suc (suc (suc zero))) e = ap number_of {x = write} cc
entries-number (suc (suc (suc (suc zero)))) e = ap number_of {x = open_file} cc
entries-number (suc (suc (suc (suc (suc zero))))) e = ap number_of {x = close} cc
entries-number (suc (suc (suc (suc (suc (suc zero)))))) e = ap number_of {x = getargs} cc
entries-number (suc (suc (suc (suc (suc (suc (suc zero))))))) e = ap number_of {x = vidmap} cc
entries-number (suc (suc (suc (suc (suc (suc (suc (suc zero)))))))) e =
    ap number_of {x = set_handler} cc
entries-number (suc (suc (suc (suc (suc (suc (suc (suc (suc zero))))))))) e =
    ap number_of {x = sigreturn} cc
entries-number (suc (suc (suc (suc (suc (suc (suc (suc (suc (suc i)))))))))) e = cc

own_entry : (f : Syscall) → dispatch (number_of f) ≡ some f
unfolding dispatch number_of
own_entry halt = refl
own_entry execute = refl
own_entry read = refl
own_entry write = refl
own_entry open_file = refl
own_entry close = refl
own_entry getargs = refl
own_entry vidmap = refl
own_entry set_handler = refl
own_entry sigreturn = refl

-- The handler calls a function exactly if EAX, as a 32-bit pattern, holds its number: the numbers of the
-- headers and the places in the jump table agree, and any other value reaches no function.
pub dispatch_iff :
    (eax : ℕ) (f : Syscall) → eax < 2 ^ 32 → (dispatch eax ≡ some f) ↔ (eax ≡ number_of f)
unfolding dispatch
dispatch_iff eax f h = (
  λ e. elim (Bool-cases (slt32 eax syscall_num_min)) [
    | inl low ↦ let no : none ≡ some f = (rw low at e) in cc
    | inr not_low ↦ elim (Bool-cases (slt32 syscall_num_max eax)) [
      | inl high ↦ let no : none ≡ some f = (rw (not_low, high) at e) in cc
      | inr not_high ↦
          let found : entry_at syscall_jump_table (eax - 1) ≡ some f =
            rw (not_low, not_high) at e in
          let back : suc (eax - 1) ≡ eax = ground (arith, not_low, h) in
          sym back ∙ entries-number (eax - 1) found
    ]
  ],
  λ e. ap dispatch e ∙ own_entry f,
)
