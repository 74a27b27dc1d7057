-- ===== src/Idt/Gates.antt =====
-- init_IDT of student-distrib/IDT.c: which gates it opens.
use mathlib.Core.Path.{subst}
use boz_os.Prelude.{
  false, ◌%◌, ◌-◌, ℕ, zero, suc, ◌+◌, ◌<◌, ◌≤◌, ◌≡◌, inl, inr, sym, ap, ◌∙◌, arith, ltb, leb, ◌==◌,
  ◌&&◌, if◌then◌else◌, Bool-cases, ◌*◌, ◌/◌, ◌^◌, ◌||◌, true, refl,
}
use native.Mathlib.Decide.{ℕ_discrete}
use boz_os.State.{Kernel, Gate, update, update_own, update_other}
use boz_os.Idt.{
  Handler, exception, default_asm, default, syscall, gate, set_idt_wrapper, init_exceptions,
  init_vector, init_vectors, init_idt, n_exceptions, n_exceptions_reserved, num_vec, sys_call_addr,
  soft_int_start,
}

-- The gate that init_IDT leaves at the vector `i`.
abbrev pub opened_gate : (Handler → ℕ) → ℕ → Gate
opened_gate address i =
    if ltb i n_exceptions
    then gate (address (exception i))
    else if ltb i n_exceptions_reserved
    then gate (address default_asm)
    else if i == sys_call_addr
    then record (gate (address syscall)) { dpl = 3 }
    else record (gate (address default)) { present = 0 }

first_gate :
    (address : Handler → ℕ) (i : ℕ)
    → i < n_exceptions_reserved
    → gate (address (if ltb i n_exceptions then exception i else default_asm))
      ≡ opened_gate address i
first_gate address i h = elim (Bool-cases (ltb i n_exceptions)) [
  | inl hit ↦ ground (arith, hit)
  | inr miss ↦ ground (arith, miss)
]

exceptions_idt :
    (address : Handler → ℕ) (k : Kernel) (rounds i q : ℕ)
    → i + rounds ≤ n_exceptions_reserved
    → (init_exceptions address k rounds i).idt q
      ≡ (if leb i q && ltb q (i + rounds) then opened_gate address q else k.idt q)
unfolding init_exceptions set_idt_wrapper
exceptions_idt address k zero i q h = ground arith
exceptions_idt address k (suc rounds) i q h =
    let handler = if ltb i n_exceptions then exception i else default_asm in
    let k' = set_idt_wrapper k i (address handler) in
    let ih = exceptions_idt address k' rounds (i + 1) q (omega arith) in
    let small : i % 256 ≡ i = omega arith in
    elim (ℕ_discrete q i) [
      | yes e ↦
          let here : k'.idt q ≡ opened_gate address q =
            ap (update k.idt (i % 256) (gate (address handler))) (e ∙ sym small)
            ∙ update_own k.idt (i % 256) (gate (address handler))
            ∙ first_gate address i (omega arith)
            ∙ ap (opened_gate address) (sym e) in
          ground (arith, ih, here, e)
      | no ne ↦
          let other : k'.idt q ≡ k.idt q =
            update_other k.idt (i % 256) (gate (address handler)) q (λ e. ne (e ∙ small)) in
          ground (arith, ih, other, ne)
    ]

-- The gate that the body of the second loop leaves at its own vector.
vector_idt :
    (address : Handler → ℕ) (k : Kernel) (i q : ℕ)
    → n_exceptions_reserved ≤ i
    → i < num_vec
    → (init_vector address k i).idt q ≡ (if q == i then opened_gate address q else k.idt q)
unfolding init_vector set_idt_wrapper
vector_idt address k i q low high =
    let small : i % 256 ≡ i = omega arith in
    let late : ltb i n_exceptions ≡ false = ground arith in
    let late' : ltb i n_exceptions_reserved ≡ false = ground arith in
    elim (ℕ_discrete q i) [
      | yes e ↦ rw e (ground (arith, small, late, late'))
      | no ne ↦ ground (arith, small, ne)
    ]

vectors_idt :
    (address : Handler → ℕ) (k : Kernel) (rounds i q : ℕ)
    → n_exceptions_reserved ≤ i
    → i + rounds ≤ num_vec
    → (init_vectors address k rounds i).idt q
      ≡ (if leb i q && ltb q (i + rounds) then opened_gate address q else k.idt q)
unfolding init_vectors
vectors_idt address k zero i q low high = ground arith
vectors_idt address k (suc rounds) i q low high = ground (
  arith,
  vectors_idt address (init_vector address k i) rounds (i + 1) q (omega arith) (omega arith),
  vector_idt address k i q low (omega arith),
)

-- A gate as the processor reads it: the 32-bit address it leads to, the code segment, the privilege
-- it asks for, and whether it is present; the type of all of them is that of a 32-bit trap gate.
pub record IsGate (g : Gate) (target dpl present : ℕ) : Type 0 where
  pub target_address : g.offset_15_00 + 2 ^ 16 * g.offset_31_16 ≡ target % 2 ^ 32
  pub segment : g.seg_selector ≡ 0x10
  pub privilege : g.dpl ≡ dpl
  pub is_present : g.present ≡ present
  pub trap :
      (g.reserved3 ≡ 1)
      × (g.reserved2 ≡ 1)
      × (g.reserved1 ≡ 1)
      × (g.size ≡ 1)
      × (g.reserved0 ≡ 0)
      × (g.reserved4 ≡ 0)

halves : (n : ℕ) → n % 2 ^ 16 + 2 ^ 16 * (n / 2 ^ 16 % 2 ^ 16) ≡ n % 2 ^ 32
halves n = omega arith

pub gate-IsGate : (n : ℕ) → IsGate (gate n) n 0 1
gate-IsGate n = record {
  target_address = halves n;
  segment = refl;
  privilege = refl;
  is_present = refl;
  trap = (refl, refl, refl, refl, refl, refl);
}

-- The entry point for a vector.
abbrev pub handler_of : ℕ → Handler
handler_of i =
    if ltb i 20
    then exception i
    else if ltb i 32
    then default_asm
    else if i == 0x80
    then syscall
    else default

opened_gate-IsGate :
    (address : Handler → ℕ) (i : ℕ)
    → IsGate
        (opened_gate address i)
        (address (handler_of i))
        (if i == 0x80 then 3 else 0)
        (if ltb i 32 || (i == 0x80) then 1 else 0)
opened_gate-IsGate address i = elim (Bool-cases (ltb i 20)) [
  | inl early ↦
      let other : (i == 0x80) ≡ false = ground (arith, early) in
      let first : ltb i 32 ≡ true = ground (arith, early) in
      rw (early, other, first) (gate-IsGate (address (exception i)))
  | inr late ↦ elim (Bool-cases (ltb i 32)) [
    | inl reserved ↦
        let other : (i == 0x80) ≡ false = ground (arith, reserved) in
        rw (late, other, reserved) (gate-IsGate (address default_asm))
    | inr later ↦ elim (Bool-cases (i == 0x80)) [
      | inl here ↦
          let g = gate-IsGate (address syscall) in
          rw (late, later, here)
            (record {
              target_address = g.target_address;
              segment = refl;
              privilege = refl;
              is_present = refl;
              trap = g.trap;
            })
      | inr none_such ↦
          let g = gate-IsGate (address default) in
          rw (late, later, none_such)
            (record {
              target_address = g.target_address;
              segment = refl;
              privilege = refl;
              is_present = refl;
              trap = g.trap;
            })
    ]
  ]
]

init_idt-opened :
    (address : Handler → ℕ) (k : Kernel) (q : ℕ)
    → q < num_vec
    → (init_idt address k).idt q ≡ opened_gate address q
unfolding init_idt
init_idt-opened address k q h =
    let first = init_exceptions address k n_exceptions_reserved 0 in
    let one = exceptions_idt address k n_exceptions_reserved 0 q (omega arith) in
    let two =
      vectors_idt address first (num_vec - soft_int_start) soft_int_start q (omega arith)
        (omega arith) in
    ground (arith, one, two)

-- After init_IDT, every vector below 256 has a trap gate into the kernel's code segment that leads to
-- its own handler: the 20 exceptions have one each, the rest of the first 32 vectors share one, 0x80
-- has the one of the system calls, and the others share one. The gate of 0x80 alone is open to user
-- programs, with privilege 3 where the others have 0; it and the first 32 are present, and no other
-- gate is.
pub init_idt-gates :
    (address : Handler → ℕ) (k : Kernel) (q : ℕ)
    → q < 256
    → IsGate
        ((init_idt address k).idt q)
        (address (handler_of q))
        (if q == 0x80 then 3 else 0)
        (if ltb q 32 || (q == 0x80) then 1 else 0)
init_idt-gates address k q h =
    subst
      (λ g.
        IsGate g (address (handler_of q)) (if q == 0x80 then 3 else 0)
          (if ltb q 32 || (q == 0x80) then 1 else 0))
      (sym (init_idt-opened address k q h)) (opened_gate-IsGate address q)
