-- ===== src/Interrupts/Masks.antt =====
-- The masks of student-distrib/i8259.c, bit by bit.
use boz_os.Prelude.{
  ℕ, ◌-◌, ◌/◌, ◌%◌, ◌^◌, ◌<◌, ◌≤◌, ◌≡◌, refl, arith, ltb, ◌&&◌, ◌==◌, if◌then◌else◌, all_below,
  all_below_sound, Bool, true,
}
use native.Mathlib.Decide.{dec_lt}
use boz_os.State.{Kernel, outb}
use boz_os.Interrupts.{clear_bit, set_bit, enable_irq, disable_irq, max_irq, max_master_irq}

abbrev pub bit : ℕ → ℕ → ℕ
bit m i = m / 2 ^ i % 2

-- What clear_bit and set_bit do to each bit of a byte.
abbrev bit_ok : ℕ → ℕ → ℕ → Bool
bit_ok i j m =
    (bit (clear_bit m i) j == (if i == j then 0 else bit m j))
    && (bit (set_bit m i) j == (if i == j then 1 else bit m j))
    && ltb (clear_bit m i) 256
    && ltb (set_bit m i) 256

bit_table : all_below 8 (λ i. all_below 8 (λ j. all_below 256 (bit_ok i j))) ≡ true
bit_table = refl

bit_facts : (i j m : ℕ) → i < 8 → j < 8 → m < 256 → bit_ok i j m ≡ true
bit_facts i j m hi hj hm =
    all_below_sound 256 (bit_ok i j) m
      (all_below_sound 8 (λ j. all_below 256 (bit_ok i j)) j
        (all_below_sound 8 (λ i. all_below 8 (λ j. all_below 256 (bit_ok i j))) i bit_table hi) hj)
      hm

-- The mask bit of an interrupt line: 0 if the line is enabled.
abbrev pub masked : Kernel → ℕ → ℕ
masked k irq =
    if ltb irq max_master_irq
    then bit k.master_mask irq
    else bit k.slave_mask (irq - max_master_irq)

-- Both masks are bytes.
pub record Bytes (k : Kernel) : Type 0 where
  pub master : k.master_mask < 256
  pub slave : k.slave_mask < 256

clear_bit_lem :
    (m i j : ℕ)
    → m < 256
    → i < 8
    → j < 8
    → (bit (clear_bit m i) j ≡ (if i == j then 0 else bit m j)) × (clear_bit m i < 256)
clear_bit_lem m i j hm hi hj = ground (arith, bit_facts i j m hi hj hm)

set_bit_lem :
    (m i j : ℕ)
    → m < 256
    → i < 8
    → j < 8
    → (bit (set_bit m i) j ≡ (if i == j then 1 else bit m j)) × (set_bit m i < 256)
set_bit_lem m i j hm hi hj = ground (arith, bit_facts i j m hi hj hm)

-- enable_irq takes the mask off its own line, of the sixteen, and off no other; it leaves both masks
-- bytes.
pub enable_irq-masked :
    (k : Kernel) (irq j : ℕ)
    → Bytes k
    → irq ≤ max_irq
    → j ≤ max_irq
    → (masked (enable_irq k irq) j ≡ (if irq == j then 0 else masked k j))
      × Bytes (enable_irq k irq)
unfolding enable_irq outb
enable_irq-masked k irq j bytes h h' = elim (dec_lt irq 8) [
  | yes low ↦ elim (dec_lt j 8) [
    | yes low' ↦ ground (arith, clear_bit_lem k.master_mask irq j bytes.master low low')
    | no high' ↦ ground (arith, clear_bit_lem k.master_mask irq 0 bytes.master low)
  ]
  | no high ↦ elim (dec_lt j 8) [
    | yes low' ↦ ground (arith, clear_bit_lem k.slave_mask (irq - 8) 0 bytes.slave)
    | no high' ↦ ground (arith, clear_bit_lem k.slave_mask (irq - 8) (j - 8) bytes.slave)
  ]
]

-- disable_irq puts the mask on its own line, of the sixteen, and on no other; it leaves both masks
-- bytes.
pub disable_irq-masked :
    (k : Kernel) (irq j : ℕ)
    → Bytes k
    → irq ≤ max_irq
    → j ≤ max_irq
    → (masked (disable_irq k irq) j ≡ (if irq == j then 1 else masked k j))
      × Bytes (disable_irq k irq)
unfolding disable_irq outb
disable_irq-masked k irq j bytes h h' = elim (dec_lt irq 8) [
  | yes low ↦ elim (dec_lt j 8) [
    | yes low' ↦ ground (arith, set_bit_lem k.master_mask irq j bytes.master low low')
    | no high' ↦ ground (arith, set_bit_lem k.master_mask irq 0 bytes.master low)
  ]
  | no high ↦ elim (dec_lt j 8) [
    | yes low' ↦ ground (arith, set_bit_lem k.slave_mask (irq - 8) 0 bytes.slave)
    | no high' ↦ ground (arith, set_bit_lem k.slave_mask (irq - 8) (j - 8) bytes.slave)
  ]
]
