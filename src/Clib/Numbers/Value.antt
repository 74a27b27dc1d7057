-- ===== src/Clib/Numbers/Value.antt =====
-- What itoa prints is the number, in the digits of its radix.
use boz_os.Prelude.{
  ◌⊎◌, ℕ, zero, suc, ◌+◌, ◌-◌, ◌*◌, ◌/◌, ◌%◌, ◌^◌, ◌<◌, ◌≤◌, ◌≡◌, ◌≢◌, inl, refl, sym, ap, ◌∙◌,
  arith, true, ◌&&◌, leb, ◌==◌, if◌then◌else◌, Option, some, Buf, store, all_below, all_below_sound,
}
use native.Mathlib.Decide.{ℕ_discrete}
use native.Mathlib.Nat.{div-add-mod, mod-lt, div-lt_iff_lt-mul, mul-le-mul_left}
use boz_os.Clib.Strings.Length.{HasLength}
use boz_os.Clib.Strings.Duplicate.{strrev-mirror}
use boz_os.Clib.Numbers.{lookup, itoa_loop, itoa}

-- The value of a digit's character, as one reads it.
abbrev pub digit_value : ℕ → ℕ
digit_value c = if leb c b'9' then c - b'0' else c - b'A' + 10

-- The number that `n` digits from `at` on stand for, the highest first.
abbrev pub number_at : ℕ → Buf → ℕ → ℕ → ℕ
number_at radix b at zero = 0
number_at radix b at (suc n) = radix * number_at radix b at n + digit_value (b (at + n))

-- The same with the lowest digit first.
abbrev lowest_first : ℕ → Buf → ℕ → ℕ → ℕ
lowest_first radix b at zero = 0
lowest_first radix b at (suc n) = digit_value (b at) + radix * lowest_first radix b (at + 1) n

-- Reading the digits in the mirror reads the same number.
number_at_mirror :
    (radix : ℕ) (r b : Buf) (at p n : ℕ)
    → ((i : ℕ) → i < n → r (at + i) ≡ b (p + (n - 1 - i)))
    → number_at radix r at n ≡ lowest_first radix b p n
number_at_mirror radix r b at p zero h = refl
number_at_mirror radix r b at p (suc n) h =
    let ih =
      number_at_mirror radix r b at (p + 1) n (λ i l. h i (omega arith) ∙ ap b (omega arith)) in
    let last : r (at + n) ≡ b p = h n (omega arith) ∙ ap b (omega arith) in
    omega (arith, ap (λ (v : ℕ). radix * v) ih, ap digit_value last)

digits_checked : all_below 36 (λ i. (digit_value (lookup i) == i) && leb 1 (lookup i)) ≡ true
unfolding lookup
digits_checked = refl

digit_value-lookup : (i : ℕ) → i < 36 → (digit_value (lookup i) ≡ i) × (0 < lookup i)
digit_value-lookup i h =
    let t =
      all_below_sound 36 (λ i. (digit_value (lookup i) == i) && leb 1 (lookup i)) i digits_checked
        h in
    (ground (arith, t), ground (arith, t))

-- Values with at most `n` binary digits.
abbrev bound : ℕ → ℕ
bound zero = 1
bound (suc n) = 2 * bound n

shorter : (v radix b : ℕ) → 2 ≤ radix → v < 2 * b → v / radix < b
shorter v radix b h l =
    (div-lt_iff_lt-mul {k = radix} {x = v} {y = b} (omega arith)).1
      (omega (arith, mul-le-mul_left b h))

-- The loop writes the digits of `v` from `p` on, the lowest first, and nothing else.
record Written (radix v : ℕ) (buf : Buf) (p : ℕ) (out : Option (Buf × ℕ)) (most : ℕ) : Type 0 where
  digits : Buf
  count : ℕ
  few : count ≤ most
  result : out ≡ some (digits, p + count)
  value : lowest_first radix digits p count ≡ v
  visible : (i : ℕ) → i < count → 0 < digits (p + i)
  frame : (q : ℕ) → (q < p) ⊎ (p + count ≤ q) → digits q ≡ buf q

nothing_left :
    (radix v : ℕ) (buf : Buf) (p fuel most : ℕ)
    → v ≡ 0
    → Written radix v buf p (itoa_loop (suc fuel) v radix buf p) most
unfolding itoa_loop
nothing_left radix v buf p fuel most e = record {
  digits = buf;
  count = 0;
  few = omega arith;
  result = rw e (ap (λ r. some (buf, r)) (omega arith));
  value = sym e;
  visible = λ i h. absurd (omega arith);
  frame = λ q h. refl;
}

itoa_loop-Written :
    (n radix v : ℕ) (buf : Buf) (p : ℕ)
    → 2 ≤ radix
    → radix ≤ 36
    → v < bound n
    → Written radix v buf p (itoa_loop (suc n) v radix buf p) n
unfolding itoa_loop
itoa_loop-Written zero radix v buf p h h' l = nothing_left radix v buf p 0 0 (omega arith)
itoa_loop-Written (suc n) radix v buf p h h' l = elim (ℕ_discrete v 0) [
  | yes e ↦ nothing_left radix v buf p (suc n) (suc n) e
  | no ne ↦
      let r = v % radix in
      let small : r < 36 = omega (arith, mod-lt v {m = radix} (omega arith)) in
      let w =
        itoa_loop-Written n radix (v / radix) (store buf p (lookup r)) (p + 1) h h'
          (shorter v radix (bound n) h l) in
      let first : w.digits p ≡ lookup r = w.frame p (inl (omega arith)) ∙ ground arith in
      let d = digit_value-lookup r small in
      record {
        digits = w.digits;
        count = suc w.count;
        few = omega (arith, w.few);
        result = ground (arith, ne) ∙ w.result ∙ ap (λ q. some (w.digits, q)) (omega arith);
        value = omega (
          arith,
          ap digit_value first,
          d.0,
          ap (λ (t : ℕ). radix * t) w.value,
          div-add-mod v radix,
        );
        visible = λ i l'. elim (ℕ_discrete i 0) [
          | yes e ↦ ground (arith, e, first, d.1)
          | no i-ne ↦ ground (arith, w.visible (i - 1), i-ne)
        ];
        frame = λ q c. w.frame q (ground arith) ∙ ground arith;
      }
]

-- What itoa leaves at `at`: a string of at most 32 digits that reads as the value.
pub record Prints (value radix : ℕ) (buf : Buf) (at : ℕ) (r : Buf) (n : ℕ) : Type 0 where
  pub some_digits : 0 < n
  pub few : n ≤ 32
  pub string : HasLength r at n
  pub reads : number_at radix r at n ≡ value
  pub frame : (q : ℕ) → (q < at) ⊎ (at + n < q) → r q ≡ buf q

-- itoa of a 32-bit value in a radix from 2 to 36 ends, and leaves a string of 1 to 32 digits; read
-- back in that radix, the digits are the value. No byte outside the string and its terminator changes.
pub itoa-Prints :
    (value : ℕ) (buf : Buf) (at radix : ℕ)
    → 2 ≤ radix
    → radix ≤ 36
    → value < 2 ^ 32
    → (r : Buf) × (n : ℕ) × (itoa value buf at radix ≡ some r) × Prints value radix buf at r n
unfolding itoa
itoa-Prints value buf at radix h h' l = elim (ℕ_discrete value 0) [
  | yes e ↦ (
    store (store buf at b'0') (at + 1) 0,
    1,
    ground (arith, e),
    record {
      some_digits = omega arith;
      few = omega arith;
      string = (ground arith, λ i h. ground arith);
      reads = zero_reads e;
      frame = λ q c. ground arith;
    },
  )
  | no ne ↦
      let w = itoa_loop-Written 32 radix value buf at h h' l in
      let b = store w.digits (at + w.count) 0 in
      let pos : 0 < w.count = some_digit w.digits w.count w.value ne in
      let string : HasLength b at w.count =
        (ground arith, λ i l'. ground (arith, w.visible i l')) in
      let m = strrev-mirror 34 b at w.count (omega (arith, w.few)) string in
      let mirror : (i : ℕ) → i < w.count → m.0 (at + i) ≡ w.digits (at + (w.count - 1 - i)) =
        λ i l'. m.2 (at + i) ∙ ground arith in
      (
        m.0,
        w.count,
        ground (arith, ne, w.result, m.1),
        record {
          some_digits = pos;
          few = w.few;
          string = (
            m.2 (at + w.count) ∙ ground arith,
            λ i l'. ground (arith, mirror i l', w.visible (w.count - 1 - i)),
          );
          reads = number_at_mirror radix m.0 w.digits at at w.count mirror ∙ w.value;
          frame = λ q c. m.2 q ∙ ground (arith, w.frame q);
        },
      )
]
  where
    zero_reads : value ≡ 0 → number_at radix (store (store buf at b'0') (at + 1) 0) at 1 ≡ value
    zero_reads e =
        let char : store (store buf at b'0') (at + 1) 0 (at + 0) ≡ b'0' = ground arith in
        omega (arith, ap digit_value char)

    some_digit : (b : Buf) (n : ℕ) → lowest_first radix b at n ≡ value → value ≢ 0 → 0 < n
    some_digit b zero e ne = absurd (ne (sym e))
    some_digit b (suc n) e ne = omega arith
