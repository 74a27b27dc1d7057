-- ===== src/Printf/Digits.antt =====
-- The number conversions of printf, student-distrib/lib.c, end on every word.
use boz_os.Prelude.{
  if◌then◌else◌, leb, ltb, ◌&&◌, Option, ℕ, zero, suc, ◌+◌, ◌-◌, ◌^◌, ◌<◌, ◌≡◌, ◌≢◌, ap, ◌∙◌, inl,
  inr, arith, Bool, true, false, some, Buf, store, sub32, slt32, Bool-cases,
}
use boz_os.State.{Kernel}
use boz_os.Screen.Frame.{Shown, puts-Shown}
use boz_os.Clib.Strings.Length.{HasLength, strlen-HasLength}
use boz_os.Clib.Numbers.Value.{itoa-Prints}
use boz_os.Printf.{puts, pad_zeros, print_hex, print_unsigned, print_signed}

-- A call that prints, and whose answer does not matter.
abbrev pub Ends : Kernel → Option (ℕ × Kernel) → Type 0
Ends k r = (n : ℕ) × (k' : Kernel) × (r ≡ some (n, k')) × Shown k k'

pub puts-Ends :
    (fuel : ℕ) (k : Kernel) (s : Buf) (p n : ℕ)
    → HasLength s p n
    → n < fuel
    → Ends k (puts fuel k s p 0)
puts-Ends fuel k s p n string f =
    let shown =
      puts-Shown fuel k s p 0 n (omega arith) (omega arith) (λ j l u. string.1 j u) string.0 in
    (n, shown.0, shown.1, shown.2)

-- The zeros are put from `i` on, and nowhere else.
pad_zeros_lem :
    (b : Buf) (rounds i q : ℕ)
    → pad_zeros b rounds i q ≡ (if leb i q && ltb q (i + rounds) then b'0' else b q)
unfolding pad_zeros
pad_zeros_lem b zero i q = ground arith
pad_zeros_lem b (suc rounds) i q = ground (arith, pad_zeros_lem (store b i b'0') rounds (i + 1) q)

turn : (n : ℕ) → 8 + n ≡ n + 8
turn n = omega arith

-- The padded digits: those in front of them are zeros, eight in all.
padded : (b : Buf) (n : ℕ) → HasLength b 8 n → HasLength (pad_zeros b (8 - n) n) n 8
padded b n string = (
  pad_zeros_lem b (8 - n) n (n + 8) ∙ ground (arith, string.0, ap b (turn n)),
  λ i l. ground (arith, pad_zeros_lem b (8 - n) n (n + i), string.1 (n + i - 8)),
)

pub print_hex-Ends :
    (conv_buf : Buf) (k : Kernel) (alternate : Bool) (w : ℕ)
    → w < 2 ^ 32
    → Ends k (print_hex conv_buf k alternate w)
unfolding print_hex
print_hex-Ends conv_buf k false w h =
    let (r, n, run, prints) = itoa-Prints w conv_buf 0 16 (omega arith) (omega arith) h in
    rw run (puts-Ends 64 k r 0 n prints.string (omega (arith, prints.few)))
print_hex-Ends conv_buf k true w h =
    let (r, n, run, prints) = itoa-Prints w conv_buf 8 16 (omega arith) (omega arith) h in
    let length = (strlen-HasLength 56 r 8 n).1 (omega (arith, prints.few), prints.string) in
    rw run (
      rw length
        (puts-Ends 64 k (pad_zeros r (8 - n) n) n 8 (padded r n prints.string) (omega arith)))

pub print_unsigned-Ends :
    (conv_buf : Buf) (k : Kernel) (w : ℕ) → w < 2 ^ 32 → Ends k (print_unsigned conv_buf k w)
unfolding print_unsigned
print_unsigned-Ends conv_buf k w h =
    let (r, n, run, prints) = itoa-Prints w conv_buf 0 10 (omega arith) (omega arith) h in
    rw run (puts-Ends 36 k r 0 n prints.string (omega (arith, prints.few)))

first : (n : ℕ) → 0 + suc n ≡ 1 + n
first n = omega arith

-- A sign in front of a string.
signed : (b : Buf) (n : ℕ) → b 0 ≢ 0 → HasLength b 1 n → HasLength b 0 (suc n)
signed b n sign string = (ap b (first n) ∙ string.0, λ i l. ground (arith, sign, string.1 (i - 1)))

pub print_signed-Ends :
    (conv_buf : Buf) (k : Kernel) (w : ℕ) → w < 2 ^ 32 → Ends k (print_signed conv_buf k w)
unfolding print_signed
print_signed-Ends conv_buf k w h = elim (Bool-cases (slt32 w 0)) [
  | inl below ↦
      let (r, n, run, prints) =
        itoa-Prints (sub32 0 w) (store conv_buf 0 b'-') 1 10 (omega arith) (omega arith)
          (omega arith) in
      let sign : r 0 ≢ 0 = ground (arith, prints.frame 0 (inl (omega arith))) in
      rw (below, run)
        (puts-Ends 36 k r 0 (suc n) (signed r n sign prints.string) (omega (arith, prints.few)))
  | inr above ↦
      let (r, n, run, prints) = itoa-Prints w conv_buf 0 10 (omega arith) (omega arith) h in
      rw (above, run) (puts-Ends 36 k r 0 n prints.string (omega (arith, prints.few)))
]
