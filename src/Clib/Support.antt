-- ===== src/Clib/Support.antt =====
-- The string functions of syscalls/ece391support.c, which is linked to the user programs, beside those of
-- student-distrib/lib.c. ece391_strcmp and ece391_strncmp stand in Clib/Strings.
use boz_os.Prelude.{
  if_false, ℕ, zero, suc, ◌+◌, ◌≡◌, refl, ap, ◌∙◌, arith, Option, none, some, ◌>>=◌, ltb, ◌==◌,
  if◌then◌else◌, Buf, store, false,
}
use boz_os.Clib.Strings.{strlen, strlen_loop, strrev, strrev_loop}
use boz_os.Clib.Numbers.{itoa_loop, itoa}

-- `s` moves along with `len`.
ece391_strlen_loop : ℕ → Buf → ℕ → ℕ → Option ℕ
ece391_strlen_loop zero s p len = none
ece391_strlen_loop (suc fuel) s p len =
    let rest = ece391_strlen_loop fuel s (p + 1) (len + 1) in if s p == 0 then some len else rest

unfoldable pub ece391_strlen : ℕ → Buf → ℕ → Option ℕ
unfolding ece391_strlen_loop
ece391_strlen fuel s p = ece391_strlen_loop fuel s p 0

-- The terminator is copied before it is tested.
unfoldable pub ece391_strcpy : ℕ → Buf → ℕ → Buf → ℕ → Option Buf
ece391_strcpy zero dst d src s = none
ece391_strcpy (suc fuel) dst d src s =
    let copied = store dst d (src s) in
    let rest = ece391_strcpy fuel copied (d + 1) src (s + 1) in
    if src s == 0 then some copied else rest

-- `end <= 0` for a string of at most one character. The loop is that of strrev.
unfoldable pub ece391_strrev : ℕ → Buf → ℕ → Option Buf
unfolding ece391_strlen strrev_loop
ece391_strrev fuel s p = do
  n ← ece391_strlen fuel s p
  some (if ltb n 2 then s else strrev_loop n s p 0 n)

-- The loop is that of itoa.
unfoldable pub ece391_itoa : ℕ → Buf → ℕ → ℕ → Option Buf
unfolding ece391_strrev
ece391_itoa value buf at radix =
    if value == 0 then some (store (store buf at b'0') (at + 1) 0) else do
      (digits, newbuf) ← itoa_loop 33 value radix buf at
      ece391_strrev 34 (store digits newbuf 0) at

strlen_loops :
    (fuel : ℕ) (s : Buf) (p len : ℕ)
    → ece391_strlen_loop fuel s (p + len) len ≡ strlen_loop fuel s p len
unfolding ece391_strlen_loop strlen_loop
strlen_loops zero s p len = refl
strlen_loops (suc fuel) s p len =
    let same : p + len + 1 ≡ p + (len + 1) = omega arith in
    let rest =
      ap (λ q. ece391_strlen_loop fuel s q (len + 1)) same ∙ strlen_loops fuel s p (len + 1) in
    rw rest refl

pub ece391_strlen-strlen : (fuel : ℕ) (s : Buf) (p : ℕ) → ece391_strlen fuel s p ≡ strlen fuel s p
unfolding ece391_strlen strlen
ece391_strlen-strlen fuel s p =
    let start : p ≡ p + 0 = omega arith in
    ap (λ q. ece391_strlen_loop fuel s q 0) start ∙ strlen_loops fuel s p 0

-- A string of at most one character is its own mirror image.
strrev_loop-short :
    (n : ℕ) (s : Buf) (p : ℕ)
    → (if ltb n 2 then s else strrev_loop n s p 0 n) ≡ strrev_loop n s p 0 n
unfolding strrev_loop
strrev_loop-short zero s p = refl
strrev_loop-short (suc zero) s p = refl
strrev_loop-short (suc (suc n)) s p = if_false _ _ (long n)
  where
    long : (n : ℕ) → ltb (suc (suc n)) 2 ≡ false
    long n = ground arith

strrev_results :
    (s : Buf) (p : ℕ) (r : Option ℕ)
    → (do n ← r; some (if ltb n 2 then s else strrev_loop n s p 0 n))
      ≡ (do n ← r; some (strrev_loop n s p 0 n))
strrev_results s p none = refl
strrev_results s p (some n) = ap some (strrev_loop-short n s p)

-- The user programs' strrev does what the kernel's does.
ece391_strrev-strrev : (fuel : ℕ) (s : Buf) (p : ℕ) → ece391_strrev fuel s p ≡ strrev fuel s p
unfolding ece391_strrev strrev
ece391_strrev-strrev fuel s p =
    ap (λ (r : Option ℕ). (do n ← r; some (if ltb n 2 then s else strrev_loop n s p 0 n)))
      (ece391_strlen-strlen fuel s p)
    ∙ strrev_results s p (strlen fuel s p)

itoa_results :
    (at : ℕ) (r : Option (Buf × ℕ))
    → (do (digits, newbuf) ← r; ece391_strrev 34 (store digits newbuf 0) at)
      ≡ (do (digits, newbuf) ← r; strrev 34 (store digits newbuf 0) at)
itoa_results at none = refl
itoa_results at (some (digits, newbuf)) = ece391_strrev-strrev 34 (store digits newbuf 0) at

-- The user programs' itoa gives what the kernel's gives, on every value, buffer and radix.
pub ece391_itoa-itoa :
    (value : ℕ) (buf : Buf) (at radix : ℕ)
    → ece391_itoa value buf at radix ≡ itoa value buf at radix
unfolding ece391_itoa itoa
ece391_itoa-itoa value buf at radix =
    ap (λ r. if value == 0 then some (store (store buf at b'0') (at + 1) 0) else r)
      (itoa_results at (itoa_loop 33 value radix buf at))
