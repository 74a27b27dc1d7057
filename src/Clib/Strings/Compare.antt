-- ===== src/Clib/Strings/Compare.antt =====
-- strncmp of student-distrib/lib.c and ece391_strncmp of syscalls/ece391support.c decide equality of
-- bounded strings.
use boz_os.Prelude.{
  ℕ, zero, suc, ◌+◌, ◌-◌, ◌≡◌, ◌↔◌, refl, arith, IsBytes, ◌==◌, if◌then◌else◌, Buf, List, [], ◌∷◌,
}
use boz_os.Clib.Strings.{ece391_strncmp, ece391_strncmp_loop, strncmp}

-- The characters of the string at `p`, `n` of them at most.
unfoldable pub chars : ℕ → Buf → ℕ → List ℕ
chars zero s p = []
chars (suc n) s p = let rest = s p ∷ chars n s (p + 1) in if s p == 0 then [] else rest

-- strncmp returns 0 exactly when the two strings, cut to `n` characters, are the same.
pub strncmp_iff :
    (n : ℕ) (s : Buf) (p : ℕ) (t : Buf) (q : ℕ)
    → IsBytes s
    → IsBytes t
    → (strncmp s p t q n ≡ 0) ↔ (chars n s p ≡ chars n t q)
unfolding strncmp chars
strncmp_iff zero s p t q hs ht = (λ _. refl, λ _. refl)
strncmp_iff (suc n) s p t q hs ht =
    let ih = strncmp_iff n s (p + 1) t (q + 1) hs ht in
    (λ e. ground (arith, ih.0, hs p, ht q), λ e. ground (arith, ih.1, hs p, ht q))

ece391_strncmp_loop-strncmp :
    (n : ℕ) (s : Buf) (p : ℕ) (t : Buf) (q : ℕ)
    → IsBytes s
    → IsBytes t
    → (ece391_strncmp_loop s p t q n ≡ 0) ↔ (strncmp s p t q (suc n) ≡ 0)
unfolding ece391_strncmp_loop strncmp
ece391_strncmp_loop-strncmp zero s p t q hs ht =
    (λ e. ground (arith, hs p, ht q), λ e. ground (arith, hs p, ht q))
ece391_strncmp_loop-strncmp (suc n) s p t q hs ht =
    let ih = ece391_strncmp_loop-strncmp n s (p + 1) t (q + 1) hs ht in
    (λ e. ground (arith, ih.0, hs p, ht q), λ e. ground (arith, ih.1, hs p, ht q))

-- The kernel's strncmp and the one of the user programs agree on whether the strings are the same.
pub ece391_strncmp-strncmp :
    (n : ℕ) (s : Buf) (p : ℕ) (t : Buf) (q : ℕ)
    → IsBytes s
    → IsBytes t
    → (ece391_strncmp s p t q n ≡ 0) ↔ (strncmp s p t q n ≡ 0)
unfolding ece391_strncmp strncmp
ece391_strncmp-strncmp zero s p t q hs ht = (λ _. refl, λ _. refl)
ece391_strncmp-strncmp (suc n) s p t q hs ht =
    let e : suc n - 1 ≡ n = omega arith in
    let both = ece391_strncmp_loop-strncmp n s p t q hs ht in
    rw e (λ h. both.0 (ground arith), λ h. ground (arith, both.1))
