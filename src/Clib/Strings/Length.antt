-- ===== src/Clib/Strings/Length.antt =====
-- strlen of student-distrib/lib.c finds the first terminator.
use boz_os.Prelude.{
  ℕ, zero, suc, ◌+◌, ◌<◌, ◌≡◌, ◌≢◌, ◌↔◌, some, arith, ◌==◌, Buf, Bool-cases, inl, inr,
}
use boz_os.Clib.Strings.{strlen_loop, strlen}

-- The string at `p` has length `n`.
abbrev pub HasLength : Buf → ℕ → ℕ → Type 0
HasLength s p n = (s (p + n) ≡ 0) × ((i : ℕ) → i < n → s (p + i) ≢ 0)

strlen_loop_total :
    (fuel : ℕ) (s : Buf) (p len n : ℕ)
    → s (p + n) ≡ 0
    → ((i : ℕ) → i < n → s (p + i) ≢ 0)
    → len < suc n
    → n < len + fuel
    → strlen_loop fuel s p len ≡ some n
unfolding strlen_loop
strlen_loop_total zero s p len n z h l e = absurd (omega arith)
strlen_loop_total (suc fuel) s p len n z h l e =
    ground (arith, h len, strlen_loop_total fuel s p (len + 1) n z h)

-- Where the loop stops.
record Stops (fuel : ℕ) (s : Buf) (p len n : ℕ) : Type 0 where
  ends : s (p + n) ≡ 0
  from : len < suc n
  fuelled : n < len + fuel
  before : (i : ℕ) → len < suc i → i < n → s (p + i) ≢ 0

strlen_loop-Stops :
    (fuel : ℕ) (s : Buf) (p len n : ℕ) → strlen_loop fuel s p len ≡ some n → Stops fuel s p len n
unfolding strlen_loop
strlen_loop-Stops zero s p len n e = absurd (ground arith)
strlen_loop-Stops (suc fuel) s p len n e = elim (Bool-cases (s (p + len) == 0)) [
  | inl z ↦
      let e' : len ≡ n = ground arith in
      record {
        ends = ground arith;
        from = ground arith;
        fuelled = ground arith;
        before = λ i l h. ground arith;
      }
  | inr nz ↦
      let rest = strlen_loop-Stops fuel s p (len + 1) n (ground arith) in
      record {
        ends = rest.ends;
        from = omega (arith, rest.from);
        fuelled = omega (arith, rest.fuelled);
        before = λ i l h. ground (arith, rest.before i);
      }
]

-- strlen returns `n` exactly when the first terminator stands `n` bytes on, within the object.
pub strlen-HasLength :
    (fuel : ℕ) (s : Buf) (p n : ℕ) → (strlen fuel s p ≡ some n) ↔ ((n < fuel) × HasLength s p n)
unfolding strlen
strlen-HasLength fuel s p n = (
  λ e.
      let r = strlen_loop-Stops fuel s p 0 n e in
      (omega (arith, r.fuelled), (r.ends, λ i h. r.before i (omega arith) h)),
  λ h. strlen_loop_total fuel s p 0 n h.1.0 h.1.1 (omega arith) (omega arith),
)
