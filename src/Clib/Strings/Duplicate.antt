-- ===== src/Clib/Strings/Duplicate.antt =====
-- strncpy, strcpy and strrev of student-distrib/lib.c: which bytes they leave.
use boz_os.Prelude.{
  ℕ, zero, suc, ◌+◌, ◌-◌, ◌*◌, ◌<◌, ◌≡◌, ◌≢◌, refl, ◌&&◌, arith, ltb, leb, ◌==◌, if◌then◌else◌, Buf,
  store, some,
}
use boz_os.Clib.Strings.{strncpy, strncpy_pad, strrev, strrev_loop, strcpy, strcpy_loop}
use boz_os.Clib.Strings.Length.{HasLength, strlen-HasLength}

-- The character `i` of the string at `s`, or 0 behind its end.
unfoldable pub padded : Buf → ℕ → ℕ → ℕ
padded src s zero = src s
padded src s (suc i) = let rest = padded src (s + 1) i in if src s == 0 then 0 else rest

padded-nul : (src : Buf) (s i : ℕ) → src s ≡ 0 → padded src s i ≡ 0
unfolding padded
padded-nul src s zero h = h
padded-nul src s (suc i) h = ground arith

padded-step :
    (src : Buf) (s i : ℕ) → src s ≢ 0 → i ≢ 0 → padded src s i ≡ padded src (s + 1) (i - 1)
unfolding padded
padded-step src s zero h h' = absurd (h' refl)
padded-step src s (suc i) h h' = let e : suc i - 1 ≡ i = omega arith in rw e (ground arith)

padded-zero : (src : Buf) (s : ℕ) → padded src s 0 ≡ src s
unfolding padded
padded-zero src s = refl

strncpy_pad_lem :
    (n : ℕ) (b : Buf) (d q : ℕ)
    → strncpy_pad b d n q ≡ (if leb d q && ltb q (d + n) then 0 else b q)
unfolding strncpy_pad
strncpy_pad_lem zero b d q = ground arith
strncpy_pad_lem (suc n) b d q = ground (arith, strncpy_pad_lem n (store b d 0) (d + 1) q)

-- strncpy writes `n` bytes: the string, then zeros; no terminator if the string is that long.
pub strncpy-padded :
    (n : ℕ) (b : Buf) (d : ℕ) (src : Buf) (s q : ℕ)
    → strncpy b d src s n q ≡ (if leb d q && ltb q (d + n) then padded src s (q - d) else b q)
unfolding strncpy
strncpy-padded zero b d src s q = ground arith
strncpy-padded (suc n) b d src s q = ground (
  arith,
  strncpy_pad_lem (suc n) b d q,
  strncpy-padded n (store b d (src s)) (d + 1) src (s + 1) q,
  padded-nul src s (q - d),
  padded-step src s (q - d),
  padded-zero src s,
)

-- A padded string is the string up to its end, and 0 from there on.
pub padded-HasLength :
    (src : Buf) (s n k : ℕ)
    → HasLength src s n
    → padded src s k ≡ (if ltb k n then src (s + k) else 0)
unfolding padded
padded-HasLength src s zero zero h = ground (arith, h.0)
padded-HasLength src s (suc n) zero h = ground arith
padded-HasLength src s zero (suc k) h = ground (arith, h.0)
padded-HasLength src s (suc n) (suc k) h =
    let ih =
      padded-HasLength src (s + 1) n k (ground (arith, h.0), λ j l. ground (arith, h.1 (suc j))) in
    ground (arith, h.1 0, ih)

-- Before the end of a string, its characters.
pub padded-inside :
    (src : Buf) (s n k : ℕ)
    → ((j : ℕ) → j < n → src (s + j) ≢ 0)
    → k < n
    → padded src s k ≡ src (s + k)
unfolding padded
padded-inside src s n zero inside h = ground arith
padded-inside src s n (suc k) inside h =
    let ih =
      padded-inside src (s + 1) (n - 1) k (λ j l. ground (arith, inside (suc j))) (omega arith) in
    ground (arith, inside 0, ih)

-- The swaps of the loop mirror the part between `beg` and `stop`.
strrev_loop_lem :
    (rounds : ℕ) (s : Buf) (p beg stop q : ℕ)
    → stop < beg + 2 * rounds + 2
    → strrev_loop rounds s p beg stop q
      ≡ (if leb (p + beg) q && ltb q (p + stop) then s (p + (beg + stop - 1 - (q - p))) else s q)
unfolding strrev_loop
strrev_loop_lem zero s p beg stop q h = ground arith
strrev_loop_lem (suc rounds) s p beg stop q h =
    let swapped = store (store s (p + (stop - 1)) (s (p + beg))) (p + beg) (s (p + (stop - 1))) in
    ground (arith, strrev_loop_lem rounds swapped p (beg + 1) (stop - 1) q (omega arith))

-- strrev mirrors the characters of a terminated string in place, and changes nothing else.
pub strrev-mirror :
    (fuel : ℕ) (s : Buf) (p n : ℕ)
    → n < fuel
    → HasLength s p n
    → (r : Buf) × (strrev fuel s p ≡ some r)
      × ((q : ℕ) → r q ≡ (if leb p q && ltb q (p + n) then s (p + (n - 1 - (q - p))) else s q))
unfolding strrev
strrev-mirror fuel s p n f h =
    let e = (strlen-HasLength fuel s p n).1 (f, h) in
    (strrev_loop n s p 0 n, rw e refl, λ q. ground (arith, strrev_loop_lem n s p 0 n q))

-- strcpy copies a terminated string with its terminator, and changes nothing else.
pub strcpy_lem :
    (fuel : ℕ) (b : Buf) (d : ℕ) (src : Buf) (s n : ℕ)
    → n < fuel
    → HasLength src s n
    → (r : Buf) × (strcpy fuel b d src s ≡ some r)
      × ((q : ℕ) → r q ≡ (if leb d q && leb q (d + n) then src (s + (q - d)) else b q))
unfolding strcpy strcpy_loop
strcpy_lem zero b d src s n f h = absurd (omega arith)
strcpy_lem (suc fuel) b d src s zero f h =
    let z : src s ≡ 0 = ground (arith, h.0) in (store b d 0, ground arith, λ q. ground (arith, h.0))
strcpy_lem (suc fuel) b d src s (suc n) f h =
    let nz : src s ≢ 0 = ground (arith, h.1 0) in
    let (r, e, bytes) =
      strcpy_lem fuel (store b d (src s)) (d + 1) src (s + 1) n (omega arith)
        (ground (arith, h.0), λ i l. ground (arith, h.1 (suc i))) in
    (r, ground arith, λ q. ground (arith, bytes q))
