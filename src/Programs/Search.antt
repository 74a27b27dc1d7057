-- ===== src/Programs/Search.antt =====
-- grep, syscalls/ece391grep.c, finds a line exactly if the pattern occurs in it.
use boz_os.Prelude.{
  ℕ, zero, suc, ◌+◌, ◌<◌, ◌≡◌, ◌≢◌, ◌↔◌, refl, ap, sym, ◌∙◌, arith, Buf, IsBytes, ◌≤◌, inl, inr,
  true, Bool-cases,
}
use mathlib.Core.Path.{subst}
use native.Mathlib.Decide.{ℕ_discrete}
use boz_os.Programs.{local_at}
use boz_os.Programs.Grep.{matches, search_line}
use boz_os.Clib.Strings.Compare.{ece391_strncmp-strncmp}
use boz_os.Clib.Strings.Length.{HasLength}
use boz_os.Clib.Strings.{ece391_strncmp, strncmp}

-- strncmp up to the length of the second string compares with the whole of it.
strncmp-prefix :
    (n : ℕ) (s : Buf) (p : ℕ) (t : Buf) (q : ℕ)
    → IsBytes s
    → IsBytes t
    → ((i : ℕ) → i < n → t (q + i) ≢ 0)
    → (strncmp s p t q n ≡ 0) ↔ ((i : ℕ) → i < n → s (p + i) ≡ t (q + i))
unfolding strncmp
strncmp-prefix zero s p t q hs ht visible = (λ _ i h. absurd (omega arith), λ _. refl)
strncmp-prefix (suc n) s p t q hs ht visible = go (
    strncmp-prefix n s (p + 1) t (q + 1) hs ht
      (λ i h e. visible (suc i) (omega arith) (sym (shift t q i) ∙ e)))
  where
    first : (f : Buf) (p : ℕ) → f (p + 0) ≡ f p
    first f p = ap f (omega arith)

    shift : (f : Buf) (p i : ℕ) → f (p + 1 + i) ≡ f (p + suc i)
    shift f p i = ap f (omega arith)

    go :
        ((strncmp s (p + 1) t (q + 1) n ≡ 0) ↔ ((i : ℕ) → i < n → s (p + 1 + i) ≡ t (q + 1 + i)))
        → (strncmp s p t q (suc n) ≡ 0) ↔ ((i : ℕ) → i < suc n → s (p + i) ≡ t (q + i))
    go next = (forth, back)
      where
        seen : t q ≢ 0
        seen e = visible 0 (omega arith) (first t q ∙ e)

        forth : strncmp s p t q (suc n) ≡ 0 → (i : ℕ) → i < suc n → s (p + i) ≡ t (q + i)
        forth e zero h = first s p ∙ ground (arith, e, hs p, ht q) ∙ sym (first t q)
        forth e (suc i) h =
            let rest : strncmp s (p + 1) t (q + 1) n ≡ 0 = ground (arith, e, hs p, ht q, seen) in
            sym (shift s p i) ∙ (next.0 rest i (omega arith)) ∙ shift t q i

        back : ((i : ℕ) → i < suc n → s (p + i) ≡ t (q + i)) → strncmp s p t q (suc n) ≡ 0
        back same =
            let head : s p ≡ t q = sym (first s p) ∙ same 0 (omega arith) ∙ first t q in
            let rest : strncmp s (p + 1) t (q + 1) n ≡ 0 =
              next.1 (λ i h. shift s p i ∙ same (suc i) (omega arith) ∙ sym (shift t q i)) in
            ground (arith, head, rest, seen)

-- The pattern of `n` characters stands at `check`.
abbrev pub OccursAt : Buf → ℕ → Buf → ℕ → Type 0
OccursAt s n bytes check = (i : ℕ) → i < n → bytes (local_at + check + i) ≡ s (local_at + i)

module _ (s bytes : Buf) (n : ℕ) (pattern_bytes : IsBytes s) (line_bytes : IsBytes bytes)
    (string : HasLength s local_at n) (some_chars : 0 < n) (ascii : s local_at < 128) where
  compares :
      (check : ℕ)
      → (ece391_strncmp bytes (local_at + check) s local_at n ≡ 0) ↔ OccursAt s n bytes check
  compares check =
      let same =
        ece391_strncmp-strncmp n bytes (local_at + check) s local_at line_bytes pattern_bytes in
      let prefix =
        strncmp-prefix n bytes (local_at + check) s local_at line_bytes pattern_bytes string.1 in
      (λ e. prefix.0 (same.0 e), λ h. same.1 (prefix.1 h))

  matches_iff : (check : ℕ) → (matches s n bytes check ≡ true) ↔ OccursAt s n bytes check
  unfolding matches
  matches_iff check = (
    λ e.
        let zero_result : ece391_strncmp bytes (local_at + check) s local_at n ≡ 0 =
          ground (arith, e) in
        (compares check).0 zero_result,
    λ h.
        let equal = (compares check).1 h in
        let first : bytes (local_at + check) ≡ s local_at =
          ap bytes {y = local_at + check + 0} (omega arith)
          ∙ h 0 some_chars
          ∙ ap s {y = local_at} (omega arith) in
        ground (arith, equal, first, ascii),
  )

  -- The search of a line, from `check` on with `rounds` to go, finds something exactly if the pattern
  -- stands at one of these places, for a pattern of at least one character whose first is below 128.
  pub search_line_iff :
      (rounds check : ℕ)
      → (search_line s n bytes rounds check ≡ true)
        ↔ ((p : ℕ) × (check ≤ p) × (p < check + rounds) × OccursAt s n bytes p)
  unfolding search_line
  search_line_iff zero check = (λ e. cc, λ h. absurd (omega (arith, h.1, h.2)))
  search_line_iff (suc rounds) check = elim (Bool-cases (matches s n bytes check)) [
    | inl hit ↦
        (λ _. (check, omega arith, omega arith, (matches_iff check).0 hit), λ _. rw hit refl)
    | inr miss ↦
        let rest = search_line_iff rounds (check + 1) in
        (
          λ e.
              let later = rest.0 (rw miss at e) in
              (later.0, omega (arith, later.1), omega (arith, later.2), later.3),
          λ (p, from, to, occurs). elim (ℕ_discrete p check) [
            | yes here ↦
                let hit = (matches_iff check).1 (subst (OccursAt s n bytes) here occurs) in cc
            | no ne ↦ rw miss (rest.1 (p, omega arith, omega arith, occurs))
          ],
        )
  ]
