-- ===== src/Clib/Fill.antt =====
-- memset fills exactly the bytes that it is given.
use boz_os.Prelude.{
  ℕ, zero, suc, ◌+◌, ◌-◌, ◌*◌, ◌/◌, ◌%◌, ◌^◌, ◌<◌, ◌≡◌, refl, inl, inr, true, Bool, ◌&&◌, arith,
  Bool-cases, all_below, all_below_sound, ltb, leb, ◌==◌, if◌then◌else◌, Buf, store,
}
use boz_os.Clib.Asm.{store_dword, memset_top, rep_stosl, memset_bottom, splat, memset, Regs}

-- `m` with `n` bytes from `s` on set to `c`.
abbrev pub filled : Buf → ℕ → ℕ → ℕ → Buf
filled m s c n q = if leb s q && ltb q (s + n) then c else m q

memset_bottom_lem : (m : Buf) (c n s q : ℕ) → memset_bottom m c n s q ≡ filled m s c n q
unfolding memset_bottom
memset_bottom_lem m c zero s q = ground arith
memset_bottom_lem m c (suc n) s q = ground (arith, memset_bottom_lem (store m s c) c n (s + 1) q)

abbrev splats : ℕ → Bool
splats c =
    (splat c % 256 == c)
    && (splat c / 2 ^ 8 % 256 == c)
    && (splat c / 2 ^ 16 % 256 == c)
    && (splat c / 2 ^ 24 % 256 == c)

splat_table : all_below 256 splats ≡ true
unfolding splat
splat_table = refl

-- The four bytes of the double word that `rep stosl` stores are the byte asked for.
splat_bytes :
    (c : ℕ)
    → c < 256
    → (splat c % 256 ≡ c)
      × (splat c / 2 ^ 8 % 256 ≡ c)
      × (splat c / 2 ^ 16 % 256 ≡ c)
      × (splat c / 2 ^ 24 % 256 ≡ c)
splat_bytes c h = ground (arith, all_below_sound 256 splats c splat_table h)

store_dword-splat : (m : Buf) (c s q : ℕ) → c < 256 → store_dword m s (splat c) q ≡ filled m s c 4 q
unfolding store_dword
store_dword-splat m c s q h = ground (arith, splat_bytes c h)

rep_stosl_lem :
    (m : Buf) (c k s q : ℕ) → c < 256 → rep_stosl m (splat c) k s q ≡ filled m s c (4 * k) q
unfolding rep_stosl
rep_stosl_lem m c zero s q h = ground arith
rep_stosl_lem m c (suc k) s q h =
    ground (
      arith,
      rep_stosl_lem (store_dword m s (splat c)) c k (s + 4) q h,
      store_dword-splat m c s q h,
    )

-- What the first loop leaves to do, and what it has done.
record Topped (m : Buf) (c n s : ℕ) (r : Regs) : Type 0 where
  short : r.ecx < suc n
  moved : r.edi + r.ecx ≡ s + n
  bytes : (q : ℕ) → r.memory q ≡ filled m s c (r.edi - s) q
  after : s < suc r.edi

memset_top_lem : (m : Buf) (c n s : ℕ) → Topped m c n s (memset_top m c n s)
unfolding memset_top
memset_top_lem m c zero s = record {
  short = omega arith;
  moved = omega arith;
  bytes = λ q. ground arith;
  after = omega arith;
}
memset_top_lem m c (suc n) s = elim (Bool-cases (s % 4 == 0)) [
  | inl aligned ↦ rw aligned (record {
    short = omega arith;
    moved = omega arith;
    bytes = λ q. ground arith;
    after = omega arith;
  })
  | inr odd ↦
      let rest = memset_top_lem (store m s c) c n (s + 1) in
      rw odd (record {
        short = omega (arith, rest.short);
        moved = omega (arith, rest.moved);
        bytes = λ q. ground (arith, rest.bytes q, rest.after, rest.moved, rest.short);
        after = omega (arith, rest.after);
      })
]

-- memset sets the `n` bytes from `s` on to the low byte of `c`, and no other byte.
pub memset-filled : (m : Buf) (s c n q : ℕ) → memset m s c n q ≡ filled m s (c % 256) n q
unfolding memset
memset-filled m s c n q =
    let al = c % 256 in
    let r = memset_top m al n s in
    let top = memset_top_lem m al n s in
    let words = rep_stosl r.memory (splat al) (r.ecx / 4) r.edi in
    ground (
      arith,
      memset_bottom_lem words al (r.ecx % 4) (r.edi + 4 * (r.ecx / 4)) q,
      rep_stosl_lem r.memory al (r.ecx / 4) r.edi q (omega arith),
      top.bytes q,
      top.moved,
      top.after,
    )
