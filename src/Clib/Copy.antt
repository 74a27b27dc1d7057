-- ===== src/Clib/Copy.antt =====
-- memcpy copies exactly the bytes that it is given, also downwards over itself.
use boz_os.Prelude.{
  ℕ, zero, suc, ◌+◌, ◌-◌, ◌*◌, ◌/◌, ◌%◌, ◌≤◌, ◌<◌, ◌≡◌, refl, ◌∙◌, ◌⊎◌, inl, inr, ◌&&◌, arith,
  IsBytes, Bool-cases, ltb, leb, ◌==◌, if◌then◌else◌, Buf, store,
}
use boz_os.Clib.Asm.{
  store_dword, load_dword, memcpy_top, rep_movsl, copy_up, memcpy, memcpy_from, Regs,
}

-- `m` with the `n` bytes from `s` on put at `d`.
abbrev pub copied : Buf → ℕ → ℕ → ℕ → Buf
copied m d s n q = if leb d q && ltb q (d + n) then m (s + (q - d)) else m q

-- The copy runs downwards, or the two regions are apart.
abbrev pub Copies : ℕ → ℕ → ℕ → Type 0
Copies d s n = (d ≤ s) ⊎ (s + n ≤ d)

pub copy_up_lem : (m : Buf) (n d s q : ℕ) → Copies d s n → copy_up m n d s q ≡ copied m d s n q
unfolding copy_up
copy_up_lem m zero d s q h = ground arith
copy_up_lem m (suc n) d s q h =
    ground (arith, copy_up_lem (store m d (m s)) n (d + 1) (s + 1) q (omega arith))

store_dword-load :
    (m : Buf) (d s q : ℕ) → IsBytes m → store_dword m d (load_dword m s) q ≡ copied m d s 4 q
unfolding store_dword load_dword
store_dword-load m d s q b = ground (arith, b s, b (s + 1), b (s + 2), b (s + 3))

store_dword-IsBytes : (m : Buf) (d w : ℕ) → IsBytes m → IsBytes (store_dword m d w)
unfolding store_dword
store_dword-IsBytes m d w b q = ground (arith, b q)

rep_movsl_lem :
    (m : Buf) (k d s q : ℕ)
    → IsBytes m
    → Copies d s (4 * k)
    → rep_movsl m k d s q ≡ copied m d s (4 * k) q
unfolding rep_movsl
rep_movsl_lem m zero d s q b h = ground arith
rep_movsl_lem m (suc k) d s q b h =
    let m' = store_dword m d (load_dword m s) in
    ground (
      arith,
      rep_movsl_lem m' k (d + 4) (s + 4) q (store_dword-IsBytes m d _ b) (omega arith),
      store_dword-load m d s q b,
      store_dword-load m d s (s + 4 + (q - (d + 4))) b,
    )

-- What the first loop leaves to do, and what it has done.
record Topped (m : Buf) (n d s : ℕ) (r : Regs) : Type 0 where
  short : r.ecx < suc n
  moved : r.edi + r.ecx ≡ d + n
  along : r.esi + r.ecx ≡ s + n
  after : d ≤ r.edi
  bytes : (q : ℕ) → r.memory q ≡ copied m d s (r.edi - d) q

-- One byte, and then the rest, is the whole.
copied-suc :
    (m : Buf) (d s j k q : ℕ)
    → Copies d s k
    → j ≡ suc (j - 1)
    → j ≤ k
    → copied (store m d (m s)) (d + 1) (s + 1) (j - 1) q ≡ copied m d s j q
copied-suc m d s j k q h e l = ground arith

memcpy_top_lem : (m : Buf) (n d s : ℕ) → Copies d s n → Topped m n d s (memcpy_top m n d s)
unfolding memcpy_top
memcpy_top_lem m zero d s h = record {
  short = omega arith;
  moved = omega arith;
  along = omega arith;
  after = omega arith;
  bytes = λ q. ground arith;
}
memcpy_top_lem m (suc n) d s h = elim (Bool-cases (d % 4 == 0)) [
  | inl aligned ↦ rw aligned (record {
    short = omega arith;
    moved = omega arith;
    along = omega arith;
    after = omega arith;
    bytes = λ q. ground arith;
  })
  | inr odd ↦
      let r = memcpy_top (store m d (m s)) n (d + 1) (s + 1) in
      let rest = memcpy_top_lem (store m d (m s)) n (d + 1) (s + 1) (omega arith) in
      let e : r.edi - (d + 1) ≡ r.edi - d - 1 = omega arith in
      rw odd (record {
        short = omega (arith, rest.short);
        moved = omega (arith, rest.moved);
        along = omega (arith, rest.along);
        after = omega (arith, rest.after);
        bytes = λ q.
            rest.bytes q
            ∙ rw e (
                copied-suc m d s (r.edi - d) (suc n) q h (omega (arith, rest.after))
                  (omega (arith, rest.moved)));
      })
]

memcpy_top-IsBytes : (m : Buf) (n d s : ℕ) → IsBytes m → IsBytes (memcpy_top m n d s).memory
unfolding memcpy_top
memcpy_top-IsBytes m zero d s b q = b q
memcpy_top-IsBytes m (suc n) d s b q = elim (Bool-cases (d % 4 == 0)) [
  | inl aligned ↦ rw aligned (b q)
  | inr odd ↦
      rw odd
        (memcpy_top-IsBytes (store m d (m s)) n (d + 1) (s + 1) (λ p. ground (arith, b p, b s)) q)
]

-- Two copies in a row are one.
copied-append :
    (m m' : Buf) (d s a b d' s' n q : ℕ)
    → ((p : ℕ) → m' p ≡ copied m d s a p)
    → Copies d s n
    → d' ≡ d + a
    → s' ≡ s + a
    → n ≡ a + b
    → copied m' d' s' b q ≡ copied m d s n q
copied-append m m' d s a b d' s' n q h c e e' e'' = ground (arith, h q, h (s' + (q - d')))

-- memcpy puts the `n` bytes from `src` on at `dest`, and changes no other byte, if the regions are
-- apart or the copy runs to a lower address, as in scrolling.
pub memcpy-copied :
    (m : Buf) (dest src n q : ℕ)
    → IsBytes m
    → Copies dest src n
    → memcpy m dest src n q ≡ copied m dest src n q
unfolding memcpy
memcpy-copied m dest src n q b h =
    let r = memcpy_top m n dest src in
    let top = memcpy_top_lem m n dest src h in
    let k = r.ecx / 4 in
    let w = rep_movsl r.memory k r.edi r.esi in
    let b' = memcpy_top-IsBytes m n dest src b in
    let done = r.edi - dest + 4 * k in
    let words : (p : ℕ) → w p ≡ copied m dest src done p = λ p.
      rep_movsl_lem r.memory k r.edi r.esi p b' (omega (arith, top.moved, top.along, top.after))
      ∙ copied-append m r.memory dest src (r.edi - dest) (4 * k) r.edi r.esi done p top.bytes
          (omega (arith, top.moved, top.along, top.after)) (omega (arith, top.after))
          (omega (arith, top.moved, top.along, top.after)) refl in
    copy_up_lem w (r.ecx % 4) (r.edi + 4 * k) (r.esi + 4 * k) q
      (omega (arith, top.moved, top.along, top.after))
    ∙ copied-append m w dest src done (r.ecx % 4) (r.edi + 4 * k) (r.esi + 4 * k) n q words h
        (omega (arith, top.after)) (omega (arith, top.moved, top.along, top.after))
        (omega (arith, top.moved, top.along, top.after))

-- memcpy between two objects.
pub memcpy_from_lem :
    (n : ℕ) (dst : Buf) (d : ℕ) (src : Buf) (s q : ℕ)
    → memcpy_from dst d src s n q ≡ (if leb d q && ltb q (d + n) then src (s + (q - d)) else dst q)
unfolding memcpy_from
memcpy_from_lem zero dst d src s q = ground arith
memcpy_from_lem (suc n) dst d src s q =
    ground (arith, memcpy_from_lem n (store dst d (src s)) (d + 1) src (s + 1) q)
