-- ===== src/Filesystem/Directory.antt =====
-- read_dentry_by_name, read_dentry_by_index and dread of student-distrib/filesystem.c.
use boz_os.Prelude.{
  ℕ, zero, suc, ◌+◌, ◌-◌, ◌^◌, ◌≤◌, ◌<◌, ◌≡◌, inl, inr, refl, true, false, arith, ltb, leb, ◌==◌,
  ◌&&◌, if◌then◌else◌, some, minus_one, add32, Buf, Bool-cases, IsBytes, store, ==_iff, sym,
}
use native.Mathlib.Decide.{ℕ_discrete}
use mathlib.Core.Path.{subst}
use boz_os.Clib.Asm.{memcpy_from, load_dword}
use boz_os.Clib.Copy.{memcpy_from_lem}
use boz_os.Clib.Strings.{strncmp, strncpy}
use Prim.Native.Nat.{min}
use boz_os.Clib.Strings.Duplicate.{strncpy-padded, padded, padded-HasLength}
use boz_os.Clib.Strings.Length.{HasLength, strlen-HasLength}
use boz_os.Clib.Strings.Compare.{chars, strncmp_iff}
use boz_os.Filesystem.{
  Fs, dentry_at, dentry_size, dir_entries, file_name_len, max_d_entries, file_type, find_dentry,
  read_dentry_by_name, read_dentry_by_index, dread,
}

-- The string at `p` names the directory entry `i`.
abbrev pub Names : Fs → Buf → ℕ → ℕ → Type 0
Names fs fname p i = chars file_name_len fname p ≡ chars file_name_len fs.image (dentry_at fs i)

-- The 64 bytes of the entry `i` stand in `dentry'`, and nothing else has changed.
abbrev pub IsEntry : Fs → ℕ → Buf → Buf → Type 0
IsEntry fs i dentry dentry' =
    (q : ℕ) → dentry' q ≡ (if ltb q dentry_size then fs.image (dentry_at fs i + q) else dentry q)

-- The first entry from `i` on, of `rounds`, that the string names.
pub data Found (fs : Fs) (fname : Buf) (p : ℕ) (dentry : Buf) (from to : ℕ) : ℕ × Buf → Type 0 where
  found :
      (i : ℕ) (dentry' : Buf)
      → from ≤ i
      → i < to
      → Names fs fname p i
      → ((j : ℕ) → from ≤ j → j < i → ¬ Names fs fname p j)
      → IsEntry fs i dentry dentry'
      → Found fs fname p dentry from to (0, dentry')
  missing :
      ((j : ℕ) → from ≤ j → j < to → ¬ Names fs fname p j)
      → Found fs fname p dentry from to (minus_one, dentry)

memcpy_from-IsEntry :
    (fs : Fs) (i : ℕ) (dentry : Buf)
    → IsEntry fs i dentry (memcpy_from dentry 0 fs.image (dentry_at fs i) dentry_size)
memcpy_from-IsEntry fs i dentry q =
    ground (arith, memcpy_from_lem dentry_size dentry 0 fs.image (dentry_at fs i) q)

module _ (fs : Fs) (fname : Buf) (p : ℕ) (dentry : Buf) (image : IsBytes fs.image)
    (name : IsBytes fname) where
  passed :
      {i j : ℕ}
      → ¬ Names fs fname p i
      → (i + 1 ≤ j → ¬ Names fs fname p j)
      → i ≤ j
      → ¬ Names fs fname p j
  passed {i} {j} miss rest l = elim (ℕ_discrete i j) [
    | yes e ↦ λ n. miss (subst (Names fs fname p) (sym e) n)
    | no ne ↦ rest (omega arith)
  ]

  -- A failed comparison puts the entry `i` among those that the search has passed.
  Found-skip :
      {i to : ℕ} {out : ℕ × Buf}
      → ¬ Names fs fname p i
      → Found fs fname p dentry (i + 1) to out
      → Found fs fname p dentry i to out
  Found-skip miss (found k d a b c e f) =
      found k d (omega arith) b c (λ j l h. passed miss (λ l'. e j l' h) l) f
  Found-skip miss (missing h) = missing (λ j l k. passed miss (λ l'. h j l' k) l)

  find_dentry-Found :
      (rounds i to : ℕ)
      → i + rounds ≡ to
      → Found fs fname p dentry i to (find_dentry fs fname p dentry rounds i)
  unfolding find_dentry
  find_dentry-Found zero i to e = missing (λ j l h. absurd (omega arith))
  find_dentry-Found (suc rounds) i to e =
      let same = strncmp_iff file_name_len fname p fs.image (dentry_at fs i) name image in
      elim (Bool-cases (strncmp fname p fs.image (dentry_at fs i) file_name_len == 0)) [
        | inl hit ↦ rw hit (
            found i _ (omega arith) (omega arith) (same.0 ((==_iff _ _).0 hit))
              (λ j l h. absurd (omega arith)) (memcpy_from-IsEntry fs i dentry))
        | inr miss ↦ rw miss (
            Found-skip (λ n. ground (arith, same.1 n))
              (find_dentry-Found rounds (i + 1) to (omega arith)))
      ]

-- read_dentry_by_name copies the first of the 62 entries that has the name, and answers -1 with the
-- caller's structure as it was exactly when there is none; the name is not empty.
pub read_dentry_by_name-Found :
    (fuel : ℕ) (fs : Fs) (fname : Buf) (p : ℕ) (dentry : Buf) (n : ℕ)
    → IsBytes fs.image
    → IsBytes fname
    → HasLength fname p n
    → n < fuel
    → 0 < n
    → (out : ℕ × Buf) × (read_dentry_by_name fuel fs fname p dentry ≡ some out)
      × Found fs fname p dentry 0 max_d_entries out
unfolding read_dentry_by_name
read_dentry_by_name-Found fuel fs fname p dentry n image name length f some_name =
    let e = (strlen-HasLength fuel fname p n).1 (f, length) in
    let named : (n == 0) ≡ false = ground arith in
    (
      find_dentry fs fname p dentry max_d_entries 0,
      rw (e, named),
      find_dentry-Found fs fname p dentry image name max_d_entries 0 max_d_entries refl,
    )

-- The entry as read_dentry_by_index leaves it: a byte inside it is the image's but for byte 32.
abbrev pub IsCut : Fs → ℕ → Buf → Type 0
IsCut fs index dentry' =
    (q : ℕ)
    → q < dentry_size
    → dentry' q ≡ (if q == file_name_len then 0 else fs.image (dentry_at fs index + q))

read_dentry_by_index-IsCut :
    (fuel : ℕ) (fs : Fs) (index : ℕ) (dentry : Buf) (n : ℕ)
    → index ≤ max_d_entries
    → HasLength fs.image (dentry_at fs index) n
    → n < fuel
    → 0 < n
    → (dentry' : Buf) × (read_dentry_by_index fuel fs index dentry ≡ some (0, dentry'))
      × IsCut fs index dentry'
unfolding read_dentry_by_index
read_dentry_by_index-IsCut fuel fs index dentry n h length f some_name =
    let e = (strlen-HasLength fuel fs.image (dentry_at fs index) n).1 (f, length) in
    let copy = memcpy_from dentry 0 fs.image (dentry_at fs index) dentry_size in
    let same = memcpy_from-IsEntry fs index dentry in
    let early : ltb max_d_entries index ≡ false = ground arith in
    let named : ltb 0 n ≡ true = ground arith in
    (store copy 32 0, rw (early, e, named), λ q l. ground (arith, same q))

-- read_dentry_by_index answers 0 for a named entry up to number 62, one more than the search by name
-- visits. It copies the entry but for byte 32, which it sets to 0: that byte is the low byte of the
-- file type, so that every type below 256 reads as 0.
pub read_dentry_by_index-file_type :
    (fuel : ℕ) (fs : Fs) (index : ℕ) (dentry : Buf) (n : ℕ)
    → index ≤ max_d_entries
    → HasLength fs.image (dentry_at fs index) n
    → n < fuel
    → 0 < n
    → file_type (λ q. fs.image (dentry_at fs index + q)) < 256
    → (dentry' : Buf) × (read_dentry_by_index fuel fs index dentry ≡ some (0, dentry'))
      × (file_type dentry' ≡ 0)
      × IsCut fs index dentry'
unfolding load_dword
read_dentry_by_index-file_type fuel fs index dentry n h length f some_name low =
    let (dentry', e, cut) =
      read_dentry_by_index-IsCut fuel fs index dentry n h length f some_name in
    (dentry', e, ground (arith, cut 32, cut 33, cut 34, cut 35), cut)

-- A name that is cut at 32 characters ends there.
IsCut-HasLength :
    (fs : Fs) (index : ℕ) (dentry' : Buf) (n : ℕ)
    → HasLength fs.image (dentry_at fs index) n
    → IsCut fs index dentry'
    → HasLength dentry' 0 (min n file_name_len)
IsCut-HasLength fs index dentry' n h cut =
    (ground (arith, cut (min n 32), h.0), λ i l. ground (arith, cut i, h.1 i))

padded-name :
    (entry : Buf) (n k : ℕ)
    → HasLength entry 0 n
    → padded entry 0 k ≡ (if ltb k n then entry k else 0)
padded-name entry n k h = ground (arith, padded-HasLength entry 0 n k h)

-- The 32 bytes at `at` hold the name of `n` characters of the entry `index`, and zeros behind it.
abbrev pub HoldsName : Fs → ℕ → ℕ → ℕ → Buf → Buf → Type 0
HoldsName fs index at n buf buf' =
    (q : ℕ)
    → buf' q ≡ (
        if leb at q && ltb q (at + n)
        then fs.image (dentry_at fs index + (q - at))
        else if leb at q && ltb q (at + file_name_len)
        then 0
        else buf q)

-- While dread_loc is below the number of entries, dread answers the length of that entry's name, cut
-- at 32, writes the name with zeros up to 32 bytes and nothing else, and goes on to the next entry.
pub dread-next :
    (fuel : ℕ) (fs : Fs) (temp buf : Buf) (at n : ℕ)
    → fs.dread_loc ≤ max_d_entries
    → HasLength fs.image (dentry_at fs fs.dread_loc) n
    → n < fuel
    → 0 < n
    → fs.dread_loc < dir_entries fs
    → (buf' : Buf) × (dread fuel fs temp buf at
        ≡ some (min n file_name_len, buf', record fs { dread_loc = fs.dread_loc + 1 }))
      × HoldsName fs fs.dread_loc at (min n file_name_len) buf buf'
unfolding dread
dread-next fuel fs temp buf at n small h f some_name more =
    let loc = fs.dread_loc in
    let (entry, e, cut) = read_dentry_by_index-IsCut fuel fs loc temp n small h f some_name in
    let length = IsCut-HasLength fs loc entry n h cut in
    let e' = (strlen-HasLength fuel entry 0 (min n file_name_len)).1 (omega arith, length) in
    let step : add32 loc 1 ≡ loc + 1 = omega arith in
    let go : ltb (dir_entries fs) (loc + 1) ≡ false = ground arith in
    (
      strncpy buf at entry 0 file_name_len,
      rw (step, go, e, e'),
      λ q. ground (
        arith,
        strncpy-padded file_name_len buf at entry 0 q,
        padded-name entry (min n file_name_len) (q - at) length,
        cut (q - at),
      ),
    )

-- Behind the last entry dread answers 0, leaves the buffer alone and starts again at the first.
pub dread-end :
    (fuel : ℕ) (fs : Fs) (temp buf : Buf) (at : ℕ)
    → fs.dread_loc < 2 ^ 32 - 1
    → dir_entries fs ≤ fs.dread_loc
    → dread fuel fs temp buf at ≡ some (0, buf, record fs { dread_loc = 0 })
unfolding dread
dread-end fuel fs temp buf at small end =
    let step : add32 fs.dread_loc 1 ≡ fs.dread_loc + 1 = omega arith in
    let stop : ltb (fs.dread_loc + 1) (dir_entries fs) ≡ false = ground arith in ground arith
