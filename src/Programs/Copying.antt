-- ===== src/Programs/Copying.antt =====
-- What cat, syscalls/ece391cat.c, prints, on any calls that read a file in pieces and print.
use boz_os.Prelude.{
  Option, ℕ, zero, suc, ◌+◌, ◌-◌, ◌^◌, ◌<◌, ◌≤◌, ◌≡◌, ◌≢◌, refl, sym, arith, some, minus_one, Buf,
  ==_of_ne,
}
use mathlib.Core.Path.{subst, subst₂}
use native.Mathlib.Decide.{ℕ_discrete}
use boz_os.Programs.{Calls, local_at}
use boz_os.Programs.Cat.{cat_loop, cat}

-- The contract of the calls on a file whose bytes are `f`, through the descriptor `fd` and pieces of
-- `size` bytes at most. `Left pos left st`: in the state `st` the file stands at `pos` and has `left`
-- bytes to come. `Prints pos n st st'`: from `st` to `st'` its `n` bytes from `pos` on have been printed.
pub record Source {S : Type 0} (c : Calls S) (f : ℕ → ℕ) (fd size : ℕ) (Left : ℕ → ℕ → S → Type 0)
    (Prints : ℕ → ℕ → S → S → Type 0) : Type 0 where
  pub read :
      (pos left : ℕ) (buf : Buf) (st : S)
      → Left pos left st
      → (n : ℕ) × (buf' : Buf) × (st' : S) × (c.ece391_read fd buf local_at size st
          ≡ some (n, buf', st'))
        × (n ≤ left)
        × (n ≤ size)
        × (0 < left → 0 < n)
        × ((i : ℕ) → i < n → buf' (local_at + i) ≡ f (pos + i))
        × Left (pos + n) (left - n) st'
        × Prints pos 0 st st'
  pub write :
      (pos left from n : ℕ) (buf : Buf) (st : S)
      → Left pos left st
      → n ≤ size
      → ((i : ℕ) → i < n → buf (local_at + i) ≡ f (from + i))
      → (status : ℕ) × (st' : S) × (c.ece391_write 1 buf local_at n st ≡ some (status, st'))
        × (status ≢ minus_one)
        × Left pos left st'
        × Prints from n st st'
  pub joined :
      (pos a b mid n : ℕ) (st st' st'' : S)
      → mid ≡ pos + a
      → n ≡ a + b
      → Prints pos a st st'
      → Prints mid b st' st''
      → Prints pos n st st''

module _ {S : Type 0} (c : Calls S) (f : ℕ → ℕ) (fd : ℕ) (Left : ℕ → ℕ → S → Type 0)
    (Prints : ℕ → ℕ → S → S → Type 0) (source : Source c f fd 1024 Left Prints) where
  -- The program ends with status 0 when it has printed the `left` bytes from `pos` on.
  abbrev pub Copied : ℕ → ℕ → S → Option (ℕ × S) → Type 0
  Copied pos left st r =
      (st' : S) × (r ≡ some (0, st')) × Prints pos left st st' × Left (pos + left) 0 st'

  cat_loop-copies :
      (fuel pos left : ℕ) (buf : Buf) (st : S)
      → Left pos left st
      → left < fuel
      → left < 2 ^ 31
      → Copied pos left st (cat_loop c fuel fd buf st)
  unfolding cat_loop
  cat_loop-copies zero pos left buf st at l h = absurd (omega arith)
  cat_loop-copies (suc fuel) pos left buf st at l h =
      let (n, buf₁, st₁, run, few, small, some_bytes, bytes, at₁, silent) =
        source.read pos left buf st at in
      elim (ℕ_discrete n 0) [
        | yes none_left ↦
            let last : pos + n ≡ pos + left = ground (arith, some_bytes, none_left) in
            let gone : left - n ≡ 0 = omega (arith, few, some_bytes) in
            let empty : left ≡ 0 = ground (arith, some_bytes, none_left) in
            (
              st₁,
              rw (run, none_left) refl,
              subst (λ left. Prints pos left st st₁) (sym empty) silent,
              subst₂ (λ p left. Left p left st₁) last gone at₁,
            )
        | no more ↦
            let (status, st₂, run₂, fine, at₂, printed) =
              source.write (pos + n) (left - n) pos n buf₁ st₁ at₁ small bytes in
            let end : pos + n + (left - n) ≡ pos + left = omega (arith, few) in
            let (st₃, run₃, rest, at₃) =
              cat_loop-copies fuel (pos + n) (left - n) buf₁ st₂ at₂ (omega arith) (omega arith) in
            (
              st₃,
              rw
                  (
                    run,
                    ==_of_ne n 0 more,
                    ==_of_ne n minus_one (omega arith),
                    run₂,
                    ==_of_ne status minus_one fine,
                  )
                  run₃,
              source.joined pos n (left - n) (pos + n) left st st₂ st₃ refl (omega (arith, few))
                  (source.joined pos 0 n pos n st st₁ st₂ (omega arith) (omega arith) silent
                    printed)
                  rest,
              subst (λ p. Left p 0 st₃) end at₃,
            )
      ]

  -- cat, when getargs gives a name and the file of that name opens at its first byte with `total` bytes,
  -- below 2 ^ 31 of them: it prints exactly these bytes, in order, and ends with status 0; as many
  -- rounds as bytes are enough.
  pub cat-Copied :
      (fuel total : ℕ) (buf name : Buf) (st st₁ st₂ : S)
      → c.ece391_getargs buf local_at 1024 st ≡ some (0, name, st₁)
      → c.ece391_open name local_at st₁ ≡ some (fd, st₂)
      → fd ≢ minus_one
      → Left 0 total st₂
      → total < fuel
      → total < 2 ^ 31
      → Copied 0 total st₂ (cat c fuel buf st)
  unfolding cat
  cat-Copied fuel total buf name st st₁ st₂ got open_run fine at l h =
      let copied = cat_loop-copies fuel 0 total name st₂ at l h in
      (copied.0, rw (got, open_run, ==_of_ne fd minus_one fine) copied.1, copied.2, copied.3)
