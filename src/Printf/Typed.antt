-- ===== src/Printf/Typed.antt =====
-- printf of student-distrib/lib.c on a format that fits its arguments.
use boz_os.Prelude.{
  codes, String, literal, sym, ◌%◌, ℕ, zero, suc, ◌+◌, ◌^◌, ◌<◌, ◌≤◌, ◌≡◌, refl, ap, ◌∙◌, inl, inr,
  arith, Bool, true, false, not, ◌&&◌, ◌||◌, some, Option, List, [], ◌∷◌, length, get_or, ◌==◌,
  if◌then◌else◌, ◌>>=◌, Buf, Bool-cases,
}
use boz_os.State.{Kernel}
use boz_os.Screen.{putc}
use boz_os.Screen.Frame.{Shown, Shown-refl, Shown-trans, putc-Shown}
use boz_os.Clib.Strings.Length.{HasLength}
use boz_os.Printf.{Arg, word, text, flags, conversion, printf_loop, printf}
use boz_os.Printf.Digits.{Ends, puts-Ends, print_hex-Ends, print_unsigned-Ends, print_signed-Ends}

abbrev is_number : ℕ → Bool
is_number c = (c == b'x') || (c == b'u') || (c == b'd') || (c == b'c')

-- The conversion `c` finds an argument of its sort, or needs none.
abbrev takes : ℕ → List Arg → Bool
takes c [] = (c == b'%') || not (is_number c || (c == b's'))
takes c (word w ∷ args) = (c == b'%') || not (c == b's')
takes c (text s q ∷ args) = (c == b'%') || not (is_number c)

-- The arguments that it leaves.
abbrev behind : ℕ → List Arg → List Arg
behind c [] = []
behind c (word w ∷ args) =
    if c == b'%' then word w ∷ args else if is_number c then args else word w ∷ args
behind c (text s q ∷ args) =
    if c == b'%' then text s q ∷ args else if c == b's' then args else text s q ∷ args

-- The characters of a format fit the arguments; the flag says that a percent sign and number signs
-- stand in front.
abbrev pub fits : Bool → List ℕ → List Arg → Bool
fits false [] args = true
fits true [] args = false
fits false (c ∷ cs) args = not (c == 0) && fits (c == b'%') cs args
fits true (c ∷ cs) args =
    ((c == b'#') || takes c args) && fits (c == b'#') cs (if c == b'#' then args else behind c args)

-- The words have 32 bits, and the strings end within `m` bytes.
abbrev pub Good : ℕ → List Arg → Type 0
Good m [] = Unit
Good m (word w ∷ args) = (w < 2 ^ 32) × Good m args
Good m (text s q ∷ args) = ((n : ℕ) × (n < m) × HasLength s q n) × Good m args

behind-Good : (m c : ℕ) (args : List Arg) → Good m args → Good m (behind c args)
behind-Good m c [] g = g
behind-Good m c (word w ∷ args) g = elim (Bool-cases (c == b'%')) [
  | inl e ↦ rw e g
  | inr e ↦ elim (Bool-cases (is_number c)) [ inl e' ↦ rw (e, e') g.1 | inr e' ↦ rw (e, e') g ]
]
behind-Good m c (text s q ∷ args) g = elim (Bool-cases (c == b'%')) [
  | inl e ↦ rw e g
  | inr e ↦ elim (Bool-cases (c == b's')) [ inl e' ↦ rw (e, e') g.1 | inr e' ↦ rw (e, e') g ]
]

-- A conversion that leaves the arguments `rest`.
abbrev Converts : Kernel → List Arg → Option (List Arg × Kernel) → Type 0
Converts k rest r = (k' : Kernel) × (r ≡ some (rest, k')) × Shown k k'

after_call :
    (k : Kernel) (args : List Arg) (r : Option (ℕ × Kernel))
    → Ends k r
    → Converts k args (do (n, k') ← r; some (args, k'))
after_call k args r (n, k', run, shown) = (k', rw run refl, shown)

word-Converts :
    (conv_buf : Buf) (fuel : ℕ) (k : Kernel) (alternate : Bool) (c w : ℕ) (args : List Arg)
    → w < 2 ^ 32
    → takes c (word w ∷ args) ≡ true
    → Converts k (behind c (word w ∷ args)) (conversion conv_buf fuel k alternate c (word w ∷ args))
unfolding conversion
word-Converts conv_buf fuel k alternate c w args small fit = elim (Bool-cases (c == b'%')) [
  | inl e ↦ rw e (putc k b'%', refl, putc-Shown k b'%')
  | inr e ↦ elim (Bool-cases (c == b'x')) [
    | inl x ↦ rw (e, x) (after_call k args _ (print_hex-Ends conv_buf k alternate w small))
    | inr x ↦ elim (Bool-cases (c == b'u')) [
      | inl u ↦ rw (e, x, u) (after_call k args _ (print_unsigned-Ends conv_buf k w small))
      | inr u ↦ elim (Bool-cases (c == b'd')) [
        | inl d ↦ rw (e, x, u, d) (after_call k args _ (print_signed-Ends conv_buf k w small))
        | inr d ↦ elim (Bool-cases (c == b'c')) [
          | inl h ↦ rw (e, x, u, d, h) (putc k (w % 256), refl, putc-Shown k (w % 256))
          | inr h ↦
              let s : (c == b's') ≡ false = ground (arith, fit, e) in
              rw (e, x, u, d, h, s) (k, refl, Shown-refl k)
        ]
      ]
    ]
  ]
]

text-Converts :
    (conv_buf : Buf) (fuel : ℕ) (k : Kernel) (alternate : Bool) (c : ℕ) (s : Buf) (q n : ℕ)
    (args : List Arg)
    → HasLength s q n
    → n < fuel
    → takes c (text s q ∷ args) ≡ true
    → Converts k
        (behind c (text s q ∷ args))
        (conversion conv_buf fuel k alternate c (text s q ∷ args))
unfolding conversion
text-Converts conv_buf fuel k alternate c s q n args string f fit = elim (Bool-cases (c == b'%')) [
  | inl e ↦ rw e (putc k b'%', refl, putc-Shown k b'%')
  | inr e ↦ elim (Bool-cases (c == b's')) [
    | inl h ↦ rw (e, h) (after_call k args _ (puts-Ends fuel k s q n string f))
    | inr h ↦
        let other : is_number c ≡ false = ground (arith, fit, e) in
        rw (e, h, other) (k, refl, Shown-refl k)
  ]
]

conversion-Converts :
    (conv_buf : Buf) (fuel m : ℕ) (k : Kernel) (alternate : Bool) (c : ℕ) (args : List Arg)
    → m ≤ fuel
    → Good m args
    → takes c args ≡ true
    → Converts k (behind c args) (conversion conv_buf fuel k alternate c args)
unfolding conversion
conversion-Converts conv_buf fuel m k alternate c [] l g fit = elim (Bool-cases (c == b'%')) [
  | inl e ↦ rw e (putc k b'%', refl, putc-Shown k b'%')
  | inr e ↦
      let other : (is_number c || (c == b's')) ≡ false = ground (arith, fit, e) in
      let same : ((c == b'x') || (c == b'u') || (c == b'd') || (c == b'c') || (c == b's')) ≡ false =
        ground (arith, other) in
      rw (e, same) (k, refl, Shown-refl k)
]
conversion-Converts conv_buf fuel m k alternate c (word w ∷ args) l g fit =
    word-Converts conv_buf fuel k alternate c w args g.0 fit
conversion-Converts conv_buf fuel m k alternate c (text s q ∷ args) l (string, g) fit =
    text-Converts conv_buf fuel k alternate c s q string.0 args string.2 (omega (arith, string.1))
      fit

-- The part of the loop behind a percent sign.
abbrev converted : Buf → ℕ → ℕ → Kernel → Buf → Bool → ℕ → List Arg → Option (ℕ × Kernel)
converted conv_buf fuel f k format alternate p args = do
  (alternate', p') ← flags f format alternate p
  (args', k') ← conversion conv_buf fuel k alternate' (format p') args
  printf_loop conv_buf fuel k' format (p' + 1) args'

-- What the characters of the format are from `p` on.
abbrev Spells : Buf → ℕ → List ℕ → Type 0
Spells format p cs = (j : ℕ) → format (p + j) ≡ get_or cs j 0

Spells-next :
    (format : Buf) (p c : ℕ) (cs : List ℕ) → Spells format p (c ∷ cs) → Spells format (p + 1) cs
Spells-next format p c cs s j = ap format (step p j) ∙ s (suc j)
  where
    step : (p j : ℕ) → p + 1 + j ≡ p + suc j
    step p j = omega arith

Spells-first : (format : Buf) (p : ℕ) (cs : List ℕ) → Spells format p cs → format p ≡ get_or cs 0 0
Spells-first format p cs s = ap format (same p) ∙ s 0
  where
    same : (p : ℕ) → p ≡ p + 0
    same p = omega arith

-- The loop on characters that fit, and the part of it behind a percent sign.
mutual
  unfolding printf_loop flags

  loop-Ends :
      (cs : List ℕ) (conv_buf : Buf) (fuel m : ℕ) (k : Kernel) (format : Buf) (p : ℕ)
      (args : List Arg)
      → Spells format p cs
      → fits false cs args ≡ true
      → Good m args
      → length cs + m < fuel
      → Ends k (printf_loop conv_buf fuel k format p args)
  loop-Ends cs conv_buf zero m k format p args spells fit good f = absurd (omega arith)
  loop-Ends [] conv_buf (suc fuel) m k format p args spells fit good f =
      rw (Spells-first format p [] spells) (p, k, refl, Shown-refl k)
  loop-Ends (c ∷ cs) conv_buf (suc fuel) m k format p args spells fit good f =
      let first = Spells-first format p (c ∷ cs) spells in
      let later = Spells-next format p c cs spells in
      let go : (c == 0) ≡ false = ground (arith, fit) in
      let rest : fits (c == b'%') cs args ≡ true = ground (arith, fit) in
      elim (Bool-cases (c == b'%')) [
        | inl e ↦
            let fit' : fits true cs args ≡ true = ap (λ b. fits b cs args) (sym e) ∙ rest in
            rw (first, go, e)
              (converted-Ends cs conv_buf fuel fuel m k format false (p + 1) args later fit' good
                (omega arith) (omega arith))
        | inr e ↦
            let fit' : fits false cs args ≡ true = ap (λ b. fits b cs args) (sym e) ∙ rest in
            let (n, k', run, shown) =
              loop-Ends cs conv_buf fuel m (putc k c) format (p + 1) args later fit' good
                (omega arith) in
            rw (first, go, e) (n, k', run, Shown-trans k (putc k c) k' (putc-Shown k c) shown)
      ]

  converted-Ends :
      (cs : List ℕ) (conv_buf : Buf) (fuel f m : ℕ) (k : Kernel) (format : Buf) (alternate : Bool)
      (p : ℕ) (args : List Arg)
      → Spells format p cs
      → fits true cs args ≡ true
      → Good m args
      → length cs + m ≤ fuel
      → length cs ≤ f
      → Ends k (converted conv_buf fuel f k format alternate p args)
  converted-Ends [] conv_buf fuel f m k format alternate p args spells fit good l l' =
      absurd (ground (arith, fit))
  converted-Ends (c ∷ cs) conv_buf fuel zero m k format alternate p args spells fit good l l' =
      absurd (omega arith)
  converted-Ends (c ∷ cs) conv_buf fuel (suc f) m k format alternate p args spells fit good l l' =
      let first = Spells-first format p (c ∷ cs) spells in
      let later = Spells-next format p c cs spells in
      elim (Bool-cases (c == b'#')) [
        | inl e ↦
            let fit' : fits true cs args ≡ true = ground (arith, fit, e) in
            rw (first, e)
              (converted-Ends cs conv_buf fuel f m k format true (p + 1) args later fit' good
                (omega arith) (omega arith))
        | inr e ↦
            let takes' : takes c args ≡ true = ground (arith, fit, e) in
            let fit' : fits false cs (behind c args) ≡ true = ground (arith, fit, e) in
            let (k₁, run, shown) =
              conversion-Converts conv_buf fuel m k alternate c args (omega arith) good takes' in
            let (n, k', run', shown') =
              loop-Ends cs conv_buf fuel m k₁ format (p + 1) (behind c args) later fit'
                (behind-Good m c args good) (omega arith) in
            rw (first, e) (rw (first, run) (n, k', run', Shown-trans k k₁ k' shown shown'))
      ]

-- A format that fits its arguments: every conversion finds an argument of its sort, words have 32 bits
-- and strings end. Then printf ends, whatever conv_buf held, and changes only the screen, the printing
-- positions and the ports; the fuel has to exceed the format's length and the strings'.
pub printf-Ends :
    (conv_buf : Buf) (fuel m : ℕ) (k : Kernel) (format : String) (args : List Arg)
    → fits false (codes format) args ≡ true
    → Good m args
    → length (codes format) + m < fuel
    → Ends k (printf conv_buf fuel k (literal format) args)
unfolding printf literal
printf-Ends conv_buf fuel m k format args fit good f =
    loop-Ends (codes format) conv_buf fuel m k (literal format) 0 args spells fit good f
  where
    spells : Spells (literal format) 0 (codes format)
    spells j = ap (λ j. get_or (codes format) j 0) (same j)
      where
        same : (j : ℕ) → 0 + j ≡ j
        same j = omega arith
