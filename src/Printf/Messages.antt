-- ===== src/Printf/Messages.antt =====
-- printf of student-distrib/lib.c on the kernel's messages: plain text, or a text that ends in one
-- number in hexadecimal.
use boz_os.Screen.Stream.{putc_stream}
use boz_os.Prelude.{
  ◌^◌, ℕ, zero, suc, ◌+◌, ◌-◌, ◌<◌, ◌≤◌, ◌≡◌, ◌≢◌, refl, ap, ◌∙◌, arith, Bool, true, false, some,
  not, ◌&&◌, ◌==◌, Buf, List, [], ◌∷◌, length, String, literal, codes, get_or,
}
use native.Mathlib.Decide.{ℕ_discrete}
use boz_os.State.{Kernel}
use boz_os.Screen.{putc}
use boz_os.Screen.Frame.{Shown, Shown-refl, Shown-trans, putc-Shown, puts-Shown}
use boz_os.Clib.Numbers.Value.{itoa-Prints}
use boz_os.Printf.{Arg, word, flags, print_hex, conversion, printf_loop, printf}

-- The characters from `i` to `n` are printed as they are.
pub record IsPlain (format : Buf) (n : ℕ) : Type 0 where
  pub inside : (j : ℕ) → j < n → format j ≢ 0
  pub no_percent : (j : ℕ) → j < n → format j ≢ b'%'

printf_loop-plain :
    (conv_buf : Buf) (fuel : ℕ) (k : Kernel) (format : Buf) (args : List Arg) (n i rest : ℕ)
    → IsPlain format n
    → i ≤ n
    → n + rest ≡ i + fuel
    → (k' : Kernel) × (printf_loop conv_buf fuel k format i args
        ≡ printf_loop conv_buf rest k' format n args)
      × Shown k k'
unfolding printf_loop
printf_loop-plain conv_buf zero k format args n i rest plain l e =
    let same : n ≡ i = omega arith in
    let none_left : rest ≡ 0 = omega arith in (k, rw (same, none_left) refl, Shown-refl k)
printf_loop-plain conv_buf (suc fuel) k format args n i rest plain l e = elim (ℕ_discrete i n) [
  | yes same ↦ let left : rest ≡ suc fuel = omega arith in (k, rw (← same, left) refl, Shown-refl k)
  | no ne ↦
      let k₁ = putc k (format i) in
      let later =
        printf_loop-plain conv_buf fuel k₁ format args n (i + 1) rest plain (omega arith)
          (omega arith) in
      let go : (format i == 0) ≡ false = ground (arith, plain.inside i (omega arith)) in
      let text : (format i == b'%') ≡ false = ground (arith, plain.no_percent i (omega arith)) in
      (later.0, rw (go, text) later.1, Shown-trans k k₁ later.0 (putc-Shown k (format i)) later.2)
]

printf_loop-end :
    (conv_buf : Buf) (rest : ℕ) (k : Kernel) (format : Buf) (args : List Arg) (n : ℕ)
    → format n ≡ 0
    → 0 < rest
    → printf_loop conv_buf rest k format n args ≡ some (n, k)
unfolding printf_loop
printf_loop-end conv_buf zero k format args n end h = absurd (omega arith)
printf_loop-end conv_buf (suc rest) k format args n end h = rw end refl

printf_loop-stream :
    (conv_buf : Buf) (fuel : ℕ) (k : Kernel) (format : Buf) (args : List Arg) (n i rest m : ℕ)
    → IsPlain format n
    → i + m ≡ n
    → n + rest ≡ i + fuel
    → printf_loop conv_buf fuel k format i args
      ≡ printf_loop conv_buf rest (putc_stream format m i k) format n args
unfolding printf_loop putc_stream
printf_loop-stream conv_buf fuel k format args n i rest zero plain l e =
    let same : i ≡ n = omega arith in let left : fuel ≡ rest = omega arith in rw (same, left) refl
printf_loop-stream conv_buf zero k format args n i rest (suc m) plain l e = absurd (omega arith)
printf_loop-stream conv_buf (suc fuel) k format args n i rest (suc m) plain l e =
    let go : (format i == 0) ≡ false = ground (arith, plain.inside i (omega arith)) in
    let text : (format i == b'%') ≡ false = ground (arith, plain.no_percent i (omega arith)) in
    rw (go, text)
      (printf_loop-stream conv_buf fuel (putc k (format i)) format args n (i + 1) rest m plain
        (omega arith) (omega arith))

-- A plain text that ends within the fuel is printed character by character, and nothing else.
pub printf-prints :
    (conv_buf : Buf) (fuel : ℕ) (k : Kernel) (format : Buf) (args : List Arg) (n : ℕ)
    → IsPlain format n
    → format n ≡ 0
    → n < fuel
    → printf conv_buf fuel k format args ≡ some (n, putc_stream format n 0 k)
unfolding printf
printf-prints conv_buf fuel k format args n plain end f =
    printf_loop-stream conv_buf fuel k format args n 0 (fuel - n) n plain (omega arith)
      (omega arith)
    ∙ printf_loop-end conv_buf (fuel - n) (putc_stream format n 0 k) format args n end (omega arith)

-- A plain text that ends within the fuel is printed, and its length is the result.
pub printf-text :
    (conv_buf : Buf) (fuel : ℕ) (k : Kernel) (format : Buf) (args : List Arg) (n : ℕ)
    → IsPlain format n
    → format n ≡ 0
    → n < fuel
    → (k' : Kernel) × (printf conv_buf fuel k format args ≡ some (n, k')) × Shown k k'
unfolding printf
printf-text conv_buf fuel k format args n plain end f =
    let (k', run, shown) =
      printf_loop-plain conv_buf fuel k format args n 0 (fuel - n) plain (omega arith)
        (omega arith) in
    (k', run ∙ printf_loop-end conv_buf (fuel - n) k' format args n end (omega arith), shown)

print_hex-Shown :
    (conv_buf : Buf) (k : Kernel) (w : ℕ)
    → w < 2 ^ 32
    → (n : ℕ) × (k' : Kernel) × (print_hex conv_buf k false w ≡ some (n, k')) × Shown k k'
unfolding print_hex
print_hex-Shown conv_buf k w h =
    let (r, n, run, prints) = itoa-Prints w conv_buf 0 16 (omega arith) (omega arith) h in
    let shown =
      puts-Shown 64 k r 0 0 n (omega arith) (omega (arith, prints.few))
        (λ j l u. prints.string.1 j u) prints.string.0 in
    (n, shown.0, rw (run, shown.1) refl, shown.2)

-- The end of such a text, from the percent sign on.
printf_loop-hex :
    (conv_buf : Buf) (rest : ℕ) (k k' : Kernel) (format : Buf) (w n m : ℕ)
    → format n ≡ b'%'
    → format (n + 1) ≡ b'x'
    → format (n + 1 + 1) ≡ b'\n'
    → format (n + 1 + 1 + 1) ≡ 0
    → print_hex conv_buf k false w ≡ some (m, k')
    → printf_loop conv_buf (suc (suc (suc rest))) k format n (word w ∷ [])
      ≡ some (n + 1 + 1 + 1, putc k' b'\n')
unfolding printf_loop flags conversion
printf_loop-hex conv_buf rest k k' format w n m percent x line end run =
    rw (percent, x, x, run, line, end) refl

-- A text that ends in %x and a line end.
pub printf-hex :
    (conv_buf : Buf) (fuel : ℕ) (k : Kernel) (format : Buf) (w n : ℕ)
    → IsPlain format n
    → format n ≡ b'%'
    → format (n + 1) ≡ b'x'
    → format (n + 2) ≡ b'\n'
    → format (n + 3) ≡ 0
    → n + 3 < fuel
    → w < 2 ^ 32
    → (k' : Kernel) × (printf conv_buf fuel k format (word w ∷ []) ≡ some (n + 3, k')) × Shown k k'
unfolding printf
printf-hex conv_buf fuel k format w n plain percent x line end f h =
    let (k₁, first, shown) =
      printf_loop-plain conv_buf fuel k format (word w ∷ []) n 0 (fuel - n) plain (omega arith)
        (omega arith) in
    let (m, k₂, run, shown') = print_hex-Shown conv_buf k₁ w h in
    let left : fuel - n ≡ suc (suc (suc (fuel - n - 3))) = omega arith in
    let two : n + 1 + 1 ≡ n + 2 = omega arith in
    let three : n + 1 + 1 + 1 ≡ n + 3 = omega arith in
    let last =
      printf_loop-hex conv_buf (fuel - n - 3) k₁ k₂ format w n m percent x (ap format two ∙ line)
        (ap format three ∙ end) run in
    (
      putc k₂ b'\n',
      first
          ∙ ap (λ r. printf_loop conv_buf r k₁ format n (word w ∷ [])) left
          ∙ last
          ∙ ap (λ r. some (r, putc k₂ b'\n')) three,
      Shown-trans k k₁ (putc k₂ b'\n') shown
          (Shown-trans k₁ k₂ (putc k₂ b'\n') shown' (putc-Shown k₂ b'\n')),
    )

-- The first `n` characters of a text are plain.
abbrev pub plain_text : ℕ → List ℕ → Bool
plain_text zero cs = true
plain_text (suc n) [] = false
plain_text (suc n) (c ∷ cs) = not (c == 0) && not (c == b'%') && plain_text n cs

plain_text-get :
    (n : ℕ) (cs : List ℕ) (j : ℕ)
    → plain_text n cs ≡ true
    → j < n
    → (get_or cs j 0 ≢ 0) × (get_or cs j 0 ≢ b'%')
plain_text-get zero cs j h l = absurd (omega arith)
plain_text-get (suc n) [] j h l = ground (arith, h)
plain_text-get (suc n) (c ∷ cs) zero h l = ground (arith, h)
plain_text-get (suc n) (c ∷ cs) (suc j) h l =
    let rest : plain_text n cs ≡ true = ground (arith, h) in
    plain_text-get n cs j rest (omega arith)

pub literal-IsPlain : (s : String) (n : ℕ) → plain_text n (codes s) ≡ true → IsPlain (literal s) n
unfolding literal
literal-IsPlain s n h = record {
  inside = λ j l. (plain_text-get n (codes s) j h l).0;
  no_percent = λ j l. (plain_text-get n (codes s) j h l).1;
}

get_or-end : (cs : List ℕ) → get_or cs (length cs) 0 ≡ 0
get_or-end [] = refl
get_or-end (c ∷ cs) = get_or-end cs

pub literal-end : (s : String) → literal s (length (codes s)) ≡ 0
unfolding literal
literal-end s = get_or-end (codes s)
