-- ===== src/Execute/Words.antt =====
-- Step 1 of execute in student-distrib/syscalls.c: the two words of a command.
use boz_os.Prelude.{
  Bool, ◌%◌, ℕ, zero, suc, ◌+◌, ◌-◌, ◌<◌, ◌≤◌, ◌≡◌, ◌≢◌, refl, sym, ap, ◌∙◌, arith, true, false,
  some, ltb, if◌then◌else◌, Buf,
}
use mathlib.Core.Path.{subst}
use native.Mathlib.Decide.{ℕ_discrete}
use boz_os.Clib.Asm.{memset}
use boz_os.Clib.Fill.{memset-filled}
use boz_os.Clib.Strings.{strncpy}
use boz_os.Clib.Strings.Duplicate.{padded-inside, strncpy-padded}
use boz_os.Terminals.{kb_size}
use boz_os.Execute.{Command, separates, scan_word, skip_spaces, parse_command}

-- A word of `n` characters, and a separator behind it.
pub record IsWord (command : Buf) (at n : ℕ) : Type 0 where
  pub inside : (j : ℕ) → j < n → separates (command (at + j)) ≡ false
  pub ends : separates (command (at + n)) ≡ true

moved :
    (command : Buf) (p q : ℕ) (b : Bool)
    → p ≡ q
    → separates (command p) ≡ b
    → separates (command q) ≡ b
moved command p q b e h = ap (λ r. separates (command r)) (sym e) ∙ h

scan_word-IsWord :
    (command : Buf) (at rounds i n : ℕ)
    → IsWord command (at + i) n
    → n < rounds
    → scan_word command at rounds i ≡ i + n
unfolding scan_word
scan_word-IsWord command at zero i n word h = absurd (omega arith)
scan_word-IsWord command at (suc rounds) i zero word h =
    let here : separates (command (at + i)) ≡ true =
      moved command (at + i + 0) (at + i) true (omega arith) word.ends in
    rw here (omega arith)
scan_word-IsWord command at (suc rounds) i (suc n) word h =
    let here : separates (command (at + i)) ≡ false =
      moved command (at + i + 0) (at + i) false (omega arith) (word.inside 0 (omega arith)) in
    let rest : IsWord command (at + (i + 1)) n = record {
      inside = λ j l.
          moved command (at + i + suc j) (at + (i + 1) + j) false (omega arith)
            (word.inside (suc j) (omega arith));
      ends = moved command (at + i + suc n) (at + (i + 1) + n) true (omega arith) word.ends;
    } in
    rw here (scan_word-IsWord command at rounds (i + 1) n rest (omega arith) ∙ omega arith)

skip_spaces-stops :
    (fuel : ℕ) (command : Buf) (at i n : ℕ)
    → i ≤ n
    → n < i + fuel
    → n < 256
    → ((j : ℕ) → i ≤ j → j < n → command (at + j) ≡ b' ')
    → command (at + n) ≢ b' '
    → skip_spaces fuel command at i ≡ some n
unfolding skip_spaces
skip_spaces-stops zero command at i n low high small spaces stop = absurd (omega arith)
skip_spaces-stops (suc fuel) command at i n low high small spaces stop = elim (ℕ_discrete i n) [
  | yes e ↦ ground (arith, e, stop)
  | no ne ↦
      let next : (i + 1) % 256 ≡ i + 1 = omega arith in
      let rest =
        skip_spaces-stops fuel command at (i + 1) n (omega arith) (omega arith) small
          (λ j l. spaces j (omega arith)) stop in
      ground (arith, spaces i, next, rest)
]

-- What is copied into a cleared buffer of 128 bytes: the word, and zeros behind it.
word_copied :
    (temp command : Buf) (at n q : ℕ)
    → IsWord command at n
    → n ≤ kb_size
    → q < kb_size
    → strncpy (memset temp 0 0 kb_size) 0 command at n q ≡ (if ltb q n then command (at + q) else 0)
word_copied temp command at n q word h small = ground (
  arith,
  strncpy-padded n (memset temp 0 0 kb_size) 0 command at q,
  memset-filled temp 0 0 kb_size q,
  padded-inside command at n q (λ j l. λ e. ground (arith, word.inside j l, e)),
)

length_of : (i a : ℕ) → i + a < kb_size → (if ltb (i + a) kb_size then i + a - i else 0) ≡ a
length_of i a h = ground arith

-- The line that the shell passes on: a word, spaces, and a word, with both separators in the first
-- 128 bytes.
pub record IsLine (command : Buf) (at n i a : ℕ) : Type 0 where
  pub first : IsWord command at n
  pub behind : n ≤ i
  pub spaces : (j : ℕ) → n ≤ j → j < i → command (at + j) ≡ b' '
  pub stop : command (at + i) ≢ b' '
  pub second : IsWord command (at + i) a
  pub fits : i + a < kb_size

-- A buffer of 128 bytes that holds a word of `n` characters and nothing else.
abbrev pub HoldsWord : Buf → Buf → ℕ → ℕ → Type 0
HoldsWord cmd command at n =
    (q : ℕ) → q < kb_size → cmd q ≡ (if ltb q n then command (at + q) else 0)

-- A line of two words with spaces between them, of which the second may be empty, is taken apart: the
-- buffer of the name holds the first word, that of the argument the second one, both with zeros
-- behind, and the length of the argument is that of the second word.
pub parse_command-words :
    (temp command : Buf) (at n i a : ℕ)
    → IsLine command at n i a
    → (c : Command) × (parse_command temp command at ≡ some c)
      × HoldsWord c.cmd1 command at n
      × HoldsWord c.cmd2 command (at + i) a
      × (c.arg_nbytes ≡ a)
unfolding parse_command
parse_command-words temp command at n i a line =
    let none_before : 0 + n ≡ n = omega arith in
    let start : at ≡ at + 0 = omega arith in
    let nbytes : scan_word command at kb_size 0 ≡ n =
      scan_word-IsWord command at kb_size 0 n (subst (λ p. IsWord command p n) start line.first)
        (omega (arith, line.behind, line.fits))
      ∙ none_before in
    let skipped : skip_spaces 256 command at n ≡ some i =
      skip_spaces-stops 256 command at n i line.behind (omega (arith, line.fits))
        (omega (arith, line.fits)) line.spaces line.stop in
    let j : scan_word command at (kb_size - i) i ≡ i + a =
      scan_word-IsWord command at (kb_size - i) i a line.second (omega (arith, line.fits)) in
    let arg : (if ltb (i + a) kb_size then i + a - i else 0) ≡ a = length_of i a line.fits in
    let cleared = memset temp 0 0 kb_size in
    (
      record {
        cmd1 = strncpy cleared 0 command at n;
        cmd2 = strncpy cleared 0 command (at + i) a;
        arg_nbytes = a;
      },
      rw (nbytes, skipped, j, arg) refl,
      λ q h. word_copied temp command at n q line.first (omega (arith, line.behind, line.fits)) h,
      λ q h. word_copied temp command (at + i) a q line.second (omega (arith, line.fits)) h,
      refl,
    )
