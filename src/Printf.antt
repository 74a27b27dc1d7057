-- ===== src/Printf.antt =====
-- printf of student-distrib/lib.c. An argument behind the format is a word, or an object and a
-- position for a pointer; `none` is a missing argument, one of the other sort, or a string without an
-- end. What conv_buf holds before is a parameter.
pub mod Plain
pub mod Messages
pub mod Digits
pub mod Typed
use boz_os.Prelude.{
  ◌||◌, ℕ, zero, suc, ◌+◌, ◌-◌, ◌%◌, ◌^◌, Bool, true, false, Option, none, some, List, [], ◌∷◌, ltb,
  ◌==◌, if◌then◌else◌, ◌>>=◌, Buf, store, sub32, slt32,
}
use boz_os.Clib.Strings.{strlen}
use boz_os.Clib.Numbers.{itoa}
use boz_os.State.{Kernel}
use boz_os.Screen.{putc, puts}

pub data Arg : Type 0 where
  word : ℕ → Arg
  text : Buf → ℕ → Arg

-- `while (i < 8) conv_buf[i++] = '0';`, with `rounds` to go.
unfoldable pub pad_zeros : Buf → ℕ → ℕ → Buf
pad_zeros b zero i = b
pad_zeros b (suc rounds) i = pad_zeros (store b i b'0') rounds (i + 1)

-- The cases 'x', 'u' and 'd' on the word `w`.
unfoldable pub print_hex : Buf → Kernel → Bool → ℕ → Option (ℕ × Kernel)
print_hex conv_buf k false w = do b ← itoa w conv_buf 0 16; puts 64 k b 0 0
print_hex conv_buf k true w = do
  b ← itoa w conv_buf 8 16
  starting_index ← strlen 56 b 8
  puts 64 k (pad_zeros b (8 - starting_index) starting_index) starting_index 0

unfoldable pub print_unsigned : Buf → Kernel → ℕ → Option (ℕ × Kernel)
print_unsigned conv_buf k w = do b ← itoa w conv_buf 0 10; puts 36 k b 0 0

unfoldable pub print_signed : Buf → Kernel → ℕ → Option (ℕ × Kernel)
print_signed conv_buf k w = do
  b ← if slt32 w 0 then itoa (sub32 0 w) (store conv_buf 0 b'-') 1 10 else itoa w conv_buf 0 10
  puts 36 k b 0 0

-- The switch on the conversion's character: the arguments that are left, and the kernel.
unfoldable pub conversion : Buf → ℕ → Kernel → Bool → ℕ → List Arg → Option (List Arg × Kernel)
conversion conv_buf fuel k alternate c [] =
    if c == b'%'
    then some ([], putc k b'%')
    else if (c == b'x') || (c == b'u') || (c == b'd') || (c == b'c') || (c == b's')
    then none
    else some ([], k)
conversion conv_buf fuel k alternate c (word w ∷ args) =
    if c == b'%'
    then some (word w ∷ args, putc k b'%')
    else if c == b'x'
    then (do (n, k') ← print_hex conv_buf k alternate w; some (args, k'))
    else if c == b'u'
    then (do (n, k') ← print_unsigned conv_buf k w; some (args, k'))
    else if c == b'd'
    then (do (n, k') ← print_signed conv_buf k w; some (args, k'))
    else if c == b'c'
    then some (args, putc k (w % 256))
    else if c == b's'
    then none
    else some (word w ∷ args, k)
conversion conv_buf fuel k alternate c (text s p ∷ args) =
    if c == b'%'
    then some (text s p ∷ args, putc k b'%')
    else if c == b's'
    then (do (n, k') ← puts fuel k s p 0; some (args, k'))
    else if (c == b'x') || (c == b'u') || (c == b'd') || (c == b'c')
    then none
    else some (text s p ∷ args, k)

-- `#` as often as it stands there: whether it did, and where the conversion's character stands.
unfoldable pub flags : ℕ → Buf → Bool → ℕ → Option (Bool × ℕ)
flags zero format alternate p = none
flags (suc fuel) format alternate p =
    let rest = flags fuel format true (p + 1) in
    if format p == b'#' then rest else some (alternate, p)

-- The loop over the format, from `p` on; a `%` at its end makes it run past the terminator.
unfoldable pub printf_loop : Buf → ℕ → Kernel → Buf → ℕ → List Arg → Option (ℕ × Kernel)
printf_loop conv_buf zero k format p args = none
printf_loop conv_buf (suc fuel) k format p args =
    let plain = printf_loop conv_buf fuel (putc k (format p)) format (p + 1) args in
    let converted = (do
      (alternate, p') ← flags fuel format false (p + 1)
      (args', k') ← conversion conv_buf fuel k alternate (format p') args
      printf_loop conv_buf fuel k' format (p' + 1) args') in
    if format p == 0 then some (p, k) else if format p == b'%' then converted else plain

unfoldable pub printf : Buf → ℕ → Kernel → Buf → List Arg → Option (ℕ × Kernel)
printf conv_buf fuel k format args = printf_loop conv_buf fuel k format 0 args
