-- ===== src/Printf/Plain.antt =====
-- printf of student-distrib/lib.c on a format that has no conversions.
use boz_os.Prelude.{ℕ, zero, suc, ◌+◌, ◌≡◌, ◌≢◌, refl, ap, arith, Buf, List}
use boz_os.State.{Kernel}
use boz_os.Screen.{putc, puts}
use boz_os.Printf.{Arg, printf_loop, printf}

loop-puts :
    (conv_buf : Buf) (fuel : ℕ) (k : Kernel) (format : Buf) (i : ℕ) (args : List Arg)
    → ((j : ℕ) → format j ≢ b'%')
    → printf_loop conv_buf fuel k format i args ≡ puts fuel k format 0 i
unfolding printf_loop puts
loop-puts conv_buf zero k format i args plain = refl
loop-puts conv_buf (suc fuel) k format i args plain =
    let here : format (0 + i) ≡ format i = ap format (omega arith) in
    ground
      (arith, here, plain i, loop-puts conv_buf fuel (putc k (format i)) format (i + 1) args plain)

-- printf of a format without a percent sign is puts: it prints the format and returns its length,
-- whatever arguments stand behind it.
pub printf-puts :
    (conv_buf : Buf) (fuel : ℕ) (k : Kernel) (format : Buf) (args : List Arg)
    → ((j : ℕ) → format j ≢ b'%')
    → printf conv_buf fuel k format args ≡ puts fuel k format 0 0
unfolding printf
printf-puts conv_buf fuel k format args plain = loop-puts conv_buf fuel k format 0 args plain
