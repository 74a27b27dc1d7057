-- ===== src/Clib/Strings.antt =====
-- strlen, strncmp, strcpy, strncpy and strrev of student-distrib/lib.c, and the versions for user
-- programs in syscalls/ece391support.c. A string is an object and a position in it. A loop that
-- ends only at a terminator takes fuel, and `none` means that it ran off the object.
pub mod Length
pub mod Compare
pub mod Duplicate
use boz_os.Prelude.{
  ℕ, zero, suc, ◌+◌, ◌-◌, ◌%◌, not, ◌||◌, Option, none, some, ltb, ◌==◌, if◌then◌else◌, ◌>>=◌,
  add32, sub32, Buf, store,
}

unfoldable pub strlen_loop : ℕ → Buf → ℕ → ℕ → Option ℕ
strlen_loop zero s p len = none
strlen_loop (suc fuel) s p len =
    let rest = strlen_loop fuel s p (len + 1) in if s (p + len) == 0 then some len else rest

unfoldable pub strlen : ℕ → Buf → ℕ → Option ℕ
unfolding strlen_loop
strlen fuel s p = strlen_loop fuel s p 0

-- The `int32_t` difference of two `int8_t` values, given as bytes.
abbrev pub int8_diff : ℕ → ℕ → ℕ
int8_diff a b = sub32 ((a + 128) % 256) ((b + 128) % 256)

-- The count is that of the rounds left.
unfoldable pub strncmp : Buf → ℕ → Buf → ℕ → ℕ → ℕ
strncmp s1 p1 s2 p2 zero = 0
strncmp s1 p1 s2 p2 (suc n) =
    let rest = strncmp s1 (p1 + 1) s2 (p2 + 1) n in
    if not (s1 p1 == s2 p2) || (s1 p1 == 0) then int8_diff (s1 p1) (s2 p2) else rest

-- ece391_strncmp: `uint8_t` differences, and a count that is tested after the comparison. The
-- number is `n - 1`, the code's own test of `0 == n` standing in `ece391_strncmp`.
ece391_strncmp_loop : Buf → ℕ → Buf → ℕ → ℕ → ℕ
ece391_strncmp_loop s1 p1 s2 p2 zero = if s1 p1 == s2 p2 then 0 else sub32 (s1 p1) (s2 p2)
ece391_strncmp_loop s1 p1 s2 p2 (suc n) =
    let rest = ece391_strncmp_loop s1 (p1 + 1) s2 (p2 + 1) n in
    if not (s1 p1 == s2 p2) then sub32 (s1 p1) (s2 p2) else if s1 p1 == 0 then 0 else rest

unfoldable pub ece391_strncmp : Buf → ℕ → Buf → ℕ → ℕ → ℕ
unfolding ece391_strncmp_loop
ece391_strncmp s1 p1 s2 p2 n = if n == 0 then 0 else ece391_strncmp_loop s1 p1 s2 p2 (n - 1)

-- ece391_strcmp
unfoldable pub ece391_strcmp : ℕ → Buf → ℕ → Buf → ℕ → Option ℕ
ece391_strcmp zero s1 p1 s2 p2 = none
ece391_strcmp (suc fuel) s1 p1 s2 p2 =
    let rest = ece391_strcmp fuel s1 (p1 + 1) s2 (p2 + 1) in
    if not (s1 p1 == s2 p2)
    then some (sub32 (s1 p1) (s2 p2))
    else if s1 p1 == 0
    then some (0)
    else rest

strcpy_loop : ℕ → Buf → ℕ → Buf → ℕ → Option Buf
strcpy_loop zero dest d src s = none
strcpy_loop (suc fuel) dest d src s =
    let rest = strcpy_loop fuel (store dest d (src s)) (d + 1) src (s + 1) in
    if src s == 0 then some (store dest d 0) else rest

unfoldable pub strcpy : ℕ → Buf → ℕ → Buf → ℕ → Option Buf
unfolding strcpy_loop
strcpy fuel dest d src s = strcpy_loop fuel dest d src s

-- The second loop of strncpy.
unfoldable pub strncpy_pad : Buf → ℕ → ℕ → Buf
strncpy_pad dest d zero = dest
strncpy_pad dest d (suc n) = strncpy_pad (store dest d 0) (d + 1) n

unfoldable pub strncpy : Buf → ℕ → Buf → ℕ → ℕ → Buf
unfolding strncpy_pad
strncpy dest d src s zero = dest
strncpy dest d src s (suc n) =
    let rest = strncpy (store dest d (src s)) (d + 1) src (s + 1) n in
    if src s == 0 then strncpy_pad dest d (suc n) else rest

-- The swapping loop; `stop` is `end + 1`, since `end` is -1 for the empty string.
unfoldable pub strrev_loop : ℕ → Buf → ℕ → ℕ → ℕ → Buf
strrev_loop zero s p beg stop = s
strrev_loop (suc rounds) s p beg stop =
    let tmp = s (p + (stop - 1)) in
    let swapped = store (store s (p + (stop - 1)) (s (p + beg))) (p + beg) tmp in
    let rest = strrev_loop rounds swapped p (beg + 1) (stop - 1) in
    if ltb (beg + 1) stop then rest else s

-- The loop runs at most `strlen(s)` rounds.
unfoldable pub strrev : ℕ → Buf → ℕ → Option Buf
unfolding strlen strrev_loop
strrev fuel s p = do n ← strlen fuel s p; some (strrev_loop n s p 0 n)
