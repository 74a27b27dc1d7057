-- ===== src/Files/Lines.antt =====
-- terminal_read of student-distrib/terminal.c on a line that has been typed.
use boz_os.Prelude.{
  ℕ, zero, suc, ◌+◌, ◌-◌, ◌^◌, ◌<◌, ◌≤◌, ◌≡◌, ◌≢◌, refl, ap, ◌∙◌, arith, true, false, some, ltb,
  leb, ◌==◌, ◌||◌, ◌&&◌, slt32, if◌then◌else◌, Buf, store,
}
use native.Mathlib.Decide.{ℕ_discrete}
use boz_os.State.{Kernel, done, update, update_own}
use boz_os.Files.{read_line, shift_line, terminal_read}

-- A line of `n` characters stands from `i` on, and ends in a line end.
pub record HasLine (source : Buf) (i n : ℕ) : Type 0 where
  pub inside : (j : ℕ) → i ≤ j → j < n → source j ≢ b'\n'
  pub ends : source n ≡ b'\n'

-- What the copying loop leaves: it stops at the line end.
record Copied (dest : Buf) (at : ℕ) (source : Buf) (i n : ℕ) (r : ℕ × Buf × Buf) : Type 0 where
  index : r.0 ≡ n
  put : (q : ℕ) → r.1 q ≡ (if leb (at + i) q && leb q (at + n) then source (q - at) else dest q)
  left : (q : ℕ) → r.2 q ≡ (if leb i q && ltb q n then 0 else source q)

read_line-Copied :
    (dest : Buf) (at : ℕ) (source : Buf) (rounds i n : ℕ)
    → HasLine source i n
    → i ≤ n
    → n < i + rounds
    → Copied dest at source i n (read_line dest at source rounds i)
unfolding read_line
read_line-Copied dest at source zero i n line l h = absurd (omega arith)
read_line-Copied dest at source (suc rounds) i n line l h = elim (ℕ_discrete i n) [
  | yes e ↦
      let hit : (source i == b'\n') ≡ true = ground (arith, line.ends, ap source e) in
      rw hit (record { index = e; put = λ q. ground (arith, e); left = λ q. ground (arith, e) })
  | no ne ↦
      let miss : (source i == b'\n') ≡ false =
        ground (arith, line.inside i (omega arith) (omega arith)) in
      let dest' = store dest (at + i) (source i) in
      let later : HasLine (store source i 0) (i + 1) n = record {
        inside = λ j m u. ground (arith, line.inside j (omega arith) u, m);
        ends = ground (arith, line.ends, ne);
      } in
      let ih =
        read_line-Copied dest' at (store source i 0) rounds (i + 1) n later (omega arith)
          (omega arith) in
      rw miss (record {
        index = ih.index;
        put = λ q. ground (arith, ih.put q, ne);
        left = λ q. ground (arith, ih.left q, ne);
      })
]

-- The shifting loop ends at the first 0 behind.
shift_line-ends :
    (fuel : ℕ) (source : Buf) (c i m : ℕ)
    → c < i
    → i ≤ m
    → m < i + fuel
    → m < 128
    → source m ≡ 0
    → (r : Buf) × (shift_line fuel source c i ≡ some r)
unfolding shift_line
shift_line-ends zero source c i m l h f small end = absurd (omega arith)
shift_line-ends (suc fuel) source c i m l h f small end = elim (ℕ_discrete (source i) 0) [
  | yes e ↦
      let inside : leb 128 i ≡ false = ground arith in
      let hit : (source i == 0) ≡ true = ground (arith, e) in (source, rw (inside, hit) refl)
  | no ne ↦
      let inside : leb 128 i ≡ false = ground arith in
      let miss : (source i == 0) ≡ false = ground (arith, ne) in
      let further : i ≢ m = λ e. ne (ap source e ∙ end) in
      let moved : Buf = store (store source c (source i)) i 0 in
      let still : moved m ≡ 0 = ground (arith, end, further) in
      let rest =
        shift_line-ends fuel moved (c + 1) (i + 1) m (omega arith) (omega (arith, further))
          (omega arith) small still in
      (rest.0, rw (inside, miss) rest.1)
]

in_line :
    (buf source : Buf) (at n j : ℕ) (dest : Buf)
    → j ≤ n
    → dest (at + j) ≡ (
        if leb (at + 0) (at + j) && leb (at + j) (at + n)
        then source (at + j - at)
        else buf (at + j))
    → dest (at + j) ≡ source j
in_line buf source at n j dest h e =
    let same : at + j - at ≡ j = omega arith in ground (arith, h, e, ap source same)

-- The line end that is stored in the last byte.
ended :
    (dest source : Buf) (at count n j : ℕ)
    → n < count
    → j ≤ n
    → source n ≡ b'\n'
    → dest (at + j) ≡ source j
    → store dest (at + count - 1) b'\n' (at + j) ≡ source j
ended dest source at count n j h l end same = elim (ℕ_discrete j n) [
  | yes e ↦ ground (arith, e, end, same, ap source e)
  | no ne ↦ ground (arith, ne, same)
]

-- terminal_read when a line has been entered, of `n` characters before its line end, with room for both
-- in the count and in int_buf, and a 0 behind it: the call ends and returns `n`, the caller's buffer
-- holds the line and its end, and the flag waits for the next line.
pub terminal_read-line :
    (k : Kernel) (buf : Buf) (at nbytes n m : ℕ)
    → at ≢ 0
    → nbytes < 2 ^ 31
    → k.terminal_read_release k.active_task ≡ 1
    → HasLine k.int_buf 0 n
    → n < nbytes
    → n < m
    → m < 128
    → k.int_buf m ≡ 0
    → (buf' : Buf) × (k' : Kernel) × (terminal_read k buf at nbytes ≡ some (done (n, buf', k')))
      × ((j : ℕ) → j ≤ n → buf' (at + j) ≡ k.int_buf j)
      × (k'.terminal_read_release k.active_task ≡ 0)
unfolding terminal_read
terminal_read-line k buf at nbytes n m not_null small entered line room behind inside end =
    let count = if slt32 nbytes 128 then nbytes else 128 in
    let enough : n < count = ground (arith, small, room, behind, inside) in
    let r = read_line buf at k.int_buf count 0 in
    let copied =
      read_line-Copied buf at k.int_buf count 0 n line (omega arith) (omega (arith, enough)) in
    let there : r.2 m ≡ 0 = copied.left m ∙ ground (arith, end, behind) in
    let shifted =
      shift_line-ends 129 r.2 0 (n + 1) m (omega arith) (omega (arith, behind))
        (omega (arith, inside)) inside there in
    let good : ((at == 0) || slt32 nbytes 0) ≡ false = ground (arith, not_null, small) in
    let released : (k.terminal_read_release k.active_task == 1) ≡ true = ground (arith, entered) in
    (
      store r.1 (at + count - 1) b'\n',
      record k {
        int_buf = shifted.0;
        terminal_read_release = update k.terminal_read_release k.active_task 0;
      },
      rw (good, released, copied.index, shifted.1) refl,
      λ j h.
          ended r.1 k.int_buf at count n j enough h line.ends
            (in_line buf k.int_buf at n j r.1 h (copied.put (at + j))),
      update_own k.terminal_read_release k.active_task 0,
    )
