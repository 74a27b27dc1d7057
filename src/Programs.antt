-- ===== src/Programs.antt =====
-- The user programs of syscalls/ and fish/, and the system calls that they make. A call is a function on a
-- state of any type, so that the programs run on any implementation of the calls; `none` is a fault or
-- a call that gives no answer. vidmap has the address of a pointer, and the
-- value stored there is left out; call_sys is a call by its number, in syscalls/ece391syserr.c. Any other pointer is an object and a position, 0 for NULL. An array of a
-- program's own stands at 4 of its object.
pub mod Cat
pub mod Small
pub mod Copying
pub mod OnKernel
pub mod Reading
pub mod Showing
pub mod Grep
pub mod Search
pub mod Shell
pub mod Pingpong
pub mod Pictures
pub mod Syserr
pub mod Probing
pub mod Passing
use boz_os.Prelude.{ℕ, ◌-◌, Option, some, ltb, if◌then◌else◌, ◌>>=◌, Buf, String, literal}
use boz_os.Clib.Support.{ece391_strlen}

pub record Calls (S : Type 0) : Type 0 where
  pub ece391_execute : Buf → ℕ → S → Option (ℕ × S)
  pub ece391_read : ℕ → Buf → ℕ → ℕ → S → Option (ℕ × Buf × S)
  pub ece391_write : ℕ → Buf → ℕ → ℕ → S → Option (ℕ × S)
  pub ece391_open : Buf → ℕ → S → Option (ℕ × S)
  pub ece391_close : ℕ → S → Option (ℕ × S)
  pub ece391_getargs : Buf → ℕ → ℕ → S → Option (ℕ × Buf × S)
  pub ece391_vidmap : ℕ → S → Option (ℕ × S)
  pub call_sys : ℕ → S → Option (ℕ × S)

-- Where an array or a literal stands in its object.
abbrev pub local_at : ℕ
local_at = 4

-- A string literal of a program.
unfoldable pub placed : String → Buf
placed s q = if ltb q local_at then 0 else literal s (q - local_at)

module _ {S : Type 0} (c : Calls S) where
  -- `fuel` exceeds the length of the string.
  unfoldable pub ece391_fdputs : ℕ → ℕ → Buf → ℕ → S → Option S
  ece391_fdputs fuel fd s at st = do
    n ← ece391_strlen fuel s at
    (_, st') ← c.ece391_write fd s at n st
    some st'

  -- `ece391_fdputs (1, s)` of a literal, of less than 64 bytes.
  unfoldable pub message : String → S → Option S
  unfolding ece391_fdputs placed
  message s st = ece391_fdputs 64 1 (placed s) local_at st
