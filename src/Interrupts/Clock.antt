-- ===== src/Interrupts/Clock.antt =====
-- The clock of student-distrib/RTC_handler.c: rates and waiting.
use boz_os.Prelude.{
  ℕ, ◌-◌, ◌^◌, ◌<◌, ◌≤◌, ◌≡◌, refl, arith, leb, ◌==◌, if◌then◌else◌, ◌↔◌, all_below,
  all_below_sound, Option, some, none, Bool, true, false,
}
use boz_os.State.{Kernel, update, outb, blocked, done}
use boz_os.Interrupts.{rate_of, rtc_read, rtc_handler, send_eoi}

abbrev is_some : ℕ → Option ℕ → Bool
is_some rate none = false
is_some rate (some r) = r == rate

rate_table :
    all_below 16 (λ rate. if leb 7 rate then is_some rate (rate_of (2 ^ (16 - rate))) else true)
    ≡ true
unfolding rate_of
rate_table = refl

rate_found : (rate : ℕ) → 7 ≤ rate → rate ≤ 15 → rate_of (2 ^ (16 - rate)) ≡ some rate
rate_found rate h h' = ground (
  arith,
  all_below_sound 16 (λ rate. if leb 7 rate then is_some rate (rate_of (2 ^ (16 - rate))) else true)
      rate rate_table,
)

-- rtc_write finds a rate for exactly the frequencies 2, 4, ..., 512: those that the clock gives at
-- the rates 15 to 7, 32768 >> (rate - 1) interrupts a second.
pub rate_of-frequency :
    (input rate : ℕ)
    → (rate_of input ≡ some rate) ↔ ((7 ≤ rate) × (rate ≤ 15) × (input ≡ 2 ^ (16 - rate)))
unfolding rate_of
rate_of-frequency input rate =
    (λ e. (ground arith, ground arith, ground arith), λ h. rw h.2 (rate_found rate h.0 h.1))

-- Every clock interrupt releases one rtc_read of each of the three terminals: a task that was blocked
-- runs on, and is blocked again until the next interrupt.
pub rtc_read-handler :
    (k : Kernel)
    → k.active_task < 3
    → (k' : Kernel) × (rtc_read (rtc_handler k) ≡ done (0, k')) × (rtc_read k' ≡ blocked)
unfolding rtc_read rtc_handler send_eoi outb
rtc_read-handler k h = (
  record (rtc_handler k) { interrupt_flag = update (rtc_handler k).interrupt_flag k.active_task 0 },
  ground arith,
  ground arith,
)
