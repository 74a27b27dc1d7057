-- ===== src/Keyboard/Table.antt =====
-- scanCodeTable and get_scan_code of student-distrib/keyboard.c: which character a key gives.
use boz_os.Prelude.{
  ℕ, ◌+◌, ◌<◌, ◌≤◌, ◌≡◌, refl, arith, Bool, true, ◌&&◌, leb, ◌==◌, if◌then◌else◌, all_below,
  all_below_sound, some,
}
use boz_os.State.{Kernel}
use boz_os.Keyboard.{get_scan_code, key_pressed, position_of, base_kb_size, shift_flag, caps_flag}
use boz_os.Keyboard.Keys.{scan_code_table}

-- A small letter.
abbrev is_letter : ℕ → Bool
is_letter c = leb b'a' c && leb c b'z'

abbrev char_of : ℕ → ℕ → ℕ
char_of status scan_code = scan_code_table (position_of status scan_code)

-- Every key is looked up in the four tables.
letters_agree :
    all_below base_kb_size (λ s.
      if is_letter (char_of 0 s)
      then (char_of shift_flag s + 32 == char_of 0 s)
        && (char_of caps_flag s == char_of shift_flag s)
        && (char_of (shift_flag + caps_flag) s == char_of 0 s)
      else true)
    ≡ true
unfolding scan_code_table position_of
letters_agree = refl

-- With shift, and with caps lock, a key that types a small letter alone types its capital; with both it
-- types the small letter.
pub position_of-letters :
    (s : ℕ)
    → s < base_kb_size
    → b'a' ≤ scan_code_table (position_of 0 s)
    → scan_code_table (position_of 0 s) ≤ b'z'
    → (scan_code_table (position_of shift_flag s) + 32 ≡ scan_code_table (position_of 0 s))
      × (scan_code_table (position_of caps_flag s) ≡ scan_code_table (position_of shift_flag s))
      × (scan_code_table (position_of (shift_flag + caps_flag) s)
          ≡ scan_code_table (position_of 0 s))
position_of-letters s l a z =
    let h =
      all_below_sound base_kb_size
        (λ s.
          if is_letter (char_of 0 s)
          then (char_of shift_flag s + 32 == char_of 0 s)
            && (char_of caps_flag s == char_of shift_flag s)
            && (char_of (shift_flag + caps_flag) s == char_of 0 s)
          else true)
        s letters_agree l in
    (ground (arith, h), ground (arith, h), ground (arith, h))

position_of-lt : (status s : ℕ) → position_of status s < 360
unfolding position_of
position_of-lt status s = ground arith

-- get_scan_code never answers an index outside the 360 characters of the table.
pub get_scan_code-lt : (k k' : Kernel) (s c : ℕ) → get_scan_code k s ≡ some (c, k') → c < 360
unfolding get_scan_code key_pressed
get_scan_code-lt k k' s c e = ground (arith, position_of-lt k.key_status s, e)
