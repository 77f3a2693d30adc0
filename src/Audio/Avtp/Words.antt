-- ===== src/Audio/Avtp/Words.antt =====
-- audio/audio_format.h: the conversions of words of the format 61883-6.
use rtos_apps.Base.{
  ℕ, ◌+◌, ◌-◌, ◌*◌, ◌/◌, ◌%◌, ◌^◌, ◌<◌, ◌≡◌, arith, bit_and, bit_and_mask, if◌then◌else◌, Bool,
  true, false,
}
use rtos_apps.Audio.Avtp.Defs.{Conversion, word_from, word_to, rev}

-- The conversion of the format 61883-6.
abbrev pub am824 : Conversion
am824 = record { invert = true; shift = 8; mask = 0x00ffffff }

mask24 : (a : ℕ) → bit_and a 0x00ffffff ≡ a % 2 ^ 24
mask24 a = bit_and_mask 24 a

-- The three bytes of a value, shifted up and down again; the sign's copies are masked away.
shift_back :
    (u : ℕ) (b : Bool)
    → u < 2 ^ 24
    → (u * 256 % 2 ^ 32 / 256 + (if b then 0 else 4278190080)) % 2 ^ 24 ≡ u
shift_back u true h = omega arith
shift_back u false h = omega arith

rev_value : (w : ℕ) → w < 2 ^ 32 → rev (rev w % 2 ^ 24) ≡ w - w % 256
unfolding rev
rev_value w h = omega arith

-- A word of the format 61883-6 that is converted to a value, and the value back, is the word with its label, the
-- byte at the lowest address, set to 0.
pub word_to-from : (w : ℕ) → w < 2 ^ 32 → word_to am824 (word_from am824 w) ≡ w - w % 256
unfolding word_from word_to
word_to-from w h = rw (mask24, mask24, shift_back (rev w % 2 ^ 24) _ (omega arith)) (rev_value w h)
