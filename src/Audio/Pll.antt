-- ===== src/Audio/Pll.antt =====
-- audio/audio_element_pll.c: the element that follows the bit clock of one audio interface with the PLL of
-- another. 64-bit numbers are kept as the numbers that they stand for, and wrap where the code computes; `none`
-- is a division by 0. The bit counters of the hardware are inputs.
pub mod Tracks
pub mod Drift
pub mod Range
pub mod Stalled
mod Tests
use rtos_apps.Base.{
  ℕ, zero, suc, ◌+◌, ◌-◌, ◌*◌, ◌/◌, ◌%◌, ◌^◌, Bool, true, false, Option, none, some, List, [], ◌∷◌,
  add32, sub32, ltb, ◌==◌, if◌then◌else◌,
}
use rtos_apps.Base.Int.{ℤ, pos, negsuc, pos_part, neg_part, sub_ℕ, ◌+ℤ◌, ◌-ℤ◌, ◌*ℤ◌, ltb_ℤ}
use rtos_apps.Audio.Response.{Response, resp_pll, respond}
use rtos_apps.Stats.{Stats, stats_init, stats_reset, stats_update, div_ℤ, to_int32, abs_ℕ}

-- Sum and difference of two `uint64_t`.
abbrev pub add64 : ℕ → ℕ → ℕ
add64 a b = (a + b) % 2 ^ 64

abbrev pub sub64 : ℕ → ℕ → ℕ
sub64 a b = (a + 2 ^ 64 - b % 2 ^ 64) % 2 ^ 64

-- The `int64_t` of a word, and the word of a signed value.
abbrev pub signed64 : ℕ → ℤ
signed64 w = if ltb w (2 ^ 63) then pos w else negsuc (2 ^ 64 - 1 - w)

abbrev pub word64 : ℤ → ℕ
word64 (pos n) = n % 2 ^ 64
word64 (negsuc n) = 2 ^ 64 - 1 - n % 2 ^ 64

unfoldable pub int64 : ℤ → ℤ
int64 a = signed64 (word64 a)

-- `a / b` of signed values, which rounds towards 0.
unfoldable pub quot_ℤ : ℤ → ℤ → Option ℤ
quot_ℤ a (pos zero) = none
quot_ℤ a (pos (suc n)) = some (div_ℤ a (suc n))
quot_ℤ a (negsuc n) = some (pos 0 -ℤ div_ℤ a (suc n))

pub data PllState : Type 0 where
  unlocked locking locked : PllState

-- `struct pll_element`, but for the mutex.
pub record Pll : Type 0 where
  pub src_sai : ℕ
  pub dst_sai : ℕ
  pub pll_id : ℕ
  pub period : ℕ
  pub count : ℕ
  pub state : PllState
  pub sample_count : ℕ
  pub enabled : Bool
  pub src_bcr : ℕ
  pub dst_bcr : ℕ
  pub bclk_offset : ℤ
  pub src_bclk : ℕ
  pub initial_src_bclk : ℕ
  pub prev_src_bclk : ℕ
  pub dst_bclk : ℕ
  pub initial_dst_bclk : ℕ
  pub ki : ℕ
  pub kp : ℕ
  pub integral : ℤ
  pub prev_err : ℤ
  pub prev_bclk_ppb : ℤ
  pub stats_bclk_err : Stats
  pub stats_bclk_ppb : Stats

unfoldable pub pll_element_reset : Pll → Pll
pll_element_reset p = record p {
  src_bclk = 0;
  dst_bclk = 0;
  count = p.period;
  state = unlocked;
  sample_count = 0;
  stats_bclk_err = stats_reset p.stats_bclk_err;
  stats_bclk_ppb = stats_reset p.stats_bclk_ppb;
}

pub data PllCmd : Type 0 where
  enable disable : PllCmd
  set_id : ℕ → PllCmd
  unknown : PllCmd

-- `pll_element_ctrl` up to the responses, on an element, none for NULL, that is a PLL or not. `none` goes to the label `err`.
unfoldable pub pll_command : Option Pll → Bool → PllCmd → Option Pll
unfolding pll_element_reset
pll_command none is_pll cmd = none
pll_command (some p) is_pll cmd =
    if is_pll
    then (elim cmd [
      | enable ↦ some (record (pll_element_reset p) { enabled = true })
      | disable ↦ some (record p { enabled = false })
      | set_id id ↦ some (pll_element_reset (record p { pll_id = id }))
      | unknown ↦ none
    ])
    else none

-- The result is none where that of the code is -1, with the responses.
unfoldable pub pll_element_ctrl : Option Pll → Bool → PllCmd → Bool → Option Pll × List Response
unfolding pll_command respond
pll_element_ctrl element is_pll cmd handle = elim (pll_command element is_pll cmd) [
  | none ↦ (none, respond handle (resp_pll false))
  | some p ↦ (some p, respond handle (resp_pll true))
]

-- The counts of bits go on by what the registers did, which wrap at 32 bits.
unfoldable pub track : Pll → ℕ → ℕ → Pll
track p src dst = record p {
  src_bclk = add64 p.src_bclk (sub32 src p.src_bcr);
  dst_bclk = add64 p.dst_bclk (sub32 dst p.dst_bcr);
}

unfoldable pub bclk_err : Pll → ℤ
bclk_err p = signed64 (sub64 (sub64 p.src_bclk p.dst_bclk) (word64 p.bclk_offset))

abbrev pub is_zero_ℤ : ℤ → Bool
is_zero_ℤ (pos zero) = true
is_zero_ℤ a = false

-- PLL_MAX_PPB and PLL_MIN_PPB
abbrev pub pll_max_ppb : ℤ
pll_max_ppb = pos 200000

abbrev pub pll_min_ppb : ℤ
pll_min_ppb = negsuc 199999

unfoldable pub clamp_ppb : ℤ → ℤ
clamp_ppb ppb =
    if ltb_ℤ pll_max_ppb ppb
    then pll_max_ppb
    else if ltb_ℤ ppb pll_min_ppb
    then pll_min_ppb
    else ppb

-- What follows the label `exit`.
abbrev pub end_sample : Pll → ℕ → ℕ → Pll
end_sample p src dst = record p {
  src_bcr = src;
  dst_bcr = dst;
  sample_count = add32 p.sample_count 1;
  count = 0;
}

-- From the limits of `bclk_ppb` on: the value handed to `pll_adjust`, if it is called, comes with the state.
unfoldable pub correct : Pll → ℤ → ℤ → ℤ → Pll × Option ℤ
unfolding clamp_ppb
correct p bclk_err err bclk_ppb =
    let ppb = clamp_ppb bclk_ppb in
    let same = is_zero_ℤ (ppb -ℤ p.prev_bclk_ppb) in
    (
      record p {
        prev_bclk_ppb = ppb;
        prev_err = err;
        stats_bclk_err = (stats_update p.stats_bclk_err (to_int32 bclk_err)).0;
        stats_bclk_ppb = (stats_update p.stats_bclk_ppb (to_int32 ppb)).0;
      },
      if same then none else some ppb,
    )

abbrev pub giga : ℤ
giga = pos 1000000000

-- The ratio of the frequencies since the start, in parts per billion beyond 1. The division is unsigned.
unfoldable pub initial_ppb : Pll → Option ℤ
initial_ppb p =
    let src = signed64 (sub64 p.src_bclk p.initial_src_bclk) in
    let dst = sub64 p.dst_bclk p.initial_dst_bclk in
    if dst == 0
    then none
    else some (signed64 (sub64 (word64 (int64 (giga *ℤ src)) / dst) 1000000000))

-- The PI regulator: the rate and the integral where the lock ends, and those of each sample after it.
abbrev pub first_ppb : Pll → ℤ → ℤ
first_ppb p ppb = int64 (ppb +ℤ p.prev_bclk_ppb)

abbrev pub first_integral : Pll → ℤ → ℤ
first_integral p ppb = int64 ((first_ppb p ppb +ℤ giga) *ℤ pos p.ki)

abbrev pub next_integral : Pll → ℤ → ℤ
next_integral p err = int64 (p.integral +ℤ div_ℤ (int64 (err +ℤ p.prev_err)) 2)

abbrev pub next_ppb : Pll → ℤ → ℤ
next_ppb p err = int64 (div_ℤ err p.kp +ℤ div_ℤ (next_integral p err) p.ki -ℤ giga)

-- The case of each state; `p` has the new counts, and `dt` is the time since the last error in bits.
unfoldable pub run_state : PllState → Pll → ℤ → ℤ → Option (Pll × Option ℤ)
unfolding correct initial_ppb
run_state unlocked p err_bits dt = some (
  record p {
    bclk_offset = signed64 (sub64 p.src_bclk p.dst_bclk);
    initial_src_bclk = p.src_bclk;
    initial_dst_bclk = p.dst_bclk;
    prev_src_bclk = p.src_bclk;
    state = locking;
  },
  none,
)
run_state locking p err_bits dt =
    let locks : Option (Pll × Option ℤ) = elim (initial_ppb p) [
      | none ↦ none
      | some ppb ↦ some (
          correct (record p { integral = first_integral p ppb; state = locked }) err_bits (pos 0)
            (first_ppb p ppb))
    ] in
    if ltb p.sample_count 10 then some (p, none) else locks
run_state locked p err_bits dt = elim (quot_ℤ (int64 (err_bits *ℤ giga)) dt) [
  | none ↦ none
  | some err ↦
      some (correct (record p { integral = next_integral p err }) err_bits err (next_ppb p err))
]

unfoldable pub finish : ℕ → ℕ → Option (Pll × Option ℤ) → Option (Pll × Option ℤ)
finish src dst none = none
finish src dst (some (q, adjust)) = some (end_sample q src dst, adjust)

-- `if (bclk_err)`, over whether it is 0.
unfoldable pub note_err : Bool → Pll → Pll
note_err true p = p
note_err false p = record p { prev_src_bclk = p.src_bclk }

-- A run that takes a sample of the two bit counters.
unfoldable pub sample : Pll → ℕ → ℕ → Option (Pll × Option ℤ)
unfolding track bclk_err run_state finish note_err
sample p src dst =
    let t = track p src dst in
    let err_bits = bclk_err t in
    let dt = signed64 (sub64 t.src_bclk t.prev_src_bclk) in
    let t' = note_err (is_zero_ℤ err_bits) t in finish src dst (run_state t'.state t' err_bits dt)

unfoldable pub pll_element_run : Pll → ℕ → ℕ → Option (Pll × Option ℤ)
unfolding sample
pll_element_run p src dst =
    let q = record p { count = add32 p.count 1 } in
    if p.enabled
    then if ltb q.count q.period then some (q, none) else sample q src dst
    else some (p, none)

-- `none` is a mutex that fails. The set-up hands 0 to `pll_adjust`, as the exit does.
unfoldable pub pll_element_init : Bool → ℕ → ℕ → ℕ → ℕ → ℕ → Pll → Option (Pll × ℤ)
unfolding pll_element_reset
pll_element_init mutex_ok sample_rate period src_sai dst_sai pll_id p =
    if mutex_ok
    then some (
      pll_element_reset (record p {
        enabled = true;
        period = 10 * sample_rate % 2 ^ 32 / period / 1000;
        prev_bclk_ppb = pos 0;
        kp = 4;
        ki = 64;
        src_sai = src_sai;
        dst_sai = dst_sai;
        pll_id = pll_id;
        stats_bclk_err = stats_init p.stats_bclk_err 31 0 false;
        stats_bclk_ppb = stats_init p.stats_bclk_ppb 31 1 false;
      }),
      pos 0,
    )
    else none
