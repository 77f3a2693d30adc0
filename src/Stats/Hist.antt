-- ===== src/Stats/Hist.antt =====
-- The histograms of stats/stats.c: `n_slots` slots of `slot_size` values each, and one more for all
-- greater values, in an array of 101. Printing is left out.
use rtos_apps.Base.{
  ℕ, zero, suc, ◌+◌, ◌-◌, ◌/◌, ◌%◌, ◌^◌, ◌≤◌, ◌<◌, ◌≡◌, ◌≢◌, ◌↔◌, ◌⊎◌, ◌∙◌, refl, arith, min,
  Option, none, some, List, length, get_elem?, set, length-set, get_elem?-set_self,
  get_elem?-set_ne, ltb, if◌then◌else◌, get_or, get_or-set_self, get_or-set_ne, get_elem?-eq-get_or,
  ℕ_discrete,
}

abbrev pub max_slots : ℕ
max_slots = 101

-- `struct rtos_apps_hist`
pub record Hist : Type 0 where
  pub slots : List ℕ
  pub n_slots : ℕ
  pub slot_size : ℕ

-- `n_slots + 1U` wraps at 32 bits; `none` is the result -1, which leaves the histogram.
unfoldable pub hist_init : Hist → ℕ → ℕ → Option Hist
hist_init h n_slots slot_size =
    if ltb max_slots ((n_slots + 1) % 2 ^ 32)
    then none
    else some (record h { n_slots = n_slots; slot_size = slot_size })

-- The slot that a value counts in.
abbrev pub slot_of : Hist → ℕ → ℕ
slot_of h value = if ltb h.n_slots (value / h.slot_size) then h.n_slots else value / h.slot_size

-- `none` is a division by 0, or an access behind the array.
unfoldable pub hist_update : Hist → ℕ → Option Hist
hist_update h value =
    if ltb 0 h.slot_size
    then (elim (get_elem? h.slots (slot_of h value)) [
      | none ↦ none
      | some n ↦ some (record h { slots = set h.slots (slot_of h value) ((n + 1) % 2 ^ 32) })
    ])
    else none

-- The rounds `i, …, i + n - 1` of the loop of `rtos_apps_hist_reset`.
pub hist_reset_loop : ℕ → ℕ → List ℕ → List ℕ
hist_reset_loop zero i slots = slots
hist_reset_loop (suc n) i slots = hist_reset_loop n (i + 1) (set slots i 0)

unfoldable pub hist_reset : Hist → Hist
unfolding hist_reset_loop
hist_reset h = record h { slots = hist_reset_loop (h.n_slots + 1) 0 h.slots }

pub record IsValid (h : Hist) : Type 0 where
  pub slots_len : length h.slots ≡ max_slots
  pub n_slots_lt : h.n_slots < max_slots
  pub slot_size_pos : 0 < h.slot_size

-- `rtos_apps_hist_init` accepts up to 100 slots, and also the one greater number that wraps to 0.
pub hist_init_lem :
    (h : Hist) (n slot_size : ℕ)
    → n < 2 ^ 32
    → (hist_init h n slot_size ≢ none) ↔ ((n ≤ 100) ⊎ (n ≡ 2 ^ 32 - 1))
unfolding hist_init
hist_init_lem h n slot_size lt = ground arith

-- A value adds one to the slot that it falls in, the last one if it is too great, and leaves the others; no
-- access is out of range and the invariant holds.
pub hist_update_lem :
    (h : Hist) (value : ℕ)
    → IsValid h
    → (h' : Hist) × (hist_update h value ≡ some h')
      × IsValid h'
      × (get_or h'.slots (min (value / h.slot_size) h.n_slots) 0
          ≡ (get_or h.slots (min (value / h.slot_size) h.n_slots) 0 + 1) % 2 ^ 32)
      × ((i : ℕ)
          → i ≢ min (value / h.slot_size) h.n_slots
          → get_or h'.slots i 0 ≡ get_or h.slots i 0)
unfolding hist_update
hist_update_lem h value v = (
  record h {
    slots = set h.slots (slot_of h value) ((get_or h.slots (slot_of h value) 0 + 1) % 2 ^ 32);
  },
  ground (arith, get_elem?-eq-get_or h.slots (slot_of h value) 0 inside),
  record {
    slots_len = omega (
      arith,
      v.slots_len,
      length-set h.slots (slot_of h value) ((get_or h.slots (slot_of h value) 0 + 1) % 2 ^ 32),
    );
    n_slots_lt = v.n_slots_lt;
    slot_size_pos = v.slot_size_pos;
  },
  rw (← slot) (get_or-set_self h.slots (slot_of h value) _ 0 inside),
  λ i ne. get_or-set_ne h.slots _ 0 λ e. ne (omega (arith, e, slot)),
)
  where
    slot : slot_of h value ≡ min (value / h.slot_size) h.n_slots
    slot = ground arith

    inside : slot_of h value < length h.slots
    inside = omega (arith, slot, v.slots_len, v.n_slots_lt)

reset_loop_before :
    (n i : ℕ) (xs : List ℕ) (j : ℕ) → j < i → get_elem? (hist_reset_loop n i xs) j ≡ get_elem? xs j
unfolding hist_reset_loop
reset_loop_before zero i xs j h = refl
reset_loop_before (suc n) i xs j h =
    reset_loop_before n (i + 1) (set xs i 0) j (omega arith) ∙ get_elem?-set_ne xs 0 (omega arith)

reset_loop_in :
    (n i : ℕ) (xs : List ℕ) (j : ℕ)
    → i ≤ j
    → j < i + n
    → j < length xs
    → get_elem? (hist_reset_loop n i xs) j ≡ some 0
unfolding hist_reset_loop
reset_loop_in zero i xs j lo hi len = absurd (omega arith)
reset_loop_in (suc n) i xs j lo hi len = elim (ℕ_discrete j i) [
  | yes e ↦
      reset_loop_before n (i + 1) (set xs i 0) j (omega arith)
      ∙ rw e (get_elem?-set_self xs i 0 (omega arith))
  | no ne ↦
      reset_loop_in n (i + 1) (set xs i 0) j (omega arith) (omega arith)
        (omega (arith, length-set xs i 0))
]

-- A reset empties each slot that updates count in.
pub hist_reset_lem :
    (h : Hist) (i : ℕ) → IsValid h → i ≤ h.n_slots → get_elem? (hist_reset h).slots i ≡ some 0
unfolding hist_reset
hist_reset_lem h i v le =
    reset_loop_in (h.n_slots + 1) 0 h.slots i (omega arith) (omega arith)
      (omega (arith, v.slots_len, v.n_slots_lt))
