-- ===== src/Async.antt =====
-- async/async.c: calls that another task makes later. The message queue and the functions called are
-- outside: a round is given the messages that the queue delivers, each with the time at which its call
-- returns, which is the true time; the code reads it as 32 bits.
mod Tests
use rtos_apps.Base.{
  ℕ, zero, suc, ◌+◌, ◌-◌, ◌%◌, ◌^◌, ◌≤◌, ◌<◌, ◌≡◌, ◌∙◌, refl, ap, arith, Bool, true, false, List,
  [], ◌∷◌, ltb, lt→ltb, ltb→lt, if◌then◌else◌, sub32, Bool-cases, ◌++◌, inl, inr,
}

-- `struct async_msg`; `arg` is its `data`.
pub record AsyncMsg : Type 0 where
  pub func : ℕ
  pub arg : ℕ

-- A delivered message and the time at which its call returned.
pub record Delivery : Type 0 where
  pub msg : AsyncMsg
  pub done_at : ℕ

-- The loop of `async_call_process`: the calls made, in order. The list ends where the queue times out.
unfoldable pub async_call_loop : ℕ → ℕ → List Delivery → List AsyncMsg
async_call_loop timeout last [] = []
async_call_loop timeout last (d ∷ ds) =
    let now = d.done_at % 2 ^ 32 in
    let elapsed = sub32 now last in
    let rest = async_call_loop (sub32 timeout elapsed) now ds in
    d.msg ∷ (if ltb elapsed timeout then rest else [])

unfoldable pub async_call_process : ℕ → ℕ → List Delivery → List AsyncMsg
unfolding async_call_loop
async_call_process wait start ds = async_call_loop wait (start % 2 ^ 32) ds

-- The round of `async_task`: the calls, then the periodic function if there is one, `periodic` being its message.
unfoldable pub async_round : List AsyncMsg → ℕ → ℕ → List Delivery → List AsyncMsg
unfolding async_call_process
async_round periodic wait start ds = async_call_process wait start ds ++ periodic

-- The messages up to the first whose call returns at `limit` or later.
abbrev pub until : ℕ → List Delivery → List AsyncMsg
until limit [] = []
until limit (d ∷ ds) = d.msg ∷ (if ltb d.done_at limit then until limit ds else [])

-- The times of return do not go back, from the given time on, and no call takes 2 ^ 32 ticks.
abbrev pub IsSteady : ℕ → List Delivery → Type 0
IsSteady t [] = Unit
IsSteady t (d ∷ ds) = (t ≤ d.done_at) × (d.done_at < t + 2 ^ 32) × IsSteady d.done_at ds

ltb-false→le : (a b : ℕ) → ltb a b ≡ false → b ≤ a
ltb-false→le a b h = ground arith

le→ltb-false : (a b : ℕ) → b ≤ a → ltb a b ≡ false
le→ltb-false a b h = ground arith

loop_lem :
    (timeout last limit : ℕ) (ds : List Delivery)
    → last + timeout ≡ limit
    → timeout < 2 ^ 32
    → IsSteady last ds
    → async_call_loop timeout (last % 2 ^ 32) ds ≡ until limit ds
unfolding async_call_loop
loop_lem timeout last limit [] e small steady = refl
loop_lem timeout last limit (d ∷ ds) e small (ge, gap, steady) =
    let elapsed : sub32 (d.done_at % 2 ^ 32) (last % 2 ^ 32) ≡ d.done_at - last = omega arith in
    elim (Bool-cases (ltb d.done_at limit)) [
      | inl early ↦
          let before : d.done_at < limit = ltb→lt d.done_at limit early in
          rw (early, elapsed, lt→ltb (d.done_at - last) timeout (omega arith))
            (ap (◌∷◌ d.msg) (
              ap (λ t. async_call_loop t (d.done_at % 2 ^ 32) ds) (omega (arith, ge, e, before))
              ∙ loop_lem (limit - d.done_at) d.done_at limit ds (omega arith) (omega arith) steady))
      | inr late ↦
          let over : limit ≤ d.done_at = ltb-false→le d.done_at limit late in
          rw (late, elapsed, le→ltb-false (d.done_at - last) timeout (omega arith)) refl
    ]

-- A round makes the calls in order up to the first that returns when the waiting time is over, also where the
-- clock of 32 bits wraps.
pub async_call_process_lem :
    (wait start : ℕ) (ds : List Delivery)
    → wait < 2 ^ 32
    → IsSteady start ds
    → async_call_process wait start ds ≡ until (start + wait) ds
unfolding async_call_process
async_call_process_lem wait start ds small steady =
    loop_lem wait start (start + wait) ds refl small steady
