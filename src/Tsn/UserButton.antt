-- ===== src/Tsn/UserButton.antt =====
-- tsn/user_button.c: the button's interrupt, its task and the queues that are told of a press. The
-- hardware and the message queues are parameters; a queue is its address.
pub mod Queues
pub mod Presses
mod Tests
use rtos_apps.Base.{
  ℕ, zero, suc, ◌+◌, ◌-◌, Bool, true, false, ◌&&◌, Option, none, some, List, [], ◌∷◌, ◌==◌,
  if◌then◌else◌,
}

abbrev pub max_event_queues : ℕ
max_event_queues = 2

-- The entries of `queue`: one that is not used has the handle NULL, and is `none`.
abbrev pub Entries : Type 0
Entries = List (Option ℕ)

unfoldable pub unregister_queue : ℕ → Entries → Entries
unregister_queue q [] = []
unregister_queue q (none ∷ es) = none ∷ unregister_queue q es
unregister_queue q (some h ∷ es) =
    let rest = unregister_queue q es in if h == q then none ∷ es else some h ∷ rest

-- `none` is the result -1.
unfoldable pub register_queue : ℕ → Entries → Option Entries
register_queue q [] = none
register_queue q (none ∷ es) = some (some q ∷ es)
register_queue q (some h ∷ es) = elim (register_queue q es) [
  | none ↦ none
  | some es' ↦ some (some h ∷ es')
]

-- The sends of `rtos_apps_user_button_event`, over `rtos_mqueue_send`.
unfoldable pub button_event {ℓ} : {Q : Type ℓ} → (ℕ → Q → Q) → Entries → Q → Q
button_event send [] q = q
button_event send (none ∷ es) q = button_event send es q
button_event send (some h ∷ es) q = button_event send es (send h q)

-- The button with the count of its semaphore, whether the interrupt is enabled, the hardware and the queues.
pub record UserButton {ℓ} (H Q : Type ℓ) : Type ℓ where
  pub entries : Entries
  pub sem : ℕ
  pub irq_enabled : Bool
  pub hardware : H
  pub queues : Q

module _ {ℓ} {H Q : Type ℓ} (active : H → Bool) (clear : H → H) (send : ℕ → Q → Q) where
  -- `rtos_apps_user_button_irq`
  unfoldable pub button_irq : UserButton H Q → UserButton H Q
  button_irq b = record b { irq_enabled = false; sem = b.sem + 1 }

  -- A round of `user_button_task`; without a semaphore the task waits, `none`.
  unfoldable pub user_button_round : UserButton H Q → Option (UserButton H Q)
  unfolding button_event
  user_button_round b = elim b.sem [
    | zero ↦ none
    | suc n ↦
        if active b.hardware
        then some (record b {
          sem = n;
          irq_enabled = true;
          queues = button_event send b.entries b.queues;
          hardware = clear b.hardware;
        })
        else some (record b { sem = n; irq_enabled = true })
  ]

-- What `rtos_apps_user_button_init` holds: its allocation, the semaphore and the thread.
pub record Held : Type 0 where
  pub memory : Bool
  pub sem : Bool
  pub thread : Bool

-- Which of the calls succeed.
pub record InitResults : Type 0 where
  pub malloc_ok : Bool
  pub mutex_ok : Bool
  pub sem_ok : Bool
  pub thread_ok : Bool

-- The result is whether a button is returned, and what is held after the clean-up.
unfoldable pub user_button_init : InitResults → Held → Bool × Held
user_button_init r h =
    let allocated = record h { memory = true } in
    let with_sem = record allocated { sem = true } in
    let err_mutex = λ (x : Held). record x { memory = false } in
    let err_thread = λ (x : Held). err_mutex (record x { sem = false }) in
    if r.malloc_ok
    then (if r.mutex_ok
        then (if r.sem_ok
            then (if r.thread_ok
                then (true, record with_sem { thread = true })
                else (false, err_thread with_sem))
            else (false, err_mutex allocated))
        else (false, err_mutex allocated))
    else (false, h)

unfoldable pub user_button_exit : Held → Held
user_button_exit h = record { memory = false; sem = false; thread = false }
