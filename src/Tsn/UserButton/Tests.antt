-- ===== src/Tsn/UserButton/Tests.antt =====
-- A button with two entries, one of them free.
use rtos_apps.Base.{
  ℕ, ◌≡◌, ◌≢◌, ◌↔◌, inr, refl, arith, Bool, true, false, none, some, List, [], ◌∷◌, All,
}
use mathlib.Core.Option.{some-injective}
use rtos_apps.Tsn.UserButton.{
  UserButton, Entries, Held, InitResults, unregister_queue, register_queue, button_event,
  user_button_init, user_button_round, button_irq,
}
use rtos_apps.Tsn.UserButton.Queues.{
  unregister-register, register_none, button_event_lem, user_button_init_lem, used, send_all,
}
use rtos_apps.Tsn.UserButton.Presses.{done, round, IsArmed, Steps-IsArmed}

abbrev entries : Entries
entries = some 7 ∷ none ∷ []

added : register_queue 8 entries ≡ some (some 7 ∷ some 8 ∷ [])
unfolding register_queue
added = refl

absent : All (λ e. e ≢ some 8) entries
absent = (λ e. omega (arith, some-injective 7 8 e), ((λ e. cc), tt))

unregister-register_run : unregister_queue 8 (some 7 ∷ some 8 ∷ []) ≡ entries
unregister-register_run = unregister-register 8 entries absent added

register_none_run : (register_queue 8 entries ≡ none) ↔ All (λ e. e ≢ none) entries
register_none_run = register_none 8 entries

-- A queue counts what it is sent, under its own address.
abbrev count : ℕ → List ℕ → List ℕ
count h q = h ∷ q

button_event_lem_run : button_event count entries [] ≡ send_all count (used entries) []
button_event_lem_run = button_event_lem count entries []

abbrev no_thread : InitResults
no_thread = record { malloc_ok = true; mutex_ok = true; sem_ok = true; thread_ok = false }

user_button_init_lem_run :
    let nothing : Held = record { memory = false; sem = false; thread = false } in
    let (ok, held) = user_button_init no_thread nothing in
    ((ok ≡ true) ↔ ((true ≡ true) × (true ≡ true) × (true ≡ true) × (false ≡ true)))
    × (held ≡ record { memory = ok; sem = ok; thread = ok })
user_button_init_lem_run = user_button_init_lem no_thread

abbrev clear : Bool → Bool
clear h = false

abbrev active : Bool → Bool
active h = h

abbrev button : UserButton Bool (List ℕ)
button = record { entries = entries; sem = 0; irq_enabled = true; hardware = true; queues = [] }

abbrev interrupted : UserButton Bool (List ℕ)
interrupted = record button { irq_enabled = false; sem = 1 }

abbrev told : UserButton Bool (List ℕ)
told = record button { hardware = false; queues = 7 ∷ [] }

a_round : user_button_round active clear count interrupted ≡ some told
unfolding user_button_round button_event
a_round = refl

abbrev pressed : UserButton Bool (List ℕ)
pressed = button_irq active clear count button

interrupt : pressed ≡ interrupted
unfolding button_irq
interrupt = refl

Steps-IsArmed_example : IsArmed active clear count told
Steps-IsArmed_example =
    Steps-IsArmed active clear count (round {b = interrupted} a_round (done told))
      (inr (omega arith))
