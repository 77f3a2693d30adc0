-- ===== src/Tsn/UserButton/Queues.antt =====
-- The table of queues of tsn/user_button.c.
use rtos_apps.Base.{
  ℕ, ◌≡◌, ◌≢◌, ◌↔◌, inl, inr, ◌∙◌, refl, sym, ap, arith, true, false, Option, none, some, List, [],
  ◌∷◌, ==_ne, ==_refl, All, Option-cases,
}
use mathlib.Core.Option.{some-injective}
use rtos_apps.Tsn.UserButton.{
  Entries, unregister_queue, register_queue, button_event, Held, InitResults, user_button_init,
}

-- The queues in use, in order.
abbrev pub used : Entries → List ℕ
used [] = []
used (none ∷ es) = used es
used (some h ∷ es) = h ∷ used es

abbrev pub send_all {ℓ} : {Q : Type ℓ} → (ℕ → Q → Q) → List ℕ → Q → Q
send_all send [] q = q
send_all send (h ∷ hs) q = send_all send hs (send h q)

-- A queue that was not registered and is registered can be taken out again, which gives the entries back.
pub unregister-register :
    (q : ℕ) (es : Entries) {es' : Entries}
    → All (λ e. e ≢ some q) es
    → register_queue q es ≡ some es'
    → unregister_queue q es' ≡ es
unfolding register_queue unregister_queue
unregister-register q [] a e = cc
unregister-register q (none ∷ es) {es'} a e =
    ap (unregister_queue q) (sym (some-injective _ _ e)) ∙ rw (unregister_queue, ==_refl q) refl
unregister-register q (some h ∷ es) {es'} (ne, a) e = elim (Option-cases (register_queue q es)) [
  | inl full ↦ ground (arith, full)
  | inr (rest, added) ↦
      ap (unregister_queue q) {y = some h ∷ rest} (ground (arith, added, sym e))
      ∙ rw (unregister_queue, ==_ne h q λ same. ne (ap {B = Option ℕ} some same))
          (ap (◌∷◌ (some h)) (unregister-register q es a added))
]

-- Registering fails exactly when all entries are used.
pub register_none : (q : ℕ) (es : Entries) → (register_queue q es ≡ none) ↔ All (λ e. e ≢ none) es
unfolding register_queue
register_none q [] = (λ h. tt, λ h. refl)
register_none q (none ∷ es) = (λ h. cc, λ h. absurd (h.0 refl))
register_none q (some h ∷ es) = (
  λ e. (λ e'. cc, (register_none q es).0 (ground arith)),
  λ a. ground (arith, (register_none q es).1 a.1),
)

-- A press is sent to the queues in use, each once and in order.
pub button_event_lem {ℓ} :
    {Q : Type ℓ} (send : ℕ → Q → Q) (es : Entries) (q : Q)
    → button_event send es q ≡ send_all send (used es) q
unfolding button_event
button_event_lem send [] q = refl
button_event_lem send (none ∷ es) q = button_event_lem send es q
button_event_lem send (some h ∷ es) q = button_event_lem send es (send h q)

-- The set-up succeeds exactly when all its calls do, and holds all it took; when it fails it holds nothing.
pub user_button_init_lem :
    (r : InitResults)
    → let nothing : Held = record { memory = false; sem = false; thread = false } in
      let (ok, held) = user_button_init r nothing in
      ((ok ≡ true)
        ↔ ((r.malloc_ok ≡ true) × (r.mutex_ok ≡ true) × (r.sem_ok ≡ true) × (r.thread_ok ≡ true)))
      × (held ≡ record { memory = ok; sem = ok; thread = ok })
unfolding user_button_init
user_button_init_lem r = ((λ h. ground arith, λ h. ground arith), ground arith)
