-- ===== src/Tsn/UserButton/Presses.antt =====
-- The interrupt and the task of tsn/user_button.c, in any order.
use rtos_apps.Base.{ℕ, ◌≡◌, ◌⊎◌, inl, inr, ◌<◌, arith, Bool, true, some}
use rtos_apps.Tsn.UserButton.{UserButton, button_irq, user_button_round}

module _ {ℓ} {H Q : Type ℓ} (active : H → Bool) (clear : H → H) (send : ℕ → Q → Q) where
  -- The interrupt and the rounds of the task, in any order.
  pub data Steps : UserButton H Q → UserButton H Q → Type ℓ where
    done : (b : UserButton H Q) → Steps b b
    irq :
        {c : UserButton H Q} (b : UserButton H Q)
        → Steps (button_irq active clear send b) c
        → Steps b c
    round :
        {b b' c : UserButton H Q}
        → user_button_round active clear send b ≡ some b'
        → Steps b' c
        → Steps b c

  -- The interrupt is enabled, or the task has a round to do, which enables it.
  abbrev pub IsArmed : UserButton H Q → Type 0
  IsArmed b = (b.irq_enabled ≡ true) ⊎ (0 < b.sem)

  round_enables :
      (b b' : UserButton H Q)
      → user_button_round active clear send b ≡ some b'
      → b'.irq_enabled ≡ true
  unfolding user_button_round
  round_enables b b' e = ground arith

  -- The button is never left with the interrupt disabled and nothing for the task to do.
  pub Steps-IsArmed : {b c : UserButton H Q} → Steps b c → IsArmed b → IsArmed c
  unfolding button_irq
  Steps-IsArmed (done b) a = a
  Steps-IsArmed (irq b ss) a = Steps-IsArmed ss (inr (omega arith))
  Steps-IsArmed (round {b} {b'} e ss) a = Steps-IsArmed ss (inl (round_enables b b' e))
