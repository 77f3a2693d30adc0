-- ===== src/Audio/Routing/Control.antt =====
-- The connections of audio/audio_element_routing.c, and the commands that change them.
use rtos_apps.Base.{
  ℕ, zero, suc, ◌+◌, ◌≡◌, ◌≢◌, ◌↔◌, ◌<◌, ◌≤◌, refl, ap, subst, arith, Bool, true, false, ◌&&◌,
  Option, none, some, List, [], ◌∷◌, ◌++◌, map, length, length-take, ltb, if◌then◌else◌, All,
  All_mono, Memory,
}
use mathlib.Core.Option.{some-injective}
use rtos_apps.Audio.Pipeline.Config.{ElementConfig, inputs_of, outputs_of}
use rtos_apps.Audio.Pipeline.Table.{Element}
use rtos_apps.Audio.Routing.{
  RoutingElement, RoutingOutput, Command, connect, disconnect, unknown, set_input, routing_command,
  routing_element_init, Buffers,
}

-- The inputs and the local silence behind them are there, and each output reads one of them.
abbrev pub IsValid : RoutingElement → Type 0
IsValid r = (length r.ins ≡ r.inputs + 1) × All (λ o. o.input ≤ r.inputs) r.out

set_input-All :
    (n : ℕ) (os : List RoutingOutput) (i input : ℕ)
    → input ≤ n
    → All (λ o. o.input ≤ n) os
    → All (λ o. o.input ≤ n) (set_input os i input)
set_input-All n [] i input le a = a
set_input-All n (o ∷ os) zero input le (h, a) = (le, a)
set_input-All n (o ∷ os) (suc i) input le (h, a) = (h, set_input-All n os i input le a)

accepted :
    (b : Bool) (x : RoutingElement) {y : RoutingElement}
    → (b ≡ true → IsValid x)
    → (if b then some x else none) ≡ some y
    → IsValid y
accepted true x v e = subst IsValid (some-injective _ _ e) (v refl)
accepted false x v e = cc

-- A command keeps the element valid.
pub ctrl-IsValid :
    (r : RoutingElement) (is_routing len_ok : Bool) (cmd : Command) {r' : RoutingElement}
    → IsValid r
    → routing_command (some r) is_routing cmd len_ok ≡ some r'
    → IsValid r'
unfolding routing_command
ctrl-IsValid r true len_ok (connect output input) {r'} v e =
    accepted (len_ok && ltb output (length r.out) && ltb input r.inputs) _
      (λ ok. (v.0, set_input-All r.inputs r.out output input (ground arith) v.1)) e
ctrl-IsValid r true len_ok (disconnect output) {r'} v e =
    accepted (len_ok && ltb output (length r.out)) _
      (λ ok. (v.0, set_input-All r.inputs r.out output r.inputs (omega arith) v.1)) e
ctrl-IsValid r true len_ok unknown v e = cc
ctrl-IsValid r false len_ok cmd v e = cc

-- What an output reads after the connection.
abbrev pub input_at : List RoutingOutput → ℕ → Option ℕ
input_at [] j = none
input_at (o ∷ os) zero = some o.input
input_at (o ∷ os) (suc j) = input_at os j

set_input_self :
    (os : List RoutingOutput) (i input : ℕ)
    → i < length os
    → input_at (set_input os i input) i ≡ some input
set_input_self [] i input h = absurd (omega arith)
set_input_self (o ∷ os) zero input h = refl
set_input_self (o ∷ os) (suc i) input h = set_input_self os i input (omega arith)

set_input_ne :
    (os : List RoutingOutput) (i input j : ℕ)
    → j ≢ i
    → input_at (set_input os i input) j ≡ input_at os j
set_input_ne [] i input j ne = refl
set_input_ne (o ∷ os) zero input zero ne = absurd (ne refl)
set_input_ne (o ∷ os) zero input (suc j) ne = refl
set_input_ne (o ∷ os) (suc i) input zero ne = refl
set_input_ne (o ∷ os) (suc i) input (suc j) ne = set_input_ne os i input j λ e. ne (ap suc e)

-- A connection is accepted exactly with the right length, an output and an input of the element; then the
-- output reads that input, and the other outputs read what they read before.
pub ctrl_connect :
    (r : RoutingElement) (len_ok : Bool) (output input : ℕ)
    → ((routing_command (some r) true (connect output input) len_ok ≢ none)
        ↔ ((len_ok ≡ true) × (output < length r.out) × (input < r.inputs)))
      × ((r' : RoutingElement)
          → routing_command (some r) true (connect output input) len_ok ≡ some r'
          → (input_at r'.out output ≡ some input)
            × ((j : ℕ) → j ≢ output → input_at r'.out j ≡ input_at r.out j))
unfolding routing_command
ctrl_connect r len_ok output input = (
  (λ h. ground arith, λ h. ground arith),
  λ r' e. (
    ground (arith, set_input_self r.out output input),
    λ j ne. ground (arith, set_input_ne r.out output input j),
  ),
)

connected :
    (n : ℕ) (buffer : ℕ → ℕ) (ks : List ℕ)
    → All
        (λ o. o.input ≡ n)
        (map {B = RoutingOutput} (λ k. record { input = n; buf = buffer k }) ks)
connected n buffer [] = tt
connected n buffer (k ∷ ks) = (refl, connected n buffer ks)

length-ins : (f : ℕ → ℕ) (xs : List ℕ) (x : ℕ) → length (map f xs ++ (x ∷ [])) ≡ length xs + 1
length-ins f [] x = refl
length-ins f (y ∷ xs) x = omega (arith, length-ins f xs x)

-- A new element is valid, and each of its outputs reads the local silence.
pub init-IsValid {ℓ} :
    {A : Type ℓ} (silent : A) (e : Element) (c : ElementConfig) (buffer : ℕ → ℕ)
    (silence storage : ℕ) (s : Buffers × Memory A)
    → c.inputs ≤ length c.input
    → (r : RoutingElement) × (s' : Buffers × Memory A) × (routing_element_init silent true e c
          buffer silence storage s
        ≡ some (r, s'.0, s'.1))
      × IsValid r
      × All (λ o. o.input ≡ r.inputs) r.out
unfolding routing_element_init
init-IsValid silent e c buffer silence storage s h =
    let reads = connected c.inputs buffer (outputs_of c) in
    let len : length (inputs_of c) ≡ c.inputs = omega (arith, length-take c.inputs c.input) in
    (
      _,
      _,
      refl,
      (
        omega (arith, len, length-ins buffer (inputs_of c) silence),
        All_mono {A = RoutingOutput} (λ o. o.input ≡ c.inputs) (λ o. o.input ≤ c.inputs) _
            (λ o h. omega (arith, h)) reads,
      ),
      reads,
    )
