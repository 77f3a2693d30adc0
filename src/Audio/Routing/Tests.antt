-- ===== src/Audio/Routing/Tests.antt =====
-- A routing of two inputs to two outputs, where both outputs read the second input.
use rtos_apps.Base.{
  ℕ, ◌+◌, ◌*◌, ◌≡◌, ◌≢◌, ◌↔◌, inl, inr, ◌<◌, refl, arith, true, none, some, [], ◌∷◌, All, Memory,
}
use rtos_apps.Audio.Buffer.{AudioBuffer}
use rtos_apps.Audio.Pipeline.Config.{ElementConfig}
use rtos_apps.Audio.Pipeline.Table.{Element}
use rtos_apps.Audio.Routing.{
  RoutingElement, connect, routing_command, routing_element_run, routing_element_init, Buffers,
}
use rtos_apps.Audio.Routing.Control.{IsValid, ctrl-IsValid, ctrl_connect, input_at, init-IsValid}
use rtos_apps.Audio.Routing.Run.{run_copies}

abbrev buffer_at : ℕ → AudioBuffer
buffer_at p = record {
  base = p * 10;
  read = 0;
  write = 0;
  size = 8;
  size_mask = 7;
  silence = 0;
  flags = 0;
  shared_id = 0;
  input_type = 0;
  input_id = 0;
  input_element_id = 0;
  output_type = 0;
  output_id = 0;
  output_element_id = 0;
}

abbrev routing : RoutingElement
routing = record {
  inputs = 2;
  ins = 1 ∷ 2 ∷ 9 ∷ [];
  out = (record { input = 1; buf = 3 }) ∷ (record { input = 1; buf = 4 }) ∷ [];
}

abbrev numbers : Memory ℕ
numbers a = a

abbrev config : ElementConfig
config = record {
  type = 1;
  inputs = 2;
  input = 0 ∷ 1 ∷ [];
  outputs = 2;
  output = 2 ∷ 3 ∷ [];
  period = 4;
  sample_rate = 48000;
}

abbrev element : Element
element = record { type = 1; sample_rate = 48000; period = 4; element_id = 0 }

routing-IsValid : IsValid routing
routing-IsValid = (refl, (omega arith, (omega arith, tt)))

abbrev connected : RoutingElement
connected = record routing {
  out = (record { input = 0; buf = 3 }) ∷ (record { input = 1; buf = 4 }) ∷ [];
}

accepted : routing_command (some routing) true (connect 0 0) true ≡ some connected
unfolding routing_command
accepted = refl

ctrl-IsValid_run : IsValid connected
ctrl-IsValid_run = ctrl-IsValid routing true true (connect 0 0) routing-IsValid accepted

ctrl_connect_run :
    ((routing_command (some routing) true (connect 0 0) true ≢ none)
      ↔ ((true ≡ true) × (0 < 2) × (0 < 2)))
    × ((r' : RoutingElement)
        → routing_command (some routing) true (connect 0 0) true ≡ some r'
        → (input_at r'.out 0 ≡ some 0)
          × ((j : ℕ) → j ≢ 0 → input_at r'.out j ≡ input_at routing.out j))
ctrl_connect_run = ctrl_connect routing true 0 0

init-IsValid_run :
    (r : RoutingElement) × (s' : Buffers × Memory ℕ) × (routing_element_init 0 true element config
        (λ k. k + 1)
        9
        90
        (buffer_at, numbers)
      ≡ some (r, s'.0, s'.1))
    × IsValid r
    × All (λ o. o.input ≡ r.inputs) r.out
init-IsValid_run =
    init-IsValid 0 element config (λ k. k + 1) 9 90 (buffer_at, numbers) (omega arith)

run_copies_example : (routing_element_run 4 routing (buffer_at, numbers)).1 (40 + 3) ≡ 20 + 3
run_copies_example =
    run_copies 4 routing buffer_at numbers 1 40 20 3
      (((λ e. omega (arith, e), λ e. omega (arith, e)), tt), (tt, tt))
      (inr (omega arith), ((inl (omega arith), inr (omega arith)), tt), (inr (omega arith), tt, tt))
      refl (omega arith)
