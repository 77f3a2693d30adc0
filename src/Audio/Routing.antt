-- ===== src/Audio/Routing.antt =====
-- audio/audio_element_routing.c: the element that copies each output from the input it is connected to.
-- A buffer is known by its address, and the buffers of all addresses are a function.
pub mod Control
pub mod Run
mod Tests
use rtos_apps.Base.{
  ℕ, zero, suc, ◌+◌, ◌*◌, ◌%◌, ◌^◌, Bool, true, false, ◌&&◌, ◌||◌, not, Option, none, some, List,
  [], ◌∷◌, ◌++◌, map, length, take, get_elem?, ltb, leb, ◌==◌, if◌then◌else◌, Memory,
}
use rtos_apps.Audio.Buffer.{
  AudioBuffer, audio_buf_copy, audio_buf_write_update, audio_buf_read_update, audio_buf_reset,
  audio_buf_init,
}
use rtos_apps.Audio.Pipeline.Config.{ElementConfig, inputs_of, outputs_of}
use rtos_apps.Audio.Pipeline.Table.{Element}
use rtos_apps.Audio.Response.{Response, resp_routing, respond}

-- `struct audio_buffer` at its address.
abbrev pub Buffers : Type 0
Buffers = ℕ → AudioBuffer

abbrev pub put : Buffers → ℕ → AudioBuffer → Buffers
put bufs p b = λ q. if q == p then b else bufs q

-- `struct routing_output`; `buf` is an address.
pub record RoutingOutput : Type 0 where
  pub input : ℕ
  pub buf : ℕ

-- `struct routing_element`: `ins` are the addresses of the inputs, the local silence behind them; `out` has
-- one entry for each output.
pub record RoutingElement : Type 0 where
  pub inputs : ℕ
  pub ins : List ℕ
  pub out : List RoutingOutput

-- The commands of `struct audio_cmd_element_routing`.
pub data Command : Type 0 where
  connect : ℕ → ℕ → Command
  disconnect : ℕ → Command
  unknown : Command

abbrev pub set_input : List RoutingOutput → ℕ → ℕ → List RoutingOutput
set_input [] output input = []
set_input (o ∷ os) zero input = record o { input = input } ∷ os
set_input (o ∷ os) (suc output) input = o ∷ set_input os output input

-- `routing_element_ctrl` up to the responses, on an element, none for NULL, that is a routing or not; `len_ok` tells
-- whether the length is that of the command. `none` goes to the label `err`.
unfoldable pub routing_command :
    Option RoutingElement → Bool → Command → Bool → Option RoutingElement
routing_command none is_routing cmd len_ok = none
routing_command (some r) is_routing cmd len_ok =
    if is_routing
    then (elim cmd [
      | connect output input ↦
          if len_ok && ltb output (length r.out) && ltb input r.inputs
          then some (record r { out = set_input r.out output input })
          else none
      | disconnect output ↦
          if len_ok && ltb output (length r.out)
          then some (record r { out = set_input r.out output r.inputs })
          else none
      | unknown ↦ none
    ])
    else none

-- The result is none where that of the code is -1, with the responses.
unfoldable pub routing_element_ctrl :
    Option RoutingElement → Bool → Command → Bool → Bool → Option RoutingElement × List Response
unfolding routing_command respond
routing_element_ctrl element is_routing cmd len_ok handle =
    elim (routing_command element is_routing cmd len_ok) [
      | none ↦ (none, respond handle (resp_routing false))
      | some r ↦ (some r, respond handle (resp_routing true))
    ]

-- An access behind the array is address 0; the inputs of an element keep to the array.
abbrev pub at : List ℕ → ℕ → ℕ
at [] i = 0
at (p ∷ ps) zero = p
at (p ∷ ps) (suc i) = at ps i

-- The loop over the inputs.
unfoldable pub read_inputs : ℕ → List ℕ → Buffers → Buffers
read_inputs period [] bufs = bufs
read_inputs period (p ∷ ps) bufs =
    read_inputs period ps (put bufs p (audio_buf_read_update (bufs p) period))

-- The two loops that note the element at the buffers' ends.
unfoldable pub mark_inputs : Element → ℕ → List RoutingOutput → Buffers → Buffers
mark_inputs e i [] bufs = bufs
mark_inputs e i (o ∷ os) bufs = mark_inputs e (i + 1) os (
    put bufs o.buf
      (record (bufs o.buf) { input_type = e.type; input_element_id = e.element_id; input_id = i }))

unfoldable pub mark_outputs : Element → ℕ → List ℕ → Buffers → Buffers
mark_outputs e i [] bufs = bufs
mark_outputs e i (p ∷ ps) bufs = mark_outputs e (i + 1) ps (
    put bufs p
      (record (bufs p) { output_type = e.type; output_element_id = e.element_id; output_id = i }))

module _ {ℓ} {A : Type ℓ} where
  -- The loop over the outputs of `routing_element_run`.
  unfoldable pub copy_outputs :
      ℕ → List ℕ → List RoutingOutput → Buffers × Memory A → Buffers × Memory A
  copy_outputs period ins [] s = s
  copy_outputs period ins (o ∷ os) (bufs, m) = copy_outputs period ins os (
    put bufs o.buf (audio_buf_write_update (bufs o.buf) period),
    audio_buf_copy (bufs o.buf) (bufs (at ins o.input)) period m,
  )

  unfoldable pub routing_element_run : ℕ → RoutingElement → Buffers × Memory A → Buffers × Memory A
  unfolding copy_outputs read_inputs
  routing_element_run period r s =
      let (bufs, m) = copy_outputs period r.ins r.out s in
      (read_inputs period (take r.inputs r.ins) bufs, m)

  unfoldable pub routing_element_reset :
      A → List RoutingOutput → Buffers × Memory A → Buffers × Memory A
  routing_element_reset silent [] s = s
  routing_element_reset silent (o ∷ os) (bufs, m) =
      let (b, m') = audio_buf_reset silent (bufs o.buf) m in
      routing_element_reset silent os (put bufs o.buf b, m')

  -- `routing_element_init`: `buffer` gives the addresses of the pipeline's buffers, `silence` is that of the
  -- local buffer and `storage` that of its samples. `none` is a mutex that fails.
  unfoldable pub routing_element_init :
      A
      → Bool
      → Element
      → ElementConfig
      → (ℕ → ℕ)
      → ℕ
      → ℕ
      → Buffers × Memory A
      → Option (RoutingElement × Buffers × Memory A)
  unfolding mark_inputs mark_outputs
  routing_element_init silent mutex_ok e config buffer silence storage (bufs, m) =
      let ins = map buffer (inputs_of config) in
      let out : List RoutingOutput =
        map {B = RoutingOutput} (λ k. record { input = config.inputs; buf = buffer k })
          (outputs_of config) in
      let (b, m') = audio_buf_init silent storage e.period e.period 0 0 m in
      if mutex_ok
      then some (
        record { inputs = config.inputs; ins = ins ++ (silence ∷ []); out = out },
        mark_outputs e 0 ins (mark_inputs e 0 out (put bufs silence b)),
        m',
      )
      else none

unfoldable pub routing_element_check_config : ElementConfig → Bool
routing_element_check_config c = not (c.inputs == 0) && not (c.outputs == 0)

-- Over the sizes of the element, a pointer and an output; a sample has eight bytes.
unfoldable pub routing_element_size : ℕ → ℕ → ℕ → ElementConfig → ℕ
routing_element_size element pointer output c =
    (element + (c.inputs + 1) * pointer + c.outputs * output + 8 * c.period) % 2 ^ 32
