-- ===== src/Audio/Commands.antt =====
-- The commands to pipelines and elements, audio_pipeline_ctrl of audio/audio_pipeline.c and
-- audio_element_ctrl of audio/audio_element.c, in the build with AVB, with the commands of the elements.
mod Tests
use rtos_apps.Base.{
  ℕ, ◌≡◌, refl, Bool, true, false, Option, none, some, List, [], ◌∷◌, leb, ◌==◌, if◌then◌else◌,
  if_cases, elim_cases,
}
use rtos_apps.Audio.Pipeline.Table.{Element, Pipeline, Table, table_find, element_find}
use rtos_apps.Audio.Response.{
  Response, resp_pipeline, resp_element, resp_routing, resp_pll, resp_avtp, respond,
}
use rtos_apps.Audio.Routing
use rtos_apps.Audio.Routing.{RoutingElement, routing_command, routing_element_ctrl}
use rtos_apps.Audio.Pll.{Pll, PllCmd, pll_command, pll_element_ctrl}
use rtos_apps.Audio.Avtp.Defs.{Avdecc}
use rtos_apps.Audio.Avtp.Source.{
  AvtpSource, SourceCmd, Create, avtp_source_command, avtp_source_element_ctrl,
}
use rtos_apps.Audio.Avtp.Sink.{AvtpSink, SinkCmd, avtp_sink_command, avtp_sink_element_ctrl}

-- The commands that the code tells apart by their types.
pub data Cmd : Type 0 where
  pipeline_dump element_dump unknown : Cmd
  routing : Routing.Command → Cmd
  pll : PllCmd → Cmd
  source : SourceCmd → Cmd
  sink : SinkCmd → Cmd

-- What `data` of an element points to, by its type.
pub data ElementData : Type 0 where
  routing_data : RoutingElement → ElementData
  pll_data : Pll → ElementData
  source_data : AvtpSource → ElementData
  sink_data : AvtpSink → ElementData
  other_data : ElementData

pub record PipelineCmd : Type 0 where
  pub cmd : Cmd
  pub pipeline_id : ℕ
  pub element_type : ℕ
  pub element_id : ℕ

-- The sizes of the structures of commands; those of the commands of single elements are a test of the length.
pub record CmdSizes : Type 0 where
  pub own : Cmd → ℕ → Bool
  pub pipeline_common : ℕ
  pub pipeline_dump_size : ℕ
  pub element_common : ℕ
  pub element_dump_size : ℕ

-- The stack that connections work with.
pub record Stack : Type 0 where
  pub avdecc : Avdecc
  pub create : Create

-- The data of an element that was found, if it is one of the command's type; another type is refused like none.
abbrev pub routing_of : Option (Element × ElementData) → Option RoutingElement
routing_of (some (e, routing_data r)) = some r
routing_of element = none

abbrev pub pll_of : Option (Element × ElementData) → Option Pll
pll_of (some (e, pll_data p)) = some p
pll_of element = none

abbrev pub source_of : Option (Element × ElementData) → Option (Element × AvtpSource)
source_of (some (e, source_data a)) = some (e, a)
source_of element = none

abbrev pub sink_of : Option (Element × ElementData) → Option (Element × AvtpSink)
sink_of (some (e, sink_data a)) = some (e, a)
sink_of element = none

-- The result of a single element's function, as that of any element.
abbrev pub as_result :
    {A : Type 0}
    → (A → ElementData)
    → Option A × List Response
    → Bool × List Response × Option ElementData
as_result f (none, w) = (false, w, none)
as_result f (some a, w) = (true, w, some (f a))

-- The result is true where that of the code is 0, with the responses and the element's new data, if it has any.
unfoldable pub audio_element_ctrl :
    Stack
    → CmdSizes
    → Option (Element × ElementData)
    → Cmd
    → ℕ
    → Bool
    → Bool × List Response × Option ElementData
unfolding routing_element_ctrl pll_element_ctrl avtp_source_element_ctrl avtp_sink_element_ctrl
    respond
audio_element_ctrl stack sizes element element_dump len handle =
    let refused : Bool × List Response × Option ElementData =
      (false, respond handle (resp_element false), none) in
    if len == sizes.element_dump_size
    then elim element [ none ↦ refused | some e ↦ (true, respond handle (resp_element true), none) ]
    else refused
audio_element_ctrl stack sizes element pipeline_dump len handle =
    (false, respond handle (resp_element false), none)
audio_element_ctrl stack sizes element unknown len handle =
    (false, respond handle (resp_element false), none)
audio_element_ctrl stack sizes element (routing c) len handle =
    as_result routing_data
      (routing_element_ctrl (routing_of element) true c (sizes.own (routing c) len) handle)
audio_element_ctrl stack sizes element (pll c) len handle =
    as_result pll_data (pll_element_ctrl (pll_of element) true c handle)
audio_element_ctrl stack sizes element (source c) len handle = as_result source_data (
    avtp_source_element_ctrl stack.avdecc stack.create (source_of element) true c
      (sizes.own (source c) len) handle)
audio_element_ctrl stack sizes element (sink c) len handle = as_result sink_data (
    avtp_sink_element_ctrl stack.avdecc stack.create (sink_of element) true c
      (sizes.own (sink c) len) handle)

abbrev pub find_pipeline : (ℕ → Pipeline) → Table → CmdSizes → PipelineCmd → ℕ → Option Pipeline
find_pipeline heap t sizes cmd len =
    if leb sizes.pipeline_common len
    then elim (table_find t cmd.pipeline_id) [ none ↦ none | some p ↦ some (heap p) ]
    else none

abbrev pub find_element : Option Pipeline → CmdSizes → PipelineCmd → ℕ → Option Element
find_element none sizes cmd len = none
find_element (some p) sizes cmd len =
    if leb sizes.element_common len then element_find p cmd.element_type cmd.element_id else none

-- The element with what its data points to.
abbrev pub with_data : (Element → ElementData) → Option Element → Option (Element × ElementData)
with_data elements none = none
with_data elements (some e) = some (e, elements e)

-- `heap` gives the pipelines at their addresses, and `elements` the data of the elements; a dump is I/O.
unfoldable pub audio_pipeline_ctrl :
    Stack
    → CmdSizes
    → (ℕ → Pipeline)
    → (Element → ElementData)
    → Table
    → PipelineCmd
    → ℕ
    → Bool
    → Bool × List Response × Option ElementData
unfolding audio_element_ctrl respond
audio_pipeline_ctrl stack sizes heap elements t c len handle =
    let pipeline = find_pipeline heap t sizes c len in
    let element =
      audio_element_ctrl stack sizes (with_data elements (find_element pipeline sizes c len)) c.cmd
        len handle in
    let refused : Bool × List Response × Option ElementData =
      (false, respond handle (resp_pipeline false), none) in
    elim c.cmd [
      | pipeline_dump ↦
          if len == sizes.pipeline_dump_size
          then elim pipeline [
            | none ↦ refused
            | some p ↦ (true, respond handle (resp_pipeline true), none)
          ]
          else refused
      | _ ↦ element
    ]

-- Whether a response says success.
abbrev pub says : Response → Bool
says (resp_pipeline ok) = ok
says (resp_element ok) = ok
says (resp_routing ok) = ok
says (resp_pll ok) = ok
says (resp_avtp ok) = ok

-- A result with its responses: one that says the result with a handle, and none without. Only a success has new data.
abbrev pub Answers : Bool → Bool × List Response × Option ElementData → Type 0
Answers true r = (w : Response) × (r.1 ≡ w ∷ []) × (says w ≡ r.0)
Answers false r = r.1 ≡ []

respond-Answers :
    (handle ok : Bool) (w : Response) (d : Option ElementData)
    → says w ≡ ok
    → Answers handle (ok, respond handle w, d)
unfolding respond
respond-Answers true ok w d e = (w, refl, e)
respond-Answers false ok w d e = refl

routing-Answers :
    (element : Option RoutingElement) (c : Routing.Command) (len_ok handle : Bool)
    → Answers handle (as_result routing_data (routing_element_ctrl element true c len_ok handle))
unfolding routing_element_ctrl
routing-Answers element c len_ok handle =
    elim_cases (λ o. Answers handle (as_result routing_data o))
      (routing_command element true c len_ok)
      (respond-Answers handle false (resp_routing false) none refl)
      (λ r. respond-Answers handle true (resp_routing true) (some (routing_data r)) refl)

pll-Answers :
    (element : Option Pll) (c : PllCmd) (handle : Bool)
    → Answers handle (as_result pll_data (pll_element_ctrl element true c handle))
unfolding pll_element_ctrl
pll-Answers element c handle =
    elim_cases (λ o. Answers handle (as_result pll_data o)) (pll_command element true c)
      (respond-Answers handle false (resp_pll false) none refl)
      (λ p. respond-Answers handle true (resp_pll true) (some (pll_data p)) refl)

source-Answers :
    (stack : Stack) (element : Option (Element × AvtpSource)) (c : SourceCmd) (len_ok handle : Bool)
    → Answers handle (
        as_result source_data
          (avtp_source_element_ctrl stack.avdecc stack.create element true c len_ok handle))
unfolding avtp_source_element_ctrl
source-Answers stack element c len_ok handle =
    elim_cases (λ o. Answers handle (as_result source_data o))
      (avtp_source_command stack.avdecc stack.create element true c len_ok)
      (respond-Answers handle false (resp_avtp false) none refl)
      (λ a. respond-Answers handle true (resp_avtp true) (some (source_data a)) refl)

sink-Answers :
    (stack : Stack) (element : Option (Element × AvtpSink)) (c : SinkCmd) (len_ok handle : Bool)
    → Answers handle (
        as_result sink_data
          (avtp_sink_element_ctrl stack.avdecc stack.create element true c len_ok handle))
unfolding avtp_sink_element_ctrl
sink-Answers stack element c len_ok handle =
    elim_cases (λ o. Answers handle (as_result sink_data o))
      (avtp_sink_command stack.avdecc stack.create element true c len_ok)
      (respond-Answers handle false (resp_avtp false) none refl)
      (λ a. respond-Answers handle true (resp_avtp true) (some (sink_data a)) refl)

element_ctrl-Answers :
    (stack : Stack) (sizes : CmdSizes) (element : Option (Element × ElementData)) (cmd : Cmd)
    (len : ℕ) (handle : Bool)
    → Answers handle (audio_element_ctrl stack sizes element cmd len handle)
unfolding audio_element_ctrl
element_ctrl-Answers stack sizes element element_dump len handle =
    let no = respond-Answers handle false (resp_element false) none refl in
    if_cases (Answers handle) (len == sizes.element_dump_size)
      (λ e.
        elim_cases (Answers handle) element no
          (λ found. respond-Answers handle true (resp_element true) none refl))
      (λ e. no)
element_ctrl-Answers stack sizes element pipeline_dump len handle =
    respond-Answers handle false (resp_element false) none refl
element_ctrl-Answers stack sizes element unknown len handle =
    respond-Answers handle false (resp_element false) none refl
element_ctrl-Answers stack sizes element (routing c) len handle =
    routing-Answers (routing_of element) c (sizes.own (routing c) len) handle
element_ctrl-Answers stack sizes element (pll c) len handle = pll-Answers (pll_of element) c handle
element_ctrl-Answers stack sizes element (source c) len handle =
    source-Answers stack (source_of element) c (sizes.own (source c) len) handle
element_ctrl-Answers stack sizes element (sink c) len handle =
    sink-Answers stack (sink_of element) c (sizes.own (sink c) len) handle

-- The commands are the dump of a pipeline and those of elements.
cmd_cases {ℓ κ} :
    {B : Type ℓ} (P : B → Type κ) (cmd : Cmd) {d e : B}
    → P d
    → P e
    → P (elim cmd [ pipeline_dump ↦ d | _ ↦ e ])
cmd_cases P pipeline_dump h g = h
cmd_cases P element_dump h g = g
cmd_cases P unknown h g = g
cmd_cases P (routing c) h g = g
cmd_cases P (pll c) h g = g
cmd_cases P (source c) h g = g
cmd_cases P (sink c) h g = g

-- A command gets exactly one response, which says the result, if there is a control handle, and none otherwise,
-- whatever the command, its length, and whether the pipeline and the element are found.
pub pipeline_ctrl-Answers :
    (stack : Stack) (sizes : CmdSizes) (heap : ℕ → Pipeline) (elements : Element → ElementData)
    (t : Table) (c : PipelineCmd) (len : ℕ) (handle : Bool)
    → Answers handle (audio_pipeline_ctrl stack sizes heap elements t c len handle)
unfolding audio_pipeline_ctrl
pipeline_ctrl-Answers stack sizes heap elements t c len handle =
    let pipeline = find_pipeline heap t sizes c len in
    let no = respond-Answers handle false (resp_pipeline false) none refl in
    cmd_cases (Answers handle) c.cmd
      (if_cases (Answers handle) (len == sizes.pipeline_dump_size)
        (λ e.
          elim_cases (Answers handle) pipeline no
            (λ found. respond-Answers handle true (resp_pipeline true) none refl))
        (λ e. no))
      (element_ctrl-Answers stack sizes (with_data elements (find_element pipeline sizes c len))
        c.cmd len handle)
