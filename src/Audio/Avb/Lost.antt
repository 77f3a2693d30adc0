-- ===== src/Audio/Avb/Lost.antt =====
-- audio/audio_avb.c: the index of the CRF stream, and disconnections of streams.
use rtos_apps.Base.{
  ℕ, ◌≡◌, refl, sym, ap, ◌∙◌, subst, Bool, true, false, Option, none, some, List, [], ◌<◌, ◌^◌,
  arith, ◌∷◌, if◌then◌else◌, if_cases, All,
}
use rtos_apps.Base.Int.{pos}
use rtos_apps.Stats.{signed32}
use rtos_apps.Audio.Avb.{
  AvbCtx, Msg, media_stack_connect, media_stack_disconnect, set_clock_source, unknown,
  crf_disconnect, handle_avdecc_event, eq_ℤ, StreamCmd, listener_disconnect, talker_disconnect,
}

-- The context as it is cleared, as far as the CRF stream goes.
abbrev pub IsCleared : AvbCtx → Type 0
IsCleared ctx = (ctx.crf_stream.connected ≡ false) × (ctx.crf_stream.index ≡ pos 0)

-- A message that is not a connection of a CRF stream.
abbrev pub NoCrf : Option Msg → Type 0
NoCrf none = Unit
NoCrf (some (media_stack_connect index params is_crf listener)) = is_crf ≡ false
NoCrf (some other) = Unit

-- The messages of rounds of the control thread, one for each.
unfoldable pub rounds : List (Option Msg) → AvbCtx → AvbCtx
unfolding handle_avdecc_event
rounds [] ctx = ctx
rounds (msg ∷ msgs) ctx = rounds msgs (handle_avdecc_event none msg ctx).0

disconnect_cleared : (ctx : AvbCtx) → IsCleared ctx → crf_disconnect ctx ≡ ctx
unfolding crf_disconnect
disconnect_cleared ctx h = rw h.0 refl

event-IsCleared :
    (msg : Option Msg) (ctx : AvbCtx)
    → NoCrf msg
    → IsCleared ctx
    → IsCleared (handle_avdecc_event none msg ctx).0
unfolding handle_avdecc_event
event-IsCleared none ctx n h = h
event-IsCleared (some (media_stack_connect index params true listener)) ctx n h = absurd (cc)
event-IsCleared (some (media_stack_connect index params false listener)) ctx n h = h
event-IsCleared (some (media_stack_disconnect index listener)) ctx n h =
    if_cases (λ (r : AvbCtx × List StreamCmd). IsCleared r.0)
      (eq_ℤ (signed32 index) ctx.crf_stream.index)
      (λ _. subst IsCleared (sym (disconnect_cleared ctx h)) h) (λ _. h)
event-IsCleared (some set_clock_source) ctx n h = h
event-IsCleared (some unknown) ctx n h = h

rounds-IsCleared :
    (msgs : List (Option Msg)) (ctx : AvbCtx)
    → All NoCrf msgs
    → IsCleared ctx
    → IsCleared (rounds msgs ctx)
unfolding rounds
rounds-IsCleared [] ctx n h = h
rounds-IsCleared (msg ∷ msgs) ctx n h = rounds-IsCleared msgs _ n.1 (event-IsCleared msg ctx n.0 h)

cleared_zero :
    (listener : Bool) (ctx : AvbCtx)
    → IsCleared ctx
    → handle_avdecc_event none (some (media_stack_disconnect 0 listener)) ctx ≡ (ctx, [])
unfolding handle_avdecc_event
cleared_zero listener ctx h =
    let e : eq_ℤ (pos 0) ctx.crf_stream.index ≡ true = ap (eq_ℤ (pos 0)) h.1 in
    if_cases (λ r. r ≡ (ctx, [])) (eq_ℤ (pos 0) ctx.crf_stream.index)
      (λ _. ap (λ (c : AvbCtx). (c, [])) (disconnect_cleared ctx h)) (λ n. absurd (cc))

positive : (index : ℕ) → 0 < index → index < 2 ^ 31 → eq_ℤ (signed32 index) (pos 0) ≡ false
positive index h k = ground arith

cleared_other :
    (index : ℕ) (listener : Bool) (ctx : AvbCtx)
    → 0 < index
    → index < 2 ^ 31
    → IsCleared ctx
    → (handle_avdecc_event none (some (media_stack_disconnect index listener)) ctx).1
      ≡ (if listener then listener_disconnect index else talker_disconnect index)
unfolding handle_avdecc_event
cleared_other index listener ctx a b h =
    let e : eq_ℤ (signed32 index) ctx.crf_stream.index ≡ false =
      ap (eq_ℤ (signed32 index)) h.1 ∙ positive index a b in
    if_cases
      (λ (r : AvbCtx × List StreamCmd).
        r.1 ≡ (if listener then listener_disconnect index else talker_disconnect index))
      (eq_ℤ (signed32 index) ctx.crf_stream.index) (λ t. absurd (cc)) (λ _. refl)

-- After any messages to a cleared context, none of which connects a CRF stream, the disconnection of the stream 0 becomes no command
-- to the elements, and that of any stream from 1 to 2^31 - 1 becomes the commands to all pipelines.
pub disconnect_zero_lost :
    (msgs : List (Option Msg)) (ctx : AvbCtx) (index : ℕ) (listener : Bool)
    → All NoCrf msgs
    → IsCleared ctx
    → 0 < index
    → index < 2 ^ 31
    → (handle_avdecc_event none (some (media_stack_disconnect 0 listener)) (rounds msgs ctx)
        ≡ (rounds msgs ctx, []))
      × ((handle_avdecc_event none
            (some (media_stack_disconnect index listener))
            (rounds msgs ctx)).1
          ≡ (if listener then listener_disconnect index else talker_disconnect index))
disconnect_zero_lost msgs ctx index listener n h a b =
    let k = rounds-IsCleared msgs ctx n h in
    (
      cleared_zero listener (rounds msgs ctx) k,
      cleared_other index listener (rounds msgs ctx) a b k,
    )
