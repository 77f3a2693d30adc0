-- ===== src/Audio/Avtp/Source/Streams.antt =====
-- audio/audio_element_avtp_source.c: the streams and the exit.
use rtos_apps.Base.{
  Bool, ℕ, zero, suc, ◌+◌, ◌<◌, ◌≤◌, ◌≡◌, ◌≢◌, ◌⊎◌, inl, inr, refl, ap, ◌∙◌, arith, true, false,
  some, List, get_elem?, ltb, leb, if◌then◌else◌, ℕ_discrete, if_cases, ltb→lt, [], ◌∷◌,
}
use mathlib.Core.Option
use rtos_apps.Audio.Pipeline.Table.{Element}
use rtos_apps.Audio.Avtp.Defs.{Avdecc, StreamParams, change_at}
use rtos_apps.Audio.Avtp.Source.{
  AvtpSource, Create, connect_stream, disconnect_stream, change_stream, avtp_source_connect,
  avtp_source_disconnect, avtp_source_element_ctrl, avtp_source_command, avtp_source_element_exit,
  exit_loop, connect,
}

-- A stream after a change of one of them.
change_self {ℓ} :
    {A : Type ℓ} (f : A → A) (i : ℕ) (xs : List A)
    → get_elem? (change_at f i xs) i ≡ Option.map f (get_elem? xs i)
change_self f i [] = refl
change_self f zero (x ∷ xs) = refl
change_self f (suc i) (x ∷ xs) = change_self f i xs

change_ne {ℓ} :
    {A : Type ℓ} (f : A → A) (i j : ℕ) (xs : List A)
    → i ≢ j
    → get_elem? (change_at f i xs) j ≡ get_elem? xs j
change_ne f i j [] ne = refl
change_ne f zero zero (x ∷ xs) ne = absurd (ne refl)
change_ne f zero (suc j) (x ∷ xs) ne = refl
change_ne f (suc i) zero (x ∷ xs) ne = refl
change_ne f (suc i) (suc j) (x ∷ xs) ne = change_ne f i j xs (λ e. ne (ap suc e))

exit_before :
    (n i j : ℕ) (avtp : AvtpSource)
    → (j < i) ⊎ (i + n ≤ j)
    → get_elem? (exit_loop n i avtp).stream j ≡ get_elem? avtp.stream j
unfolding exit_loop avtp_source_disconnect
exit_before zero i j avtp h = refl
exit_before (suc n) i j avtp h =
    exit_before n (i + 1) j (avtp_source_disconnect i avtp)
      (elim h [ inl a ↦ inl (omega arith) | inr a ↦ inr (omega arith) ])
    ∙ change_ne disconnect_stream i j avtp.stream
        (λ e. elim h [ inl a ↦ omega arith | inr a ↦ omega arith ])

exit_within :
    (n i j : ℕ) (avtp : AvtpSource)
    → i ≤ j
    → j < i + n
    → get_elem? (exit_loop n i avtp).stream j
      ≡ Option.map disconnect_stream (get_elem? avtp.stream j)
unfolding exit_loop avtp_source_disconnect
exit_within zero i j avtp h k = absurd (omega arith)
exit_within (suc n) i j avtp h k = elim (ℕ_discrete i j) [
  | yes e ↦
      exit_before n (i + 1) j (avtp_source_disconnect i avtp) (inl (omega arith))
      ∙ rw e (change_self disconnect_stream j avtp.stream)
  | no ne ↦
      exit_within n (i + 1) j (avtp_source_disconnect i avtp) (omega arith) (omega arith)
      ∙ ap (Option.map disconnect_stream) (change_ne disconnect_stream i j avtp.stream ne)
]

-- The exit disconnects the streams of the configuration, and no other.
pub exit_lem :
    (avtp : AvtpSource) (j : ℕ)
    → get_elem? (avtp_source_element_exit avtp).stream j ≡ (
        if ltb j avtp.stream_n
        then Option.map disconnect_stream (get_elem? avtp.stream j)
        else get_elem? avtp.stream j)
unfolding avtp_source_element_exit
exit_lem avtp j =
    if_cases (λ r. get_elem? (exit_loop avtp.stream_n 0 avtp).stream j ≡ r) (ltb j avtp.stream_n)
      (λ h.
        exit_within avtp.stream_n 0 j avtp (omega arith) (omega (arith, ltb→lt j avtp.stream_n h)))
      (λ h. exit_before avtp.stream_n 0 j avtp (inr (ground arith)))

behind : (n : ℕ) → leb (n + 1) n ≡ false
behind n = ground arith

not_below : (n : ℕ) → ltb n n ≡ false
not_below n = ground arith

-- A command to connect the stream behind those of the configuration is accepted, and connects it, if the array has it. An exit after
-- it leaves that stream as the connection left it: its handle, if there is one, is not given back.
pub connect_behind_stays :
    (av : Avdecc) (create : Create) (element : Element) (avtp : AvtpSource) (params : StreamParams)
    (handle : Bool)
    → (after : AvtpSource) × ((avtp_source_element_ctrl av create
          (some (element, avtp))
          true
          (connect avtp.stream_n params)
          true
          handle).0
        ≡ some after)
      × (get_elem? (avtp_source_element_exit after).stream avtp.stream_n
          ≡ Option.map
              (connect_stream av create avtp params element)
              (get_elem? avtp.stream avtp.stream_n))
unfolding avtp_source_element_ctrl avtp_source_command avtp_source_connect
connect_behind_stays av create element avtp params handle =
    let n = avtp.stream_n in
    let f = connect_stream av create avtp params element in
    (
      change_stream f n avtp,
      rw (avtp_source_element_ctrl, avtp_source_command, behind n) refl,
      exit_lem (change_stream f n avtp) n ∙ rw (not_below n) (change_self f n avtp.stream),
    )
