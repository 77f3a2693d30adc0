-- ===== src/Audio/Avtp/Source/Frames.antt =====
-- audio/audio_element_avtp_source.c: the words of a batch and the buffers of its channels.
use rtos_apps.Base.{
  ℕ, zero, suc, ◌+◌, ◌-◌, ◌*◌, ◌<◌, ◌≤◌, ◌≡◌, ◌≢◌, refl, sym, ap, subst, ◌∙◌, arith, some, List, [],
  ◌∷◌, get_elem?, get_or, All, Memory, store_ne, store_eq, ℕ_discrete,
}
use mathlib.Core.Option.{some-injective}
use rtos_apps.Audio.Buffer.Places.{writer, AllApart, addr_lem, after_head, others}
use rtos_apps.Audio.Buffer.{audio_buf_write_addr}
use rtos_apps.Audio.Routing.{Buffers}
use rtos_apps.Audio.Avtp.Defs.{Cells}
use rtos_apps.Audio.Avtp.Source.{avtp_rx_channel_n}
use rtos_apps.Audio.Avtp.Source.Run.{write_frame, write_frames}

module _ {A : Type 0} (cells : Cells A) (bufs : Buffers) where
  frame_other :
      (ps : List ℕ) (j k : ℕ) (words : List ℕ) (m : Memory A) (x : ℕ)
      → All (λ p. audio_buf_write_addr (bufs p) j ≢ x) ps
      → write_frame cells ps j k words bufs m x ≡ m x
  unfolding write_frame
  frame_other [] j k words m x h = refl
  frame_other (p ∷ ps) j k words m x h =
      frame_other ps j (k + 1) words _ x h.1 ∙ store_ne m _ (λ e. h.0 (sym e))

  frames_before :
      (period : ℕ) (ps : List ℕ) (c p n j l k : ℕ) (words : List ℕ) (m : Memory A)
      → get_elem? ps c ≡ some p
      → AllApart period bufs ps
      → l < j
      → j + n ≤ period
      → write_frames cells ps n j k words bufs m (writer bufs p + l) ≡ m (writer bufs p + l)
  unfolding write_frames
  frames_before period ps c p zero j l k words m e a h le = refl
  frames_before period ps c p (suc n) j l k words m e a h le =
      frames_before period ps c p n (j + 1) l (k + avtp_rx_channel_n) words _ e a (omega arith)
        (omega arith)
      ∙ frame_other ps j k words m _
          (others period bufs ps c p j l e a (omega arith) (omega arith) (omega arith))

module _ {A : Type 0} (cells : Cells A)
    (low_law : (w : ℕ) (a : A) → cells.low (cells.set_low w a) ≡ w) (period : ℕ)
    (bufs : Buffers) where
  frame_at :
      (ps : List ℕ) (c p j k : ℕ) (words : List ℕ) (m : Memory A)
      → get_elem? ps c ≡ some p
      → AllApart period bufs ps
      → j < period
      → cells.low (write_frame cells ps j k words bufs m (writer bufs p + j))
        ≡ get_or words (k + c) 0
  unfolding write_frame
  frame_at [] c p j k words m e a h = absurd (cc)
  frame_at (q ∷ qs) zero p j k words m e a h =
      subst
        (λ r.
          cells.low (write_frame cells (q ∷ qs) j k words bufs m (writer bufs r + j))
          ≡ get_or words (k + 0) 0)
        (some-injective _ _ e)
        (ap cells.low (
            frame_other cells bufs qs j (k + 1) words _ (writer bufs q + j)
              (after_head period bufs q qs j j a.1 h h)
            ∙ store_eq m _ (sym (addr_lem period bufs q j a.0 h)))
          ∙ low_law _ _
          ∙ ap (λ n. get_or words n 0) (omega arith))
  frame_at (q ∷ qs) (suc c) p j k words m e a h =
      frame_at qs c p j (k + 1) words _ e a.2 h ∙ ap (λ n. get_or words n 0) (omega arith)

  -- The words from the frame `j` on stand, frame by frame, from the word `k` on.
  pub frames_at :
      (ps : List ℕ) (c p n j l k : ℕ) (words : List ℕ) (m : Memory A)
      → get_elem? ps c ≡ some p
      → AllApart period bufs ps
      → j ≤ l
      → l < j + n
      → j + n ≤ period
      → cells.low (write_frames cells ps n j k words bufs m (writer bufs p + l))
        ≡ get_or words (k + (l - j) * avtp_rx_channel_n + c) 0
  unfolding write_frames
  frames_at ps c p zero j l k words m e a h lt le = absurd (omega arith)
  frames_at ps c p (suc n) j l k words m e a h lt le = elim (ℕ_discrete j l) [
    | yes d ↦
        ap cells.low (
          frames_before cells bufs period ps c p n (j + 1) l (k + avtp_rx_channel_n) words _ e a
            (omega arith) (omega arith))
        ∙ ap (λ z. cells.low (write_frame cells ps j k words bufs m (writer bufs p + z))) (sym d)
        ∙ frame_at ps c p j k words m e a (omega arith)
        ∙ ap (λ n. get_or words n 0) (omega arith)
    | no d ↦
        frames_at ps c p n (j + 1) l (k + avtp_rx_channel_n) words _ e a (omega arith) (omega arith)
          (omega arith)
        ∙ ap (λ n. get_or words n 0) (omega arith)
  ]
