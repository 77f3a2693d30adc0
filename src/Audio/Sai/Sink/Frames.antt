-- ===== src/Audio/Sai/Sink/Frames.antt =====
-- audio/audio_element_sai_sink.c: the samples of buffers and the words of FIFOs.
use rtos_apps.Base.{
  ℕ, zero, suc, ◌+◌, ◌-◌, ◌*◌, ◌<◌, ◌≤◌, ◌≡◌, refl, sym, ap, subst, ◌∙◌, arith, some, List, [], ◌∷◌,
  take, get_elem?, Memory, ◌==◌, if◌then◌else◌, ℕ_discrete,
}
use mathlib.Core.Option.{some-injective}
use rtos_apps.Audio.Routing.{Buffers}
use rtos_apps.Audio.Avtp.Defs.{Cells}
use rtos_apps.Audio.Sai.Source.Fill.{next_frame}
use rtos_apps.Audio.Sai.Sink.{SinkMap, Fifos, give, sample_word, write_frame, write_frames}

-- The channels that a FIFO carries.
abbrev pub carried : ℕ → List SinkMap → ℕ
carried a [] = 0
carried a (p ∷ ps) = (if a == p.tx_fifo then 1 else 0) + carried a ps

-- A channel comes before the end of a frame.
carried_less :
    (ps : List SinkMap) (c : ℕ) (p : SinkMap)
    → get_elem? ps c ≡ some p
    → carried p.tx_fifo (take c ps) < carried p.tx_fifo ps
carried_less [] c p e = absurd (cc)
carried_less (q ∷ qs) zero p e =
    let d : q.tx_fifo ≡ p.tx_fifo = ap (λ (r : SinkMap). r.tx_fifo) (some-injective _ _ e) in
    ground arith
carried_less (q ∷ qs) (suc c) p e = let less = carried_less qs c p e in omega arith

same_frame : (l i k t c : ℕ) → i ≡ l → t + (l - i) * k + c ≡ t + c
same_frame l i k t c d = let z : l - i ≡ 0 = omega arith in rw z (omega arith)

give_keeps : (q a w n : ℕ) (t : Fifos) → n < t.given q → (give a w t).words q n ≡ t.words q n
unfolding give
give_keeps q a w n t h = ground arith

give_less : (q a w n : ℕ) (t : Fifos) → n < t.given q → n < (give a w t).given q
unfolding give
give_less q a w n t h = ground arith

give_given : (q a w : ℕ) (t : Fifos) → (give a w t).given q ≡ t.given q + (if q == a then 1 else 0)
unfolding give
give_given q a w t = ground arith

give_at : (a w : ℕ) (t : Fifos) → (give a w t).words a (t.given a) ≡ w
unfolding give
give_at a w t = ground arith

give_more : (a w : ℕ) (t : Fifos) → t.given a < (give a w t).given a
unfolding give
give_more a w t = ground arith

module _ {A : Type 0} (cells : Cells A) (bufs : Buffers) (m : Memory A) where
  -- A frame gives a FIFO a word for each channel that it carries, behind those it has.
  frame_given :
      (ps : List SinkMap) (i a : ℕ) (t : Fifos)
      → (write_frame cells bufs m ps i t).given a ≡ t.given a + carried a ps
  unfolding write_frame
  frame_given [] i a t = omega arith
  frame_given (p ∷ ps) i a t =
      let w = sample_word cells bufs m p.input i in
      frame_given ps i a (give p.tx_fifo w t)
      ∙ ap (λ k. k + carried a ps) (give_given a p.tx_fifo w t)
      ∙ omega arith

  frame_keeps :
      (ps : List SinkMap) (i a n : ℕ) (t : Fifos)
      → n < t.given a
      → (write_frame cells bufs m ps i t).words a n ≡ t.words a n
  unfolding write_frame
  frame_keeps [] i a n t h = refl
  frame_keeps (p ∷ ps) i a n t h =
      let w = sample_word cells bufs m p.input i in
      frame_keeps ps i a n (give p.tx_fifo w t) (give_less a p.tx_fifo w n t h)
      ∙ give_keeps a p.tx_fifo w n t h

  frames_keep :
      (ps : List SinkMap) (k i a n : ℕ) (t : Fifos)
      → n < t.given a
      → (write_frames cells bufs m ps k i t).words a n ≡ t.words a n
  unfolding write_frames
  frames_keep ps zero i a n t h = refl
  frames_keep ps (suc k) i a n t h =
      let g = frame_given ps i a t in
      frames_keep ps k (i + 1) a n (write_frame cells bufs m ps i t) (rw g (omega arith))
      ∙ frame_keeps ps i a n t h

  pub frames_given :
      (ps : List SinkMap) (k i a : ℕ) (t : Fifos)
      → (write_frames cells bufs m ps k i t).given a ≡ t.given a + k * carried a ps
  unfolding write_frames
  frames_given ps zero i a t = omega arith
  frames_given ps (suc k) i a t =
      frames_given ps k (i + 1) a (write_frame cells bufs m ps i t)
      ∙ ap (λ z. z + k * carried a ps) (frame_given ps i a t)
      ∙ grind arith

  frame_at :
      (ps : List SinkMap) (c i : ℕ) (p : SinkMap) (t : Fifos)
      → get_elem? ps c ≡ some p
      → (write_frame cells bufs m ps i t).words p.tx_fifo
          (t.given p.tx_fifo + carried p.tx_fifo (take c ps))
        ≡ sample_word cells bufs m p.input i
  unfolding write_frame
  frame_at [] c i p t e = absurd (cc)
  frame_at (q ∷ qs) zero i p t e =
      let w = sample_word cells bufs m q.input i in
      subst
        (λ (r : SinkMap).
          (write_frame cells bufs m (q ∷ qs) i t).words r.tx_fifo (t.given r.tx_fifo + 0)
          ≡ sample_word cells bufs m r.input i)
        (some-injective _ _ e)
        (ap ((write_frame cells bufs m (q ∷ qs) i t).words q.tx_fifo) {x = t.given q.tx_fifo + 0}
            {y = t.given q.tx_fifo} (omega arith)
          ∙ frame_keeps qs i q.tx_fifo (t.given q.tx_fifo) (give q.tx_fifo w t)
              (give_more q.tx_fifo w t)
          ∙ give_at q.tx_fifo w t)
  frame_at (q ∷ qs) (suc c) i p t e =
      let w = sample_word cells bufs m q.input i in
      ap ((write_frame cells bufs m (q ∷ qs) i t).words p.tx_fifo)
        (let g = give_given p.tx_fifo q.tx_fifo w t in rw g (omega arith))
      ∙ frame_at qs c i p (give q.tx_fifo w t) e

  -- The frames from the frame `i` on.
  frames_at :
      (ps : List SinkMap) (c k i l : ℕ) (p : SinkMap) (t : Fifos)
      → get_elem? ps c ≡ some p
      → i ≤ l
      → l < i + k
      → (write_frames cells bufs m ps k i t).words p.tx_fifo
          (t.given p.tx_fifo + (l - i) * carried p.tx_fifo ps + carried p.tx_fifo (take c ps))
        ≡ sample_word cells bufs m p.input l
  unfolding write_frames
  frames_at ps c zero i l p t e h lt = absurd (omega arith)
  frames_at ps c (suc k) i l p t e h lt =
      let t' = write_frame cells bufs m ps i t in
      let end = write_frames cells bufs m ps k (i + 1) t' in
      let g = frame_given ps i p.tx_fifo t in
      elim (ℕ_discrete i l) [
        | yes d ↦
            ap (end.words p.tx_fifo) (
              same_frame l i (carried p.tx_fifo ps) (t.given p.tx_fifo)
                (carried p.tx_fifo (take c ps)) d)
            ∙ frames_keep ps k (i + 1) p.tx_fifo (t.given p.tx_fifo + carried p.tx_fifo (take c ps))
                t' (let less = carried_less ps c p e in rw g (omega arith))
            ∙ frame_at ps c i p t e
            ∙ ap (sample_word cells bufs m p.input) d
        | no d ↦
            ap (end.words p.tx_fifo) (
              sym (
                next_frame l i (carried p.tx_fifo ps) (t.given p.tx_fifo)
                  (carried p.tx_fifo (take c ps)) (omega arith))
              ∙ ap (λ z. z + (l - (i + 1)) * carried p.tx_fifo ps + carried p.tx_fifo (take c ps))
                  (sym g))
            ∙ frames_at ps c k (i + 1) l p t' e (omega arith) (omega arith)
      ]

  -- A write gives each FIFO a period of words for each channel that it carries, one channel after the other in every
  -- frame, behind the words it was given before: the sample `l` of a channel's buffer becomes the word behind those of
  -- the earlier frames and of the earlier channels.
  pub write_frames_lem :
      (ps : List SinkMap) (c period l : ℕ) (p : SinkMap) (t : Fifos)
      → get_elem? ps c ≡ some p
      → l < period
      → ((write_frames cells bufs m ps period 0 t).words p.tx_fifo
            (t.given p.tx_fifo + l * carried p.tx_fifo ps + carried p.tx_fifo (take c ps))
          ≡ sample_word cells bufs m p.input l)
        × ((write_frames cells bufs m ps period 0 t).given p.tx_fifo
            ≡ t.given p.tx_fifo + period * carried p.tx_fifo ps)
  write_frames_lem ps c period l p t e h = (
    ap
          (λ z.
            (write_frames cells bufs m ps period 0 t).words p.tx_fifo
              (t.given p.tx_fifo + z * carried p.tx_fifo ps + carried p.tx_fifo (take c ps)))
          {x = l} {y = l - 0} (omega arith)
        ∙ frames_at ps c period 0 l p t e (omega arith) (omega arith),
    frames_given ps period 0 p.tx_fifo t,
  )
