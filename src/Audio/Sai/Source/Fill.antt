-- ===== src/Audio/Sai/Source/Fill.antt =====
-- audio/audio_element_sai_source.c: the words of FIFOs and the samples of buffers.
use rtos_apps.Base.{
  ℕ, zero, suc, ◌+◌, ◌-◌, ◌*◌, ◌<◌, ◌≤◌, ◌≡◌, ◌≢◌, refl, sym, ap, subst, ◌∙◌, arith, some, List, [],
  ◌∷◌, take, get_elem?, All, Memory, store_ne, store_eq, ◌==◌, if◌then◌else◌, ℕ_discrete,
}
use mathlib.Core.Option.{some-injective}
use rtos_apps.Audio.Buffer.{audio_buf_write_addr}
use rtos_apps.Audio.Buffer.Places.{writer, AllApart, addr_lem, after_head, others}
use rtos_apps.Audio.Routing.{Buffers}
use rtos_apps.Audio.Avtp.Defs.{Cells}
use rtos_apps.Audio.Sai.Source.{SaiMap, fill_frame, fill_frames}

-- The channels that take from a FIFO.
abbrev pub count_fifo : ℕ → List SaiMap → ℕ
count_fifo a [] = 0
count_fifo a (p ∷ ps) = (if a == p.rx_fifo then 1 else 0) + count_fifo a ps

abbrev pub outs : List SaiMap → List ℕ
outs [] = []
outs (p ∷ ps) = p.out ∷ outs ps

outs_at :
    (ps : List SaiMap) (c : ℕ) {p : SaiMap}
    → get_elem? ps c ≡ some p
    → get_elem? (outs ps) c ≡ some p.out
outs_at [] c e = absurd (cc)
outs_at (q ∷ qs) zero e = ap (λ (r : SaiMap). some r.out) (some-injective _ _ e)
outs_at (q ∷ qs) (suc c) e = outs_at qs c e

same_frame : (l i k t c : ℕ) → i ≡ l → t + c ≡ t + (l - i) * k + c
same_frame l i k t c d = let z : l - i ≡ 0 = omega arith in rw z (omega arith)

pub next_frame : (l i k t c : ℕ) → i < l → t + k + (l - (i + 1)) * k + c ≡ t + (l - i) * k + c
next_frame l i k t c h = let z : l - i ≡ l - (i + 1) + 1 = omega arith in rw z (grind arith)

module _ {A : Type 0} (cells : Cells A) (word : ℕ → ℕ → ℕ) (bufs : Buffers) where
  -- A frame takes a word for each channel of a FIFO.
  frame_taken :
      (ps : List SaiMap) (i a : ℕ) (taken : ℕ → ℕ) (m : Memory A)
      → (fill_frame cells word ps i bufs (taken, m)).0 a ≡ taken a + count_fifo a ps
  unfolding fill_frame
  frame_taken [] i a taken m = omega arith
  frame_taken (p ∷ ps) i a taken m = frame_taken ps i a _ _ ∙ ground arith

  frame_other :
      (ps : List SaiMap) (i : ℕ) (taken : ℕ → ℕ) (m : Memory A) (x : ℕ)
      → All (λ p. audio_buf_write_addr (bufs p) i ≢ x) (outs ps)
      → (fill_frame cells word ps i bufs (taken, m)).1 x ≡ m x
  unfolding fill_frame
  frame_other [] i taken m x h = refl
  frame_other (p ∷ ps) i taken m x h = frame_other ps i _ _ x h.1 ∙ store_ne m _ (λ e. h.0 (sym e))

  frames_taken :
      (ps : List SaiMap) (n i a : ℕ) (taken : ℕ → ℕ) (m : Memory A)
      → (fill_frames cells word ps n i bufs (taken, m)).0 a ≡ taken a + n * count_fifo a ps
  unfolding fill_frames
  frames_taken ps zero i a taken m = omega arith
  frames_taken ps (suc n) i a taken m =
      frames_taken ps n (i + 1) a (fill_frame cells word ps i bufs (taken, m)).0
        (fill_frame cells word ps i bufs (taken, m)).1
      ∙ ap (λ k. k + n * count_fifo a ps) (frame_taken ps i a taken m)
      ∙ grind arith

  frames_before :
      (period : ℕ) (ps : List SaiMap) (c p n i l : ℕ) (taken : ℕ → ℕ) (m : Memory A)
      → get_elem? (outs ps) c ≡ some p
      → AllApart period bufs (outs ps)
      → l < i
      → i + n ≤ period
      → (fill_frames cells word ps n i bufs (taken, m)).1 (writer bufs p + l)
        ≡ m (writer bufs p + l)
  unfolding fill_frames
  frames_before period ps c p zero i l taken m e a h le = refl
  frames_before period ps c p (suc n) i l taken m e a h le =
      frames_before period ps c p n (i + 1) l (fill_frame cells word ps i bufs (taken, m)).0
        (fill_frame cells word ps i bufs (taken, m)).1 e a (omega arith) (omega arith)
      ∙ frame_other ps i taken m _
          (others period bufs (outs ps) c p i l e a (omega arith) (omega arith) (omega arith))

module _ {A : Type 0} (cells : Cells A)
    (low_law : (w : ℕ) (a : A) → cells.low (cells.set_low w a) ≡ w) (word : ℕ → ℕ → ℕ) (period : ℕ)
    (bufs : Buffers) where
  frame_at :
      (ps : List SaiMap) (c i : ℕ) (p : SaiMap) (taken : ℕ → ℕ) (m : Memory A)
      → get_elem? ps c ≡ some p
      → AllApart period bufs (outs ps)
      → i < period
      → cells.low ((fill_frame cells word ps i bufs (taken, m)).1 (writer bufs p.out + i))
        ≡ word p.rx_fifo (taken p.rx_fifo + count_fifo p.rx_fifo (take c ps))
  unfolding fill_frame
  frame_at [] c i p taken m e a h = absurd (cc)
  frame_at (q ∷ qs) zero i p taken m e a h =
      subst
        (λ (r : SaiMap).
          cells.low ((fill_frame cells word (q ∷ qs) i bufs (taken, m)).1 (writer bufs r.out + i))
          ≡ word r.rx_fifo (taken r.rx_fifo + 0))
        (some-injective _ _ e)
        (ap cells.low (
            frame_other cells word bufs qs i _ _ (writer bufs q.out + i)
              (after_head period bufs q.out (outs qs) i i a.1 h h)
            ∙ store_eq m _ (sym (addr_lem period bufs q.out i a.0 h)))
          ∙ low_law _ _
          ∙ ap (word q.rx_fifo) (omega arith))
  frame_at (q ∷ qs) (suc c) i p taken m e a h =
      frame_at qs c i p _ _ e a.2 h ∙ ap (word p.rx_fifo) (ground arith)

  -- The frames from the frame `i` on.
  frames_at :
      (ps : List SaiMap) (c n i l : ℕ) (p : SaiMap) (taken : ℕ → ℕ) (m : Memory A)
      → get_elem? ps c ≡ some p
      → AllApart period bufs (outs ps)
      → i ≤ l
      → l < i + n
      → i + n ≤ period
      → cells.low ((fill_frames cells word ps n i bufs (taken, m)).1 (writer bufs p.out + l))
        ≡ word p.rx_fifo
            (taken p.rx_fifo + (l - i) * count_fifo p.rx_fifo ps + count_fifo p.rx_fifo (take c ps))
  unfolding fill_frames
  frames_at ps c zero i l p taken m e a h lt le = absurd (omega arith)
  frames_at ps c (suc n) i l p taken m e a h lt le =
      let taken' = (fill_frame cells word ps i bufs (taken, m)).0 in
      let m' = (fill_frame cells word ps i bufs (taken, m)).1 in
      elim (ℕ_discrete i l) [
        | yes d ↦
            ap cells.low (
              frames_before cells word bufs period ps c p.out n (i + 1) l taken' m' (outs_at ps c e)
                a (omega arith) (omega arith))
            ∙ ap (λ z. cells.low (m' (writer bufs p.out + z))) (sym d)
            ∙ frame_at ps c i p taken m e a (omega arith)
            ∙ ap (word p.rx_fifo) (
                same_frame l i (count_fifo p.rx_fifo ps) (taken p.rx_fifo)
                  (count_fifo p.rx_fifo (take c ps)) d)
        | no d ↦
            frames_at ps c n (i + 1) l p taken' m' e a (omega arith) (omega arith) (omega arith)
            ∙ ap (word p.rx_fifo) (
                ap
                  (λ k.
                    k + (l - (i + 1)) * count_fifo p.rx_fifo ps + count_fifo p.rx_fifo (take c ps))
                  (frame_taken cells word bufs ps i p.rx_fifo taken m)
                ∙ next_frame l i (count_fifo p.rx_fifo ps) (taken p.rx_fifo)
                    (count_fifo p.rx_fifo (take c ps)) (omega arith))
      ]

  -- The loop of a run that reads the FIFOs takes from each a period of words for each of its channels, one channel after
  -- the other in every frame: before the conversion the sample `l` of a channel's buffer holds the word of its FIFO
  -- behind those of the earlier frames and of the earlier channels, if the buffers' places for a period are apart.
  pub fill_frames_lem :
      (ps : List SaiMap) (c l : ℕ) (p : SaiMap) (taken : ℕ → ℕ) (m : Memory A)
      → get_elem? ps c ≡ some p
      → AllApart period bufs (outs ps)
      → l < period
      → (cells.low ((fill_frames cells word ps period 0 bufs (taken, m)).1 (writer bufs p.out + l))
          ≡ word p.rx_fifo
              (taken p.rx_fifo + l * count_fifo p.rx_fifo ps + count_fifo p.rx_fifo (take c ps)))
        × ((fill_frames cells word ps period 0 bufs (taken, m)).0 p.rx_fifo
            ≡ taken p.rx_fifo + period * count_fifo p.rx_fifo ps)
  fill_frames_lem ps c l p taken m e a h = (
    frames_at ps c period 0 l p taken m e a (omega arith) (omega arith) (omega arith)
        ∙ ap
            (λ k.
              word p.rx_fifo
                (taken p.rx_fifo + k * count_fifo p.rx_fifo ps + count_fifo p.rx_fifo (take c ps)))
            {x = l - 0} {y = l} (omega arith),
    frames_taken cells word bufs ps period 0 p.rx_fifo taken m,
  )
