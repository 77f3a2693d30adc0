-- ===== src/Audio/Avtp/Source/Setup.antt =====
-- audio/audio_element_avtp_source.c: the reset and the set-up of a source.
use rtos_apps.Base.{
  suc, ◌≡◌, ◌≢◌, refl, All, ℕ, zero, ◌+◌, Bool, true, false, Option, none, some, List, [], ◌∷◌,
  take, drop, ◌++◌, Memory,
}
use rtos_apps.Audio.Pipeline.Table.{Element}
use rtos_apps.Audio.Routing.{Buffers, put}
use rtos_apps.Audio.Avtp.Defs.{Cells}
use rtos_apps.Audio.Avtp.Source.{AvtpStream, AvtpSource, avtp_rx_channel_n}
use rtos_apps.Audio.Avtp.Source.Run.{reset_channels}

-- The loop of the reset that empties a stream, over what the reads give, none for an error: the reads that are left
-- when it ends. It has not ended within the reads if there is no result; without a handle it ends at once.
unfoldable pub drain : Bool → List (Option ℕ) → Option (List (Option ℕ))
drain false rs = some rs
drain true [] = none
drain true (some zero ∷ rs) = some rs
drain true (r ∷ rs) = drain true rs

-- The streams of `avtp_source_element_reset`, and its buffers.
unfoldable pub restart_streams : List AvtpStream → List AvtpStream
restart_streams [] = []
restart_streams (st ∷ sts) = record st { first_start = true } ∷ restart_streams sts

module _ {A : Type 0} (cells : Cells A) where
  unfoldable pub avtp_source_element_reset :
      AvtpSource → Buffers × Memory A → AvtpSource × Buffers × Memory A
  unfolding restart_streams reset_channels
  avtp_source_element_reset avtp s =
      let (bufs, m) = reset_channels cells avtp.out s in
      (
        record avtp {
          stream =
              restart_streams (take avtp.stream_n avtp.stream) ++ drop avtp.stream_n avtp.stream;
        },
        bufs,
        m,
      )

-- The channels of a stream in the set-up, of which `k` is the number over all streams.
unfoldable pub mark_channels : Element → ℕ → List ℕ → Buffers → Buffers
mark_channels e k [] bufs = bufs
mark_channels e k (p ∷ ps) bufs = mark_channels e (k + 1) ps (
    put bufs p
      (record (bufs p) { input_type = e.type; input_element_id = e.element_id; input_id = k }))

-- The first loop of `avtp_source_element_init`, over the flags of the configured streams, from the output `k` on.
unfoldable pub init_streams :
    Element → List ℕ → ℕ → List (ℕ × AvtpStream) → Buffers → List AvtpStream × Buffers
unfolding mark_channels
init_streams e out k [] bufs = ([], bufs)
init_streams e out k ((flags, st) ∷ rest) bufs =
    let chans = take avtp_rx_channel_n (drop k out) in
    let (sts, bufs') =
      init_streams e out (k + avtp_rx_channel_n) rest (mark_channels e k chans bufs) in
    (record st { connected = false; connection_flags = flags; channel_buf = chans } ∷ sts, bufs')

-- Reads that never give 0 bytes, such as those of a stream in error, keep the loop going.
pub drain_stays : (rs : List (Option ℕ)) → All (λ r. r ≢ some 0) rs → drain true rs ≡ none
unfolding drain
drain_stays [] h = refl
drain_stays (none ∷ rs) h = drain_stays rs h.1
drain_stays (some zero ∷ rs) h = absurd (h.0 refl)
drain_stays (some (suc n) ∷ rs) h = drain_stays rs h.1
