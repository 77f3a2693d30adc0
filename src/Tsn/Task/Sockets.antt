-- ===== src/Tsn/Task/Sockets.antt =====
-- tsn/tsn_task.c: reception and transmission of one socket. `pkts`, `rc` and `ready` are the results of
-- the AVB stack, which are negative on an error; the sizes of the headers are those of its headers.
use rtos_apps.Base.{
  ℕ, zero, suc, ◌+◌, ◌-◌, ◌*◌, ◌≤◌, ◌<◌, ◌≡◌, ◌≢◌, ◌↔◌, ◌⊎◌, refl, arith, Bool, true, false, Option,
  none, some, ltb, ◌==◌, if◌then◌else◌, add32,
}
use rtos_apps.Base.Int.{ℤ, pos, negsuc}
use rtos_apps.Tsn.Task.{NetSocket}

-- The results of `enum net_flags`.
pub data NetStatus : Type 0 where
  net_ok net_no_frame net_err : NetStatus

-- A count of packets, which is 0 for an error.
abbrev pub count : ℤ → ℕ
count (pos n) = n
count (negsuc n) = 0

abbrev pub is : ℤ → ℕ → Bool
is (pos m) n = m == n
is (negsuc m) n = false

-- The socket, the status and the number of buffers given back. `stamp` is the time stamp, if there is one.
unfoldable pub tsn_net_receive_sock : ℤ → Option ℕ → NetSocket → NetSocket × NetStatus × ℕ
tsn_net_receive_sock pkts stamp s =
    if is pkts s.n
    then (
      record s {
        stats = record s.stats { frames = add32 s.stats.frames s.n };
        ts = elim stamp [ none ↦ s.ts | some t ↦ t ];
      },
      net_ok,
      0,
    )
    else (s, net_no_frame, (if s.zero_copy then count pkts else 0))

unfoldable pub tsn_net_transmit_fill_hdr : ℕ → ℕ → NetSocket → NetSocket
tsn_net_transmit_fill_hdr eth vlan s = record s { hdr_len = eth + vlan }

-- The rounds over the buffers.
unfoldable pub fill_hdrs : ℕ → ℕ → ℕ → NetSocket → NetSocket
unfolding tsn_net_transmit_fill_hdr
fill_hdrs zero eth vlan s = s
fill_hdrs (suc k) eth vlan s = fill_hdrs k eth vlan (tsn_net_transmit_fill_hdr eth vlan s)

-- With `rc` buffers allocated: the socket, the status and the number of buffers that are freed again,
-- from the first on.
unfoldable pub tsn_net_transmit_init : ℤ → ℕ → ℕ → NetSocket → NetSocket × NetStatus × ℕ
unfolding fill_hdrs
tsn_net_transmit_init rc eth vlan s =
    if is rc s.n
    then (fill_hdrs s.n eth vlan s, net_ok, 0)
    else (s, net_err, (if ltb 0 (count rc) then s.n - count rc else 0))

unfoldable pub tsn_net_transmit_done : ℤ → ℕ → NetSocket → NetSocket × NetStatus
tsn_net_transmit_done ready n s =
    if s.tx_pending
    then (if is ready n then (record s { tx_pending = false }, net_ok) else (s, net_err))
    else (s, net_ok)

unfoldable pub tsn_net_transmit_sock : ℤ → NetSocket → NetSocket × NetStatus
tsn_net_transmit_sock rc s =
    if is rc s.n
    then (
      record s { stats = record s.stats { frames = add32 s.stats.frames s.n }; tx_pending = true },
      net_ok,
    )
    else (
      record s {
        stats = record s.stats { err = add32 s.stats.err s.n };
        tx_pending = if ltb 0 (count rc) then true else s.tx_pending;
      },
      net_err,
    )

-- The offset of the payload in a buffer, which is behind the headers in a buffer without copies.
unfoldable pub tsn_net_payload : Bool → ℕ → ℕ → NetSocket → ℕ
tsn_net_payload tagged eth vlan s = if s.zero_copy then eth + (if tagged then vlan else 0) else 0

-- A reception keeps the frames exactly if all came, and gives back those that came otherwise.
pub receive_sock_lem :
    (pkts : ℤ) (stamp : Option ℕ) (s : NetSocket)
    → s.zero_copy ≡ true
    → ((tsn_net_receive_sock pkts stamp s).1 ≡ net_ok
        × (pkts ≡ pos s.n)
        × ((tsn_net_receive_sock pkts stamp s).2 ≡ 0)
        × ((tsn_net_receive_sock pkts stamp s).0.stats.frames ≡ add32 s.stats.frames s.n))
      ⊎ ((tsn_net_receive_sock pkts stamp s).1 ≡ net_no_frame
          × (pkts ≢ pos s.n)
          × ((tsn_net_receive_sock pkts stamp s).2 ≡ count pkts)
          × ((tsn_net_receive_sock pkts stamp s).0 ≡ s))
unfolding tsn_net_receive_sock
receive_sock_lem pkts stamp s zc = ground arith

-- A failed allocation of transmission buffers gives back as many as were allocated exactly if these are
-- none or half of what was asked for.
pub transmit_init_frees :
    (rc : ℤ) (eth vlan : ℕ) (s : NetSocket)
    → rc ≢ pos s.n
    → count rc ≤ s.n
    → ((tsn_net_transmit_init rc eth vlan s).2 ≡ count rc) ↔ ((count rc ≡ 0) ⊎ (2 * count rc ≡ s.n))
unfolding tsn_net_transmit_init
transmit_init_frees rc eth vlan s ne le = ground arith

fill_hdrs_keeps :
    (k eth vlan : ℕ) (s : NetSocket)
    → ((fill_hdrs k eth vlan s).zero_copy ≡ s.zero_copy)
      × ((fill_hdrs k eth vlan s).opened ≡ s.opened)
      × ((fill_hdrs k eth vlan s).iovec ≡ s.iovec)
      × (s.hdr_len ≡ eth + vlan → (fill_hdrs k eth vlan s).hdr_len ≡ eth + vlan)
unfolding fill_hdrs tsn_net_transmit_fill_hdr
fill_hdrs_keeps zero eth vlan s = (refl, refl, refl, λ h. h)
fill_hdrs_keeps (suc k) eth vlan s =
    let ih = fill_hdrs_keeps k eth vlan (tsn_net_transmit_fill_hdr eth vlan s) in
    (ih.0, ih.1, ih.2, λ h. ih.3 refl)

fill_hdrs-hdr_len :
    (k eth vlan : ℕ) (s : NetSocket) → 0 < k → (fill_hdrs k eth vlan s).hdr_len ≡ eth + vlan
unfolding fill_hdrs tsn_net_transmit_fill_hdr
fill_hdrs-hdr_len zero eth vlan s lt = omega arith
fill_hdrs-hdr_len (suc k) eth vlan s lt =
    (fill_hdrs_keeps k eth vlan (tsn_net_transmit_fill_hdr eth vlan s)).3 refl

pub transmit_init_keeps :
    (rc : ℤ) (eth vlan : ℕ) (s : NetSocket)
    → ((tsn_net_transmit_init rc eth vlan s).0.opened ≡ s.opened)
      × ((tsn_net_transmit_init rc eth vlan s).0.iovec ≡ s.iovec)
unfolding tsn_net_transmit_init
transmit_init_keeps rc eth vlan s =
    let h = fill_hdrs_keeps s.n eth vlan s in (ground arith, ground arith)

-- The tagged frames that the set-up prepares have their payload directly behind the headers written.
pub payload-transmit_init :
    (rc : ℤ) (eth vlan : ℕ) (s : NetSocket)
    → s.zero_copy ≡ true
    → 0 < s.n
    → (tsn_net_transmit_init rc eth vlan s).1 ≡ net_ok
    → tsn_net_payload true eth vlan (tsn_net_transmit_init rc eth vlan s).0
      ≡ (tsn_net_transmit_init rc eth vlan s).0.hdr_len
unfolding tsn_net_transmit_init tsn_net_payload
payload-transmit_init rc eth vlan s zc lt f =
    let h = fill_hdrs-hdr_len s.n eth vlan s lt in
    let z = (fill_hdrs_keeps s.n eth vlan s).0 in ground arith
