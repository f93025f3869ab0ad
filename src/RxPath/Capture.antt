-- ===== src/RxPath/Capture.antt =====
-- What the callbacks of the two Rx coalescing tests (net-drv-ts/rx_path/rx_coalesce_usecs.c,
-- rx_coalesce_frames.c) share: the fields of test_cb_args that both have, the callback for packets of
-- Tester, and the part of finish_pkt_group() on packets sent after a big delay.
pub mod Delays
pub mod Passing
pub mod Late
use net_drv_ts.Base.{
  ℕ, zero, suc, ◌+◌, ◌-◌, ◌*◌, ◌%◌, ◌^◌, Bool, true, false, not, ◌&&◌, none, some, Option, List, [],
  ◌∷◌, ◌++◌, length, get_elem?, ltb, ◌==◌, if◌then◌else◌, ℤ, pos, negsuc, Result, ok, err, ends,
}
use net_drv_ts.RxPath.PacketId.{Packet, get_pkt_id}

-- The counters are `unsigned int`; `cur_delayed_idx` is at most the length of the vector, and does not
-- wrap around.
pub record Capture (T : Type 0) : Type 0 where
  pub pkt_send_delay : ℕ
  pub delayed_pkt_ids : List ℕ
  pub cur_delayed_idx : ℕ
  pub prev_ts : T
  pub n_pkts : ℕ
  pub cur_pkt_id : ℕ
  pub n_groups : ℕ
  pub failed : Bool

-- `a > m` of a signed number of microseconds
abbrev pub above : ℤ → ℕ → Bool
above (pos n) m = ltb m n
above (negsuc _) m = false

-- TE_VEC_GET() into an `unsigned int`
unfoldable pub delayed_id : List ℕ → ℕ → ℕ
delayed_id ids i = elim (get_elem? ids i) [ none ↦ 0 | some id ↦ id % 2 ^ 32 ]

-- The loop over cur_delayed_idx: `left` is the size of the vector less the index.
unfoldable pub advance : List ℕ → ℕ → ℕ → ℕ → ℕ
unfolding delayed_id
advance ids cur_pkt_id zero i = i
advance ids cur_pkt_id (suc left) i =
    let rest = advance ids cur_pkt_id left (suc i) in
    if ltb cur_pkt_id (delayed_id ids i) then i else rest

-- skip_group, and the index behind the delayed packets up to the current one
unfoldable pub passing : List ℕ → ℕ → ℕ → Bool × ℕ
unfolding advance
passing ids i cur_pkt_id =
    if ltb i (length ids) && not (ltb cur_pkt_id (delayed_id ids i))
    then (true, advance ids cur_pkt_id (length ids - suc i) (suc i))
    else (false, i)

module _ {T : Type 0} where
  unfoldable pub pass_delayed : Capture T → Bool × Capture T
  unfolding passing
  pass_delayed c =
      let (skip_group, i) = passing c.delayed_pkt_ids c.cur_delayed_idx c.cur_pkt_id in
      (skip_group, record c { cur_delayed_idx = i })

  unfoldable pub numbered : Result ℕ → T → Capture T → Option T × Capture T
  numbered (ok id) ts c = (some ts, record c { cur_pkt_id = id })
  numbered (err e) ts c = (none, record c { failed = true })
  numbered (ends j) ts c = (none, record c { failed = true })

  unfoldable pub timed : Bool → Packet T → Result T → Capture T → Option T × Capture T
  unfolding numbered
  timed little pkt (ok ts) c = numbered (get_pkt_id little pkt) ts c
  timed little pkt (err e) c = (none, record c { failed = true })
  timed little pkt (ends j) c = (none, record c { failed = true })

  -- The common beginning of the callbacks: the timestamp of a packet that is processed further
  unfoldable pub begin_pkt : Bool → Packet T → Capture T → Option T × Capture T
  unfolding timed
  begin_pkt little pkt c =
      let c1 = record c { n_pkts = (c.n_pkts + 1) % 2 ^ 32 } in
      if c.failed then (none, c1) else timed little pkt pkt.ts c1

  -- `sub` is TIMEVAL_SUB().
  unfoldable pub note_delay : (T → T → ℤ) → Option T × Capture T → Capture T
  note_delay sub (none, c) = c
  note_delay sub (some ts, c) =
      if not (c.n_pkts == 1) && above (sub ts c.prev_ts) ((c.pkt_send_delay * 5) % 2 ^ 32)
      then record c { delayed_pkt_ids = c.delayed_pkt_ids ++ (c.cur_pkt_id ∷ []); prev_ts = ts }
      else record c { prev_ts = ts }

  unfoldable pub process_tx_pkts : (T → T → ℤ) → Bool → Packet T → Capture T → Capture T
  unfolding begin_pkt note_delay
  process_tx_pkts sub little pkt c = note_delay sub (begin_pkt little pkt c)

  -- tapi_tad_trrecv_stop() calls the callback for each captured packet.
  unfoldable pub capture_all : {S : Type 0} → (Packet T → S → S) → List (Packet T) → S → S
  capture_all callback [] s = s
  capture_all callback (pkt ∷ pkts) s = capture_all callback pkts (callback pkt s)
