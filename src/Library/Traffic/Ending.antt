-- ===== src/Library/Traffic/Ending.antt =====
-- When the receiving loop ends, and when it does not.
use mathlib.Core.List.{append-nil}
use net_drv_ts.Base.{
  ℕ, zero, suc, ◌+◌, ◌-◌, ◌<◌, ◌≤◌, ◌≡◌, ◌≢◌, refl, ◌∙◌, Bool, true, false, Option, none, [], ◌++◌,
  Bytes, length, length-append, leb, Result, ok, err, ends, arith, Bool-cases, inl, inr,
}
use net_drv_ts.Library.Traffic.{
  SocketOps, received, recv_loop, finish_recv, after_send, sendto_recv_check_gen, jumbo_pkt_len_max,
}

module _ {W : Type 0} (o : SocketOps W) where
  -- Every `recv` that has room returns data.
  abbrev pub NeverEmpty : Type 0
  NeverEmpty =
      (room : ℕ) (w w' : W) (bs : Bytes) → 0 < room → o.recv room w ≡ (ok bs, w') → 0 < length bs

  received-ne-none :
      (fuel len : ℕ) (got : Bytes) (w : W) (p : Result Bytes × W)
      (more : Bytes → W → Option (Result Bytes × W))
      → NeverEmpty
      → length got < len
      → len ≤ jumbo_pkt_len_max
      → o.recv (jumbo_pkt_len_max - length got) w ≡ p
      → len ≤ length got + suc fuel
      → ((got' : Bytes) (w' : W)
          → length got' < len
          → len ≤ length got' + fuel
          → more got' w' ≢ none)
      → received len got p more ≢ none
  unfolding received
  received-ne-none fuel len got w (ok bs, w') more ne lt max e h k =
      elim (Bool-cases (leb len (length (got ++ bs)))) [
        | inl enough ↦ rw enough (λ c. cc)
        | inr few ↦ rw few (
            k (got ++ bs) w' (ground arith) (
              omega (
                arith,
                length-append got bs,
                ne (jumbo_pkt_len_max - length got) w w' bs (omega arith) e,
              )))
      ]
  received-ne-none fuel len got w (err x, w') more ne lt max e h k = λ c. cc
  received-ne-none fuel len got w (ends j, w') more ne lt max e h k = λ c. cc

  recv_loop-ne-none :
      (fuel len : ℕ) (got : Bytes) (r : Bool) (w : W)
      → NeverEmpty
      → len ≤ jumbo_pkt_len_max
      → length got < len
      → len ≤ length got + fuel
      → recv_loop o fuel len got r w ≢ none
  unfolding recv_loop
  recv_loop-ne-none fuel len got false w ne max h f = λ c. cc
  recv_loop-ne-none zero len got true w ne max h f = absurd (omega arith)
  recv_loop-ne-none (suc fuel) len got true w ne max h f =
      received-ne-none fuel len got w _ _ ne h max refl f (λ got' w' h' f'.
        recv_loop-ne-none fuel len got' (o.readable w').0 (o.readable w').1 ne max h' f')

  after_send-ne-none :
      (fuel : ℕ) (may_loss : Bool) (buf : Bytes) (p : Result ℕ × W)
      → NeverEmpty
      → 0 < length buf
      → length buf ≤ jumbo_pkt_len_max
      → length buf ≤ fuel
      → after_send o fuel may_loss buf p ≢ none
  unfolding after_send finish_recv
  after_send-ne-none fuel may_loss buf (ok n, v) ne h max f =
      let u = (o.readable v).1 in
      ground (arith, recv_loop-ne-none fuel (length buf) [] true u ne max h (omega arith))
  after_send-ne-none fuel may_loss buf (err e, v) ne h max f = λ c. cc
  after_send-ne-none fuel may_loss buf (ends j, v) ne h max f = λ c. cc

  -- Where no `recv` of a readable socket returns 0 bytes, the check of a nonempty buffer ends,
  -- after at most as many rounds of its loop as there are bytes to receive.
  pub sendto_recv_check_terminates :
      (fuel : ℕ) (may_loss : Bool) (buf : Bytes) (w : W)
      → NeverEmpty
      → 0 < length buf
      → length buf ≤ jumbo_pkt_len_max
      → length buf ≤ fuel
      → sendto_recv_check_gen o fuel may_loss buf w ≢ none
  unfolding sendto_recv_check_gen
  sendto_recv_check_terminates fuel may_loss buf w ne h max f =
      after_send-ne-none fuel may_loss buf (o.send buf w) ne h max f

-- The peer has closed the connection: the socket stays readable, and every `recv` returns 0 bytes.
pub record IsClosed {W : Type 0} (o : SocketOps W) : Type 0 where
  pub sends : (b : Bytes) (w : W) → (o.send b w).0 ≡ ok (length b)
  pub stays_readable : (w : W) → (o.readable w).0 ≡ true
  pub end_of_file : (room : ℕ) (w : W) → (o.recv room w).0 ≡ ok []

module _ {W : Type 0} (o : SocketOps W) (closed : IsClosed o) where
  open closed use {sends, stays_readable, end_of_file}

  received_nothing :
      (len : ℕ) (got : Bytes) (p : Result Bytes × W) (more : Bytes → W → Option (Result Bytes × W))
      → p.0 ≡ ok []
      → length got < len
      → received len got p more ≡ more got p.1
  unfolding received
  received_nothing len got (ok bs, w') more e h =
      let nil : bs ≡ [] = ground arith in rw (nil, append-nil got) (ground arith)
  received_nothing len got (err x, w') more e h = absurd (ground arith)
  received_nothing len got (ends j, w') more e h = absurd (ground arith)

  recv_loop_stuck :
      (fuel len : ℕ) (got : Bytes) (w : W)
      → length got < len
      → recv_loop o fuel len got true w ≡ none
  unfolding recv_loop
  recv_loop_stuck zero len got w h = refl
  recv_loop_stuck (suc fuel) len got w h =
      let v = (o.recv (jumbo_pkt_len_max - length got) w).1 in
      received_nothing len got _ _ (end_of_file _ w) h
      ∙ rw (stays_readable v) (recv_loop_stuck fuel len got (o.readable v).1 h)

  -- On a connection that the peer has closed the loop never ends, whatever the fuel: a `recv` that
  -- returns 0 is taken for data.
  pub sendto_recv_check_stuck :
      (fuel : ℕ) (may_loss : Bool) (buf : Bytes) (w : W)
      → 0 < length buf
      → sendto_recv_check_gen o fuel may_loss buf w ≡ none
  unfolding sendto_recv_check_gen
  sendto_recv_check_stuck fuel may_loss buf w h = after_send_stuck (o.send buf w) (sends buf w)
    where
      after_send_stuck :
          (p : Result ℕ × W) → p.0 ≡ ok (length buf) → after_send o fuel may_loss buf p ≡ none
      after_send_stuck (ok n, v) e =
          unfold after_send finish_recv in
          (ground
            (arith, stays_readable v, recv_loop_stuck fuel (length buf) [] (o.readable v).1 h))
      after_send_stuck (err x, v) e = absurd (ground arith)
      after_send_stuck (ends j, v) e = absurd (ground arith)
