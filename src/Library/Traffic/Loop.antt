-- ===== src/Library/Traffic/Loop.antt =====
-- What a finished check means, and that the buffer is never overrun.
use mathlib.Core.List.{append-nil, append_assoc}
use net_drv_ts.Base.{
  ℕ, zero, suc, ◌-◌, ◌≤◌, ◌≡◌, refl, ap, sym, ◌∙◌, Bool, true, false, Option, none, some, [], ◌++◌,
  Bytes, ◌⊎◌, eq_of_str_eq, length, length-append, leb, Result, ok, err, ends, arith, Bool-cases,
  inl, inr,
}
use mathlib.Core.Option
use net_drv_ts.Library.Traffic.{
  SocketOps, received, recv_loop, compared, finish_recv, after_send, sendto_recv_check_gen,
  jumbo_pkt_len_max,
}

-- `delivered` is all that `recv` ever returned; `recv` returns no more than it has room for.
pub record SocketLaws {W : Type 0} (o : SocketOps W) : Type 0 where
  pub delivered : W → Bytes
  pub send_delivers : (b : Bytes) (w : W) → delivered (o.send b w).1 ≡ delivered w
  pub readable_delivers : (w : W) → delivered (o.readable w).1 ≡ delivered w
  pub recv_delivers :
      (room : ℕ) (w w' : W) (bs : Bytes)
      → o.recv room w ≡ (ok bs, w')
      → delivered w' ≡ delivered w ++ bs
  pub recv_fits :
      (room : ℕ) (w w' : W) (bs : Bytes) → o.recv room w ≡ (ok bs, w') → length bs ≤ room

module _ {W : Type 0} (o : SocketOps W) (laws : SocketLaws o) where
  open laws use {delivered, send_delivers, readable_delivers, recv_delivers, recv_fits}

  -- What the loop returns was delivered to it, behind what it began with, and fits the buffer.
  abbrev Gathered : Bytes → Bytes → Option (Result Bytes × W) → Type 0
  Gathered base got none = Unit
  Gathered base got (some (ok all, w)) =
      (delivered w ≡ base ++ all) × (length all ≤ jumbo_pkt_len_max)
  Gathered base got (some (err e, w)) = Unit
  Gathered base got (some (ends j, w)) = Unit

  received-Gathered :
      (base got : Bytes) (len : ℕ) (w : W) (p : Result Bytes × W)
      (more : Bytes → W → Option (Result Bytes × W))
      → length got ≤ jumbo_pkt_len_max
      → delivered w ≡ base ++ got
      → o.recv (jumbo_pkt_len_max - length got) w ≡ p
      → ((got' : Bytes) (w' : W)
          → length got' ≤ jumbo_pkt_len_max
          → delivered w' ≡ base ++ got'
          → Gathered base got' (more got' w'))
      → Gathered base got (received len got p more)
  unfolding received
  received-Gathered base got len w (ok bs, w') more fits d e k =
      let fits' : length (got ++ bs) ≤ jumbo_pkt_len_max =
        omega (arith, length-append got bs, recv_fits (jumbo_pkt_len_max - length got) w w' bs e) in
      let d' : delivered w' ≡ base ++ (got ++ bs) =
        rw (recv_delivers _ w w' bs e, d) (append_assoc base got bs) in
      elim (Bool-cases (leb len (length (got ++ bs)))) [
        | inl enough ↦ rw enough (d', fits')
        | inr few ↦ rw few (k (got ++ bs) w' fits' d')
      ]
  received-Gathered base got len w (err x, w') more fits d e k = tt
  received-Gathered base got len w (ends j, w') more fits d e k = tt

  recv_loop-Gathered :
      (base : Bytes) (fuel len : ℕ) (got : Bytes) (r : Bool) (w : W)
      → length got ≤ jumbo_pkt_len_max
      → delivered w ≡ base ++ got
      → Gathered base got (recv_loop o fuel len got r w)
  unfolding recv_loop
  recv_loop-Gathered base fuel len got false w fits d = (d, fits)
  recv_loop-Gathered base zero len got true w fits d = tt
  recv_loop-Gathered base (suc fuel) len got true w fits d =
      received-Gathered base got len w _ _ fits d refl (λ got' w' fits' d'.
        recv_loop-Gathered base fuel len got' (o.readable w').0 (o.readable w').1 fits'
          (readable_delivers w' ∙ d'))

  finish_recv-ok :
      (base buf : Bytes) (p : Option (Result Bytes × W)) (n : ℕ) (w' : W)
      → Gathered base [] p
      → finish_recv o buf p ≡ some (ok n, w')
      → (n ≡ length buf) × (delivered w' ≡ base ++ buf) × (length buf ≤ jumbo_pkt_len_max)
  unfolding finish_recv compared
  finish_recv-ok base buf none n w' g e = absurd (cc)
  finish_recv-ok base buf (some (ok all, w)) n w' g e = ground (arith, eq_of_str_eq buf all)
  finish_recv-ok base buf (some (err x, w)) n w' g e =
      absurd (cc (ap (λ q. Option.map (λ (t : Result ℕ × W). t.0) q) e))
  finish_recv-ok base buf (some (ends j, w)) n w' g e =
      absurd (cc (ap (λ q. Option.map (λ (t : Result ℕ × W). t.0) q) e))

  after_send-ok :
      (fuel : ℕ) (may_loss : Bool) (buf : Bytes) (n : ℕ) (w w' : W) (p : Result ℕ × W)
      → o.send buf w ≡ p
      → after_send o fuel may_loss buf p ≡ some (ok n, w')
      → ((n ≡ length buf) × (delivered w' ≡ delivered w ++ buf))
        ⊎ ((may_loss ≡ true) × (n ≡ 0) × (delivered w' ≡ delivered w))
  unfolding after_send
  after_send-ok fuel may_loss buf n w w' (ok k, v) s e =
      let u = (o.readable v).1 in
      let d : delivered u ≡ delivered w =
        readable_delivers v ∙ sym (ap (λ q. delivered q.1) s) ∙ send_delivers buf w in
      let g =
        recv_loop-Gathered (delivered w) fuel (length buf) [] true u (omega arith)
          (d ∙ sym (append-nil (delivered w))) in
      let fin = finish_recv-ok (delivered w) buf (recv_loop o fuel (length buf) [] true u) n w' g in
      ground (arith, d, fin)
  after_send-ok fuel may_loss buf n w w' (err x, v) s e = absurd (ground arith)
  after_send-ok fuel may_loss buf n w w' (ends j, v) s e = absurd (ground arith)

  -- Where the check returns, all that `recv` returned in its course is, byte for byte, the data
  -- that was sent, and the result is its length; or losses are allowed, nothing was received, and
  -- the result is 0.
  pub sendto_recv_check-delivered :
      (fuel : ℕ) (may_loss : Bool) (buf : Bytes) (n : ℕ) (w w' : W)
      → sendto_recv_check_gen o fuel may_loss buf w ≡ some (ok n, w')
      → ((n ≡ length buf) × (delivered w' ≡ delivered w ++ buf))
        ⊎ ((may_loss ≡ true) × (n ≡ 0) × (delivered w' ≡ delivered w))
  unfolding sendto_recv_check_gen
  sendto_recv_check-delivered fuel may_loss buf n w w' e =
      after_send-ok fuel may_loss buf n w w' (o.send buf w) refl e
