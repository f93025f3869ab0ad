-- ===== src/Library/Traffic.antt =====
-- net_drv_sendto_recv_check_gen() of net-drv-ts/lib/net_drv_ts.c: data is sent from one socket and
-- read from another one until all of it is there.
pub mod Loop
pub mod Ending
mod Tests
use net_drv_ts.Base.{
  ℕ, zero, suc, ◌-◌, ◌≡◌, Bool, true, false, not, Option, none, some, [], ◌++◌, Bytes, str_eq,
  length, leb, ◌==◌, if◌then◌else◌, M, Result, ok, err, ends, test_verdict,
}

abbrev pub max_pkt_len : ℕ
max_pkt_len = 1024

abbrev pub jumbo_pkt_len_min : ℕ
jumbo_pkt_len_min = 4096

abbrev pub jumbo_pkt_len_max : ℕ
jumbo_pkt_len_max = 8192

-- The bounds that `rand_range` is given for the length.
unfoldable pub len_range : Bool → ℕ × ℕ
len_range jumbo = if jumbo then (jumbo_pkt_len_min, jumbo_pkt_len_max) else (1, max_pkt_len)

-- `send` stands for `sendto` or `send`, as the destination address is given or not. `recv` has the
-- room that is left in the buffer, and a receiver is asked whether it is readable within
-- TAPI_WAIT_NETWORK_DELAY.
pub record SocketOps (W : Type 0) : Type 0 where
  pub send : Bytes → M W ℕ
  pub readable : W → Bool × W
  pub recv : ℕ → M W Bytes

-- After a `recv`: an error is a verdict, and the loop is left once `len` bytes are there.
unfoldable pub received :
    {W : Type 0}
    → ℕ
    → Bytes
    → Result Bytes × W
    → (Bytes → W → Option (Result Bytes × W))
    → Option (Result Bytes × W)
received len got (ok bs, w) more =
    if leb len (length (got ++ bs)) then some (ok (got ++ bs), w) else more (got ++ bs) w
received len got (err e, w) more = some (ends test_verdict, w)
received len got (ends j, w) more = some (ends j, w)

module _ {W : Type 0} (o : SocketOps W) where
  -- `while (readable)`, with the bytes that the buffer holds so far; `none` is a loop that has not
  -- ended within the fuel.
  unfoldable pub recv_loop : ℕ → ℕ → Bytes → Bool → W → Option (Result Bytes × W)
  recv_loop fuel len got false w = some (ok got, w)
  recv_loop zero len got true w = none
  recv_loop (suc fuel) len got true w =
      received len got (o.recv (jumbo_pkt_len_max - length got) w)
        (λ got' w'. recv_loop fuel len got' (o.readable w').0 (o.readable w').1)

  -- The comparison with what was sent.
  unfoldable pub compared : Bytes → Result Bytes → Result ℕ
  compared buf (ok got) = if str_eq buf got then ok (length buf) else ends test_verdict
  compared buf (err e) = err e
  compared buf (ends j) = ends j

  unfoldable pub finish_recv : Bytes → Option (Result Bytes × W) → Option (Result ℕ × W)
  finish_recv buf none = none
  finish_recv buf (some (r, w)) = some (compared buf r, w)

  unfoldable pub after_send : ℕ → Bool → Bytes → Result ℕ × W → Option (Result ℕ × W)
  after_send fuel may_loss buf (ok n, w) =
      let (readable, w') = o.readable w in
      if not (n == length buf)
      then some (ends test_verdict, w)
      else if readable
      then finish_recv buf (recv_loop fuel (length buf) [] true w')
      else some ((if may_loss then ok 0 else ends test_verdict), w')
  after_send fuel may_loss buf (err e, w) = some (ends test_verdict, w)
  after_send fuel may_loss buf (ends j, w) = some (ends j, w)

  -- The whole function for the data `buf` to send.
  unfoldable pub sendto_recv_check_gen : ℕ → Bool → Bytes → W → Option (Result ℕ × W)
  sendto_recv_check_gen fuel may_loss buf w = after_send fuel may_loss buf (o.send buf w)
