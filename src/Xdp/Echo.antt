-- ===== src/Xdp/Echo.antt =====
-- net_drv_xdp_echo() of net-drv-ts/rss/common_rss.c with the choice of the payload's length: a UDP
-- packet is received by an AF_XDP socket, mirrored, sent back and compared.
pub mod Event
pub mod Success
mod Tests
use net_drv_ts.Base.{
  ℕ, suc, ◌<◌, ◌≤◌, ◌≡◌, ◌∙◌, inl, inr, refl, ap, sym, Bool, true, false, not, ◌&&◌, ◌||◌, none,
  some, Option, ⊤, List, [], ◌∷◌, map, All, Bytes, length, str_eq, eq_of_str_eq, ◌==◌, ltb, leb,
  if◌then◌else◌, M, Result, ok, err, ends, test_fail, test_stop, test_verdict, pure, jump, on_error,
  ◌>>=◌, ◌>>◌, >>=-eq-ok, or_jump-eq-ok, Bool-cases, Option-cases, arith,
}
use net_drv_ts.Xdp.Socket.{XdpSock}

abbrev pub max_data_len : ℕ
max_data_len = 9000

-- The RPC calls, of which one that fails ends the test except xsk_send_simple(), the random
-- numbers, the mirroring of a packet, and ERROR_VERDICT(). poll() answers with the number of the
-- sockets that have events and the events of each.
pub record EchoOps (W : Type 0) : Type 0 where
  pub rand_range : ℕ → ℕ → M W ℕ
  pub fill_buf : ℕ → M W Bytes
  pub sendto : Bytes → M W ℕ
  pub pollin : ℕ
  pub poll : List (Option ℕ) → M W (ℕ × List ℕ)
  pub xsk_receive : ℕ → M W Bytes
  pub mirror_udp_packet : Bytes → Option Bytes
  pub xsk_send : ℕ → Bytes → M W ⊤
  pub readable : M W Bool
  pub recvfrom : M W (Bytes × Bytes)
  pub same_addr : Bytes → Bytes → Bool
  pub verdict : W → W

-- The first socket with events: its place, itself and its events
unfoldable pub find_event : ℕ → List XdpSock → List ℕ → Option (ℕ × XdpSock × ℕ)
find_event i [] _ = none
find_event i (s ∷ ss) [] = none
find_event i (s ∷ ss) (r ∷ rs) = if r == 0 then find_event (suc i) ss rs else some (i, s, r)

unfoldable pub find_tx_capable : List XdpSock → Option XdpSock
find_tx_capable [] = none
find_tx_capable (s ∷ ss) = if s.tx_capable then some s else find_tx_capable ss

-- The socket that sends the answer
unfoldable pub echo_sock : List XdpSock → XdpSock → Option XdpSock
unfolding find_tx_capable
echo_sock socks s = if s.tx_capable then some s else find_tx_capable socks

module _ {W : Type 0} (o : EchoOps W) where
  unfoldable pub pick_rss_payload_len : Bool → ℕ → M W ℕ
  pick_rss_payload_len jumbo hard_max =
      let len_min = (if jumbo then 4096 else 1) in
      let len_max = (if jumbo then 8192 else 1024) in
      if ltb len_min 1 || ltb len_max len_min || ltb hard_max len_max
      then jump test_verdict
      else o.rand_range len_min len_max

  -- A condition that is reported and stops the test where it fails.
  unfoldable pub require : Bool → M W ⊤
  require true w = (ok tt, w)
  require false w = (ends test_stop, o.verdict w)

  unfoldable pub require_some : {A : Type 0} → Option A → M W A
  require_some (some a) w = (ok a, w)
  require_some none w = (ends test_stop, o.verdict w)

  -- te_ipstack_mirror_udp_packet(), whose failure is not a verdict
  unfoldable pub mirrored : Option Bytes → M W Bytes
  mirrored (some reply) w = (ok reply, w)
  mirrored none w = (ends test_stop, w)

  -- The socket that poll() reports, which has to be the expected one with POLLIN
  unfoldable pub event_sock : ℕ → ℕ × XdpSock × ℕ → M W XdpSock
  unfolding require
  event_sock exp_sock (i, s, events) = do
    require (i == exp_sock)
    require (events == o.pollin)
    pure s

  unfoldable pub reported : List XdpSock → ℕ → ℕ → List ℕ → M W XdpSock
  unfolding require require_some event_sock
  reported socks exp_sock num revents = do
    require (not (num == 0))
    require (leb num 1)
    event ← require_some (find_event 0 socks revents)
    event_sock exp_sock event

  unfoldable pub poll_event : List XdpSock → ℕ → M W XdpSock
  unfolding reported
  poll_event socks exp_sock = do
    (num, revents) ← o.poll (map (λ s. s.fd) socks)
    reported socks exp_sock num revents

  unfoldable pub receive_packet : ℕ → XdpSock → M W Bytes
  unfolding require
  receive_packet send_len s = do
    packet ← o.xsk_receive s.sock
    require (not (leb (length packet) send_len))
    pure packet

  unfoldable pub send_reply : List XdpSock → XdpSock → Bytes → M W ⊤
  unfolding require_some
  send_reply socks s reply = do
    sender ← require_some (echo_sock socks s)
    on_error (o.xsk_send sender.sock reply) (λ _ w. (ends test_stop, o.verdict w))

  -- `memcmp` compares `send_len` bytes, all of `send_buf`, once that many were received.
  unfoldable pub compare_reply : Bytes → Bytes → ℕ → Bytes × Bytes → M W ⊤
  unfolding require
  compare_reply dst_addr send_buf send_len (recv_buf, recv_addr) = do
    require (length recv_buf == send_len && str_eq recv_buf send_buf)
    require (o.same_addr dst_addr recv_addr)

  unfoldable pub receive_reply : Bytes → Bytes → ℕ → M W ⊤
  unfolding require compare_reply
  receive_reply dst_addr send_buf send_len = do
    readable ← o.readable
    require readable
    answer ← o.recvfrom
    compare_reply dst_addr send_buf send_len answer

  -- What follows the sending of the packet
  unfoldable pub echo_back : Bytes → List XdpSock → ℕ → ℕ → Bytes → M W ⊤
  unfolding poll_event receive_packet send_reply receive_reply mirrored
  echo_back dst_addr socks exp_sock send_len send_buf = do
    s ← poll_event socks exp_sock
    packet ← receive_packet send_len s
    reply ← mirrored (o.mirror_udp_packet packet)
    send_reply socks s reply
    receive_reply dst_addr send_buf send_len

  unfoldable pub send_payload : ℕ → M W Bytes
  send_payload send_len = do
    send_buf ← o.fill_buf send_len
    sent ← o.sendto send_buf
    if sent == send_len then pure send_buf else jump test_fail

  unfoldable pub xdp_echo : Bytes → List XdpSock → ℕ → Bool → M W ⊤
  unfolding pick_rss_payload_len send_payload echo_back
  xdp_echo dst_addr socks exp_sock jumbo = do
    send_len ← pick_rss_payload_len jumbo max_data_len
    send_buf ← send_payload send_len
    echo_back dst_addr socks exp_sock send_len send_buf
