-- ===== src/Xdp/Echo/Success.antt =====
-- What a success of net_drv_xdp_echo() means: the parts below composed.
mod Calls
pub mod Payload
use mathlib.Core.Path.{subst}
use net_drv_ts.Base.{
  ℕ, ◌<◌, ◌≤◌, ◌≡◌, ◌≢◌, ◌∙◌, inl, inr, refl, ap, ap₂, sym, Bool, true, false, not, ◌&&◌, none,
  some, Option, ⊤, List, map, Bytes, length, str_eq, eq_of_str_eq, ◌==◌, ltb, leb, if◌then◌else◌, M,
  TeErrno, handled, Result, ok, err, ends, test_fail, test_stop, pure, jump, on_error, ◌>>=◌, ◌>>◌,
  >>=-eq-ok, value_or, Bool-cases, arith,
}
use net_drv_ts.Xdp.Socket.{XdpSock}
use net_drv_ts.Xdp.Echo.{
  EchoOps, compare_reply, event_sock, reported, max_data_len, find_event, echo_sock,
  pick_rss_payload_len, require, require_some, mirrored, poll_event, receive_packet, send_reply,
  receive_reply, xdp_echo,
}
use net_drv_ts.Xdp.Echo.Event.{EventAt, first-EventAt, echo_sock-capable}
use net_drv_ts.Xdp.Echo.{echo_back, send_payload}
use net_drv_ts.Xdp.Echo.Success.Calls.{
  poll_event-EventAt, receive_packet-eq-ok, receive_reply-eq-ok, send_reply-eq-ok,
  mirrored>>=-eq-ok,
}
use net_drv_ts.Xdp.Echo.Success.Payload.{RandLaw, pick_rss_payload_len-bounds, send_payload-eq-ok}

module _ {W : Type 0} (o : EchoOps W) where
  -- What a success of the echo rests on, call by call from the world `w` to `w'`: what poll() reported,
  -- the socket that received a packet longer than the payload, what was sent back, and what the UDP
  -- socket got.
  abbrev pub Echoed : Bytes → List XdpSock → ℕ → Bytes → ℕ → W → W → Type 0
  Echoed dst_addr socks exp_sock send_buf send_len w w' =
      (revents : List ℕ) × (s : XdpSock) × (sender : XdpSock) × (packet : Bytes) × (reply : Bytes)
      × (from : Bytes) × (v1 : W) × (v2 : W) × (v3 : W) × (v4 : W) × (o.poll (map (λ s. s.fd) socks)
            w
          ≡ (ok (1, revents), v1))
      × EventAt socks revents exp_sock s o.pollin
      × (o.xsk_receive s.sock v1 ≡ (ok packet, v2))
      × (send_len < length packet)
      × (o.mirror_udp_packet packet ≡ some reply)
      × (echo_sock socks s ≡ some sender)
      × (sender.tx_capable ≡ true)
      × (o.xsk_send sender.sock reply v2 ≡ (ok tt, v3))
      × (o.readable v3 ≡ (ok true, v4))
      × (o.recvfrom v4 ≡ (ok (send_buf, from), w'))
      × (o.same_addr dst_addr from ≡ true)

  echo_back-Echoed :
      (dst_addr : Bytes) (socks : List XdpSock) (exp_sock send_len : ℕ) (send_buf : Bytes)
      (w w' : W)
      → echo_back o dst_addr socks exp_sock send_len send_buf w ≡ (ok tt, w')
      → Echoed dst_addr socks exp_sock send_buf send_len w w'
  unfolding echo_back
  echo_back-Echoed dst_addr socks exp_sock send_len send_buf w w' e =
      let last : M W ⊤ = receive_reply o dst_addr send_buf send_len in
      let answer : XdpSock → Bytes → M W ⊤ = λ s packet.
        mirrored o (o.mirror_udp_packet packet) >>= λ reply. (send_reply o socks s reply >> last) in
      let (s, w1, event, e1) =
        >>=-eq-ok (poll_event o socks exp_sock) (λ s. receive_packet o send_len s >>= answer s) w
          {b = tt} {u = w'} e in
      let (packet, w2, got, e2) =
        >>=-eq-ok (receive_packet o send_len s) (answer s) w1 {b = tt} {u = w'} e1 in
      let (reply, mirror, e3) =
        mirrored>>=-eq-ok o (o.mirror_udp_packet packet)
          (λ reply. send_reply o socks s reply >> last) w2 w' e2 in
      let (_, w3, done, e4) =
        >>=-eq-ok (send_reply o socks s reply) (λ _. last) w2 {b = tt} {u = w'} e3 in
      let (revents, polled, at) = poll_event-EventAt o socks exp_sock s w w1 event in
      let (taken, longer) = receive_packet-eq-ok o send_len s packet w1 w2 got in
      let (sender, chosen, passed) = send_reply-eq-ok o socks s reply w2 w3 done in
      let (from, w4, asked, back, there) =
        receive_reply-eq-ok o dst_addr send_buf send_len w3 w' e4 in
      let (place, _, _, _) = at in
      (
        revents,
        s,
        sender,
        packet,
        reply,
        from,
        w1,
        w2,
        w3,
        w4,
        polled,
        at,
        taken,
        longer,
        mirror,
        chosen,
        (echo_sock-capable socks exp_sock s sender place chosen).0,
        passed,
        asked,
        back,
        there,
      )

  -- Where the random numbers are in their range, a success of the echo means that a payload of a length
  -- in range was filled and sent, that poll() then reported one event, POLLIN of the expected socket
  -- and none of a socket before it, that this socket received a packet longer than the payload, that
  -- the packet's mirror was sent by a socket able to send, and that the UDP socket then was readable and
  -- got the payload back from the address it had sent it to.
  pub xdp_echo-Echoed :
      RandLaw o
      → (dst_addr : Bytes) (socks : List XdpSock) (exp_sock : ℕ) (jumbo : Bool) (w w' : W)
      → xdp_echo o dst_addr socks exp_sock jumbo w ≡ (ok tt, w')
      → (send_len : ℕ) × (send_buf : Bytes) × (v1 : W) × (v2 : W) × (v3 : W) × (pick_rss_payload_len
            o jumbo max_data_len w
          ≡ (ok send_len, v1))
        × (1 ≤ send_len)
        × (send_len ≤ (if jumbo then 8192 else 1024))
        × (o.fill_buf send_len v1 ≡ (ok send_buf, v2))
        × (o.sendto send_buf v2 ≡ (ok send_len, v3))
        × Echoed dst_addr socks exp_sock send_buf send_len v3 w'
  unfolding xdp_echo
  xdp_echo-Echoed rand dst_addr socks exp_sock jumbo w w' e =
      let echo : ℕ → M W ⊤ =
        λ len. send_payload o len >>= echo_back o dst_addr socks exp_sock len in
      let (len, w1, picked, e1) =
        >>=-eq-ok (pick_rss_payload_len o jumbo max_data_len) echo w {b = tt} {u = w'} e in
      let (buf, w2, passed, e2) =
        >>=-eq-ok (send_payload o len) (echo_back o dst_addr socks exp_sock len) w1 {b = tt}
          {u = w'} e1 in
      let (low, _, high, _) =
        pick_rss_payload_len-bounds o rand jumbo max_data_len len w w1 picked in
      let (v, filled, done) = send_payload-eq-ok o len buf w1 w2 passed in
      (
        len,
        buf,
        w1,
        v,
        w2,
        picked,
        low,
        high,
        filled,
        done,
        echo_back-Echoed dst_addr socks exp_sock len buf w2 w' e2,
      )
