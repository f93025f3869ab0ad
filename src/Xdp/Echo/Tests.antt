-- ===== src/Xdp/Echo/Tests.antt =====
-- Two sockets, of which the second receives and the first sends.
use net_drv_ts.Base.{
  ℕ, zero, suc, ◌≤◌, ◌≡◌, refl, ap, true, false, some, List, [], ◌∷◌, Bytes, str_eq, length, ok,
  value_or, ⊤, arith,
}
use net_drv_ts.Xdp.Socket.{XdpSock, xdp_sock_init}
use net_drv_ts.Xdp.Echo.{
  max_data_len, EchoOps, xdp_echo, pick_rss_payload_len, send_payload, echo_back, poll_event,
  reported, event_sock, find_event, receive_packet, send_reply, echo_sock, find_tx_capable,
  receive_reply, compare_reply, require, require_some, mirrored,
}
use net_drv_ts.Xdp.Echo.Success.{xdp_echo-Echoed, Echoed}
use net_drv_ts.Xdp.Echo.Success.Payload.{RandLaw}

abbrev zeros : ℕ → Bytes
zeros zero = []
zeros (suc n) = 0 ∷ zeros n

abbrev ops : EchoOps ⊤
ops = record {
  rand_range = λ a b w. (ok a, w);
  fill_buf = λ n w. (ok (zeros n), w);
  sendto = λ b w. (ok (length b), w);
  pollin = 1;
  poll = λ fds w. (ok (1, 0 ∷ 1 ∷ []), w);
  xsk_receive = λ s w. (ok (7 ∷ 0 ∷ []), w);
  mirror_udp_packet = λ p. some p;
  xsk_send = λ s p w. (ok tt, w);
  readable = λ w. (ok true, w);
  recvfrom = λ w. (ok (0 ∷ [], 9 ∷ []), w);
  same_addr = λ a b. true;
  verdict = λ w. w;
}

abbrev socks : List XdpSock
socks =
    record xdp_sock_init { tx_capable = true; sock = 3; fd = some 5 }
    ∷ record xdp_sock_init { queue_id = 1; sock = 4; fd = some 6 }
    ∷ []

rand_lem : RandLaw ops
rand_lem a b v w w' h e =
    let same : a ≡ v = ap (λ q. value_or a q.0) e in (omega (arith, same), omega (arith, same, h))

xdp_echo-Echoed_example :
    (send_len : ℕ) × (send_buf : Bytes) × (v1 : ⊤) × (v2 : ⊤) × (v3 : ⊤) × (pick_rss_payload_len ops
        false max_data_len tt
      ≡ (ok send_len, v1))
    × (1 ≤ send_len)
    × (send_len ≤ 1024)
    × (ops.fill_buf send_len v1 ≡ (ok send_buf, v2))
    × (ops.sendto send_buf v2 ≡ (ok send_len, v3))
    × Echoed ops (9 ∷ []) socks 1 send_buf send_len v3 tt
unfolding str_eq xdp_echo pick_rss_payload_len send_payload echo_back poll_event reported event_sock
    find_event receive_packet send_reply echo_sock find_tx_capable receive_reply compare_reply
    require require_some mirrored
xdp_echo-Echoed_example = xdp_echo-Echoed ops rand_lem (9 ∷ []) socks 1 false tt tt refl
