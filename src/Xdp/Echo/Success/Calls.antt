-- ===== src/Xdp/Echo/Success/Calls.antt =====
-- What a success of each part of net_drv_xdp_echo() of net-drv-ts/rss/common_rss.c rests on.
use mathlib.Core.Path.{subst}
use net_drv_ts.Base.{
  ℕ, ◌<◌, ◌≡◌, ◌≢◌, ◌∙◌, refl, ap, ap₂, Bool, true, false, not, ◌&&◌, none, some, Option, ⊤, List,
  map, Bytes, length, str_eq, eq_of_str_eq, ◌==◌, leb, M, TeErrno, handled, Result, ok, err, ends,
  test_stop, pure, on_error, ◌>>=◌, ◌>>◌, >>=-eq-ok, value_or, arith,
}
use net_drv_ts.Xdp.Socket.{XdpSock}
use net_drv_ts.Xdp.Echo.{
  EchoOps, compare_reply, event_sock, reported, find_event, echo_sock, require, require_some,
  mirrored, poll_event, receive_packet, send_reply, receive_reply,
}
use net_drv_ts.Xdp.Echo.Event.{EventAt, first-EventAt}

tuple_eq :
    {A B C : Type 0} {a x : A} {b y : B} {c z : C}
    → a ≡ x
    → b ≡ y
    → c ≡ z
    → ◌≡◌ {A = A × B × C} (a, b, c) (x, y, z)
tuple_eq h k l = cc (h, k, l)

sent :
    {W : Type 0} (f : TeErrno → M W ⊤) (x : Result ⊤ × W) (w w' : W)
    → handled f x ≡ (ok tt, w')
    → ((e : TeErrno) (v : W) → (f e v).0 ≢ ok tt)
    → x ≡ (ok tt, w')
sent f (ok a, v) w w' e h = e
sent f (err x, v) w w' e h = absurd (h x v (ap (λ q. q.0) e))
sent f (ends j, v) w w' e h = absurd (cc (ap (λ q. q.0) e))

two_true : (a b : Bool) → (a && b) ≡ true → (a ≡ true) × (b ≡ true)
two_true true b h = (refl, h)
two_true false b h = absurd (cc h)

module _ {W : Type 0} (o : EchoOps W) where
  require-eq-ok : (b : Bool) (w w' : W) → require o b w ≡ (ok tt, w') → (b ≡ true) × (w ≡ w')
  unfolding require
  require-eq-ok true w w' e = (refl, ap (λ q. q.1) e)
  require-eq-ok false w w' e = absurd (cc (ap (λ q. q.0) e))

  require>>-eq-ok :
      {A : Type 0} (b : Bool) (k : M W A) (w w' : W) {a : A}
      → (require o b >> k) w ≡ (ok a, w')
      → (b ≡ true) × (k w ≡ (ok a, w'))
  unfolding require
  require>>-eq-ok true k w w' e = (refl, e)
  require>>-eq-ok false k w w' e = absurd (cc (ap (λ q. q.0) e))

  require_some>>=-eq-ok :
      {A B : Type 0} (x : Option A) (k : A → M W B) (w w' : W) {b : B}
      → (require_some o x >>= k) w ≡ (ok b, w')
      → (a : A) × (x ≡ some a) × (k a w ≡ (ok b, w'))
  unfolding require_some
  require_some>>=-eq-ok (some a) k w w' e = (a, refl, e)
  require_some>>=-eq-ok none k w w' e = absurd (cc (ap (λ q. q.0) e))

  event_sock-eq-ok :
      (exp_sock i events : ℕ) (t s : XdpSock) (w w' : W)
      → event_sock o exp_sock (i, t, events) w ≡ (ok s, w')
      → (i ≡ exp_sock) × (events ≡ o.pollin) × (t ≡ s) × (w ≡ w')
  unfolding event_sock
  event_sock-eq-ok exp_sock i events t s w w' e =
      let (place, e1) =
        require>>-eq-ok (i == exp_sock) (require o (events == o.pollin) >> pure t) w w' {a = s} e in
      let (input, done) = require>>-eq-ok (events == o.pollin) (pure t) w w' {a = s} e1 in
      (ground arith, ground arith, ap (λ q. value_or t q.0) done, ap (λ q. q.1) done)

  reported-EventAt :
      (socks : List XdpSock) (exp_sock num : ℕ) (revents : List ℕ) (s : XdpSock) (w w' : W)
      → reported o socks exp_sock num revents w ≡ (ok s, w')
      → (num ≡ 1) × (w ≡ w') × EventAt socks revents exp_sock s o.pollin
  unfolding reported
  reported-EventAt socks exp_sock num revents s w w' e =
      let (some_event, e1) =
        require>>-eq-ok (not (num == 0))
          (require o (leb num 1)
            >> (require_some o (find_event 0 socks revents) >>= event_sock o exp_sock))
          w w' {a = s} e in
      let (one_event, e2) =
        require>>-eq-ok (leb num 1)
          (require_some o (find_event 0 socks revents) >>= event_sock o exp_sock) w w' {a = s} e1 in
      let ((i, t, events), found, e3) =
        require_some>>=-eq-ok (find_event 0 socks revents) (event_sock o exp_sock) w w' {b = s}
          e2 in
      let event = first-EventAt socks revents i t events found in
      let (place, input, same, world) = event_sock-eq-ok exp_sock i events t s w w' e3 in
      let whole : ◌≡◌ {A = ℕ × XdpSock × ℕ} (i, t, events) (exp_sock, s, o.pollin) =
        tuple_eq place same input in
      (ground arith, world, subst (λ q. EventAt socks revents q.0 q.1 q.2) whole event)

  -- The socket expected to receive is the first with events, and has POLLIN alone.
  pub poll_event-EventAt :
      (socks : List XdpSock) (exp_sock : ℕ) (s : XdpSock) (w w' : W)
      → poll_event o socks exp_sock w ≡ (ok s, w')
      → (revents : List ℕ) × (o.poll (map (λ s. s.fd) socks) w ≡ (ok (1, revents), w'))
        × EventAt socks revents exp_sock s o.pollin
  unfolding poll_event
  poll_event-EventAt socks exp_sock s w w' e =
      let ((num, revents), w1, polled, e1) =
        >>=-eq-ok (o.poll (map (λ s. s.fd) socks)) (λ q. reported o socks exp_sock q.0 q.1) w
          {b = s} {u = w'} e in
      let (one, same, event) = reported-EventAt socks exp_sock num revents s w1 w' e1 in
      (revents, polled ∙ ap₂ (λ n u. (ok (n, revents), u)) one same, event)

  pub receive_packet-eq-ok :
      (send_len : ℕ) (s : XdpSock) (packet : Bytes) (w w' : W)
      → receive_packet o send_len s w ≡ (ok packet, w')
      → (o.xsk_receive s.sock w ≡ (ok packet, w')) × (send_len < length packet)
  unfolding receive_packet
  receive_packet-eq-ok send_len s packet w w' e =
      let (p, w1, got, e) = >>=-eq-ok (o.xsk_receive s.sock) _ w e in
      let (longer, e) = require>>-eq-ok (not (leb (length p) send_len)) _ w1 w' e in
      let same : p ≡ packet = ap (λ q. value_or p q.0) e in
      (got ∙ ap₂ (λ x y. (ok x, y)) same (ap (λ q. q.1) e), ground (arith, ap length same))

  compare_reply-eq-ok :
      (dst_addr send_buf recv_buf from : Bytes) (send_len : ℕ) (w w' : W)
      → compare_reply o dst_addr send_buf send_len (recv_buf, from) w ≡ (ok tt, w')
      → (recv_buf ≡ send_buf) × (o.same_addr dst_addr from ≡ true) × (w ≡ w')
  unfolding compare_reply
  compare_reply-eq-ok dst_addr send_buf recv_buf from send_len w w' e =
      let (same, e1) =
        require>>-eq-ok (length recv_buf == send_len && str_eq recv_buf send_buf)
          (require o (o.same_addr dst_addr from)) w w' {a = tt} e in
      let (sized, alike) = two_true (length recv_buf == send_len) (str_eq recv_buf send_buf) same in
      let (there, world) = require-eq-ok (o.same_addr dst_addr from) w w' e1 in
      (eq_of_str_eq recv_buf send_buf alike, there, world)

  pub receive_reply-eq-ok :
      (dst_addr send_buf : Bytes) (send_len : ℕ) (w w' : W)
      → receive_reply o dst_addr send_buf send_len w ≡ (ok tt, w')
      → (from : Bytes) × (v : W) × (o.readable w ≡ (ok true, v))
        × (o.recvfrom v ≡ (ok (send_buf, from), w'))
        × (o.same_addr dst_addr from ≡ true)
  unfolding receive_reply
  receive_reply-eq-ok dst_addr send_buf send_len w w' e =
      let compare = compare_reply o dst_addr send_buf send_len in
      let (readable, w1, asked, e1) =
        >>=-eq-ok o.readable (λ r. require o r >> (o.recvfrom >>= compare)) w {b = tt} {u = w'} e in
      let (there_is, e2) = require>>-eq-ok readable (o.recvfrom >>= compare) w1 w' {a = tt} e1 in
      let ((buf, from), w2, got, e3) = >>=-eq-ok o.recvfrom compare w1 {b = tt} {u = w'} e2 in
      let (same, there, world) = compare_reply-eq-ok dst_addr send_buf buf from send_len w2 w' e3 in
      (
        from,
        w1,
        asked ∙ ap (λ b. (ok b, w1)) there_is,
        got ∙ ap₂ (λ b u. (ok (b, from), u)) same world,
        there,
      )

  pub send_reply-eq-ok :
      (socks : List XdpSock) (s : XdpSock) (reply : Bytes) (w w' : W)
      → send_reply o socks s reply w ≡ (ok tt, w')
      → (sender : XdpSock) × (echo_sock socks s ≡ some sender)
        × (o.xsk_send sender.sock reply w ≡ (ok tt, w'))
  unfolding send_reply
  send_reply-eq-ok socks s reply w w' e =
      let (sender, chosen, e1) =
        require_some>>=-eq-ok (echo_sock socks s)
          (λ t. on_error (o.xsk_send t.sock reply) (λ _ w. (ends test_stop, o.verdict w))) w w'
          {b = tt} e in
      (
        sender,
        chosen,
        sent (λ _ w. (ends test_stop, o.verdict w)) (o.xsk_send sender.sock reply w) w w' e1
            (λ x v h. cc h),
      )

  pub mirrored>>=-eq-ok :
      (x : Option Bytes) (k : Bytes → M W ⊤) (w w' : W)
      → (mirrored o x >>= k) w ≡ (ok tt, w')
      → (reply : Bytes) × (x ≡ some reply) × (k reply w ≡ (ok tt, w'))
  unfolding mirrored
  mirrored>>=-eq-ok (some reply) k w w' e = (reply, refl, e)
  mirrored>>=-eq-ok none k w w' e = absurd (cc (ap (λ q. q.0) e))
