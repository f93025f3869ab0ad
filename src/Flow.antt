-- ===== src/Flow.antt =====
-- Data flows (net-drv-ts/lib/net_drv_data_flow.c, net_drv_data_flow.h).
pub mod Check
mod Tests
use net_drv_ts.Base.{
  ℕ, ◌+◌, ◌≡◌, Bool, true, false, not, ◌&&◌, ◌||◌, ⊤, Option, none, some, leb, ltb, ◌==◌,
  if◌then◌else◌, Result, ok, err, ends, TeErrno, TeError, is_eagain,
}

-- A pair of connected sockets. A server is `none` for NULL and a socket for a negative value.
pub record Conn : Type 0 where
  pub rpcs1 : Option ℕ
  pub rpcs2 : Option ℕ
  pub s1 : Option ℕ
  pub s2 : Option ℕ

pub record Flow : Type 0 where
  pub rpcs1 : Option ℕ
  pub rpcs2 : Option ℕ
  pub tx : Bool
  pub flow_id : ℕ
  pub new_processes : Bool
  pub conn : Conn
  pub duration : ℕ
  pub ignore_send_err : Bool
  pub min_size : ℕ
  pub max_size : ℕ
  pub sender_rpcs : Option ℕ
  pub receiver_rpcs : Option ℕ
  pub sender_s : Option ℕ
  pub receiver_s : Option ℕ
  pub in_progress : Bool
  pub success : Bool

-- RPC servers are numbers. `close` and `destroy` answer an error or nothing. `pattern_sender` answers its error, and what it counted as sent; `drain` its error,
-- and what the call stored in `read`.
pub record FlowOps (W : Type 0) : Type 0 where
  pub close : ℕ → ℕ → W → Option TeErrno × W
  pub destroy : ℕ → W → Option TeErrno × W
  pub start_drain : Option ℕ → Option ℕ → W → W
  pub start_send : Option ℕ → Option ℕ → W → W
  pub pattern_sender : Option ℕ → Option ℕ → W → (Option TeErrno × ℕ) × W
  pub drain : Option ℕ → Option ℕ → W → (Option TeErrno × ℕ) × W

-- `res` is set to the error of the last call that failed.
abbrev pub last_error : Option TeErrno → Option TeErrno → Option TeErrno
last_error res none = res
last_error res (some e) = some e

-- The part of net_drv_flow_prepare() that gives each end its server and socket.
unfoldable pub assign_ends : Flow → Flow
assign_ends f =
    if f.tx
    then record f {
      sender_rpcs = f.rpcs1;
      receiver_rpcs = f.rpcs2;
      sender_s = f.conn.s1;
      receiver_s = f.conn.s2;
    }
    else record f {
      sender_rpcs = f.rpcs2;
      receiver_rpcs = f.rpcs1;
      sender_s = f.conn.s2;
      receiver_s = f.conn.s1;
    }

-- Whether the receiving call ended as it should: `read` is what it stored, `sent` what was sent.
unfoldable pub drained : Option TeErrno → ℕ → ℕ → Bool
drained (some e) read sent =
    if not (is_eagain e.error) then false else not (read == 0) && leb read sent
drained none read sent = not (read == 0) && leb read sent

unfoldable pub sender_fine : Option TeErrno → Bool
sender_fine none = true
sender_fine (some e) = false

module _ {W : Type 0} (o : FlowOps W) where
  -- A socket is closed if there are a server and a socket.
  unfoldable pub close_if_open : Option ℕ → Option ℕ → W → Option TeErrno × W
  close_if_open none s w = (none, w)
  close_if_open (some r) none w = (none, w)
  close_if_open (some r) (some s) w = o.close r s w

  -- net_drv_conn_destroy()
  unfoldable pub conn_destroy : Conn → W → Option TeErrno × W
  unfolding close_if_open
  conn_destroy conn w =
      let (e1, w1) = close_if_open conn.rpcs1 conn.s1 w in
      let (e2, w2) = close_if_open conn.rpcs2 conn.s2 w1 in (last_error e1 e2, w2)

  -- close_sock_kill_rpcs()
  unfoldable pub close_sock_kill_rpcs : Option ℕ → Option ℕ → Bool → W → Option TeErrno × W
  unfolding close_if_open
  close_sock_kill_rpcs none s in_progress w = (none, w)
  close_sock_kill_rpcs (some r) s in_progress w =
      let (e1, w1) = (if in_progress then (none, w) else close_if_open (some r) s w) in
      let (e2, w2) = o.destroy r w1 in (last_error e1 e2, w2)

  -- net_drv_flow_destroy()
  unfoldable pub flow_destroy : Flow → W → Option TeErrno × W
  flow_destroy f w =
      if f.new_processes
      then (let (e1, w1) = close_sock_kill_rpcs f.rpcs1 f.conn.s1 f.in_progress w in
          let (e2, w2) = close_sock_kill_rpcs f.rpcs2 f.conn.s2 f.in_progress w1 in
          (last_error e1 e2, w2))
      else (none, w)

  -- net_drv_flow_start()
  unfoldable pub flow_start : Flow → W → Flow × W
  flow_start f w =
      let w1 = o.start_drain f.receiver_rpcs f.receiver_s w in
      (record f { in_progress = true }, o.start_send f.sender_rpcs f.sender_s w1)

  -- net_drv_flow_finish()
  unfoldable pub flow_finish : Flow → W → Flow × W
  unfolding sender_fine drained
  flow_finish f w =
      let ((e, sent), w1) = o.pattern_sender f.sender_rpcs f.sender_s w in
      let ((d, read), w2) = o.drain f.receiver_rpcs f.receiver_s w1 in
      (record f { in_progress = false; success = sender_fine e && drained d read sent }, w2)
