-- ===== src/Flow/Check.antt =====
-- What a finished data flow and its destruction mean.
use net_drv_ts.Base.{
  ℕ, ◌<◌, ◌≤◌, ◌≡◌, ◌↔◌, refl, Bool, true, false, Option, none, some, ◌==◌, if◌then◌else◌, TeErrno,
  is_eagain, arith,
}
use net_drv_ts.Flow.{
  Flow, FlowOps, close_sock_kill_rpcs, flow_destroy, assign_ends, drained, flow_finish,
}

-- The receiving call did not fail, or only because nothing more arrived in time.
abbrev pub DrainEnded : Option TeErrno → Type 0
DrainEnded none = Unit
DrainEnded (some e) = is_eagain e.error ≡ true

drained_iff :
    (d : Option TeErrno) (read sent : ℕ)
    → (drained d read sent ≡ true) ↔ (DrainEnded d × (0 < read) × (read ≤ sent))
unfolding drained
drained_iff none read sent = ((λ h. ground arith), (λ h. ground arith))
drained_iff (some e) read sent = ((λ h. ground arith), (λ h. ground arith))

-- The flow in the other direction between the same sockets has the ends exchanged.
pub assign_ends_mirror :
    (f : Flow)
    → let there = assign_ends (record f { tx = true }) in
      let back = assign_ends (record f { tx = false }) in
      (there.sender_rpcs ≡ back.receiver_rpcs)
      × (there.sender_s ≡ back.receiver_s)
      × (there.receiver_rpcs ≡ back.sender_rpcs)
      × (there.receiver_s ≡ back.sender_s)
unfolding assign_ends
assign_ends_mirror f = (refl, refl, refl, refl)

module _ {W : Type 0} (o : FlowOps W) where
  -- A finished flow is a success exactly where the sending call did not fail, the receiving one
  -- did not fail but for a timeout, and something was received but no more than was sent; and it
  -- is not in progress any more, whatever the outcome.
  pub flow_finish_iff :
      (f : Flow) (w w1 w2 : W) (e d : Option TeErrno) (sent read : ℕ)
      → o.pattern_sender f.sender_rpcs f.sender_s w ≡ ((e, sent), w1)
      → o.drain f.receiver_rpcs f.receiver_s w1 ≡ ((d, read), w2)
      → (((flow_finish o f w).0.success ≡ true)
          ↔ ((e ≡ none) × DrainEnded d × (0 < read) × (read ≤ sent)))
        × ((flow_finish o f w).0.in_progress ≡ false)
  unfolding flow_finish
  flow_finish_iff f w w1 w2 e d sent read s r = (
    (
      (λ h. ground (arith, drained_iff d read sent)),
      (λ h. ground (arith, drained_iff d read sent)),
    ),
    refl,
  )

-- The RPC servers that run: a destruction that succeeds ends its server alone, and closing a
-- socket ends none.
pub record FlowLaws {W : Type 0} (o : FlowOps W) : Type 0 where
  pub runs : W → ℕ → Bool
  pub close-Keeps : (r s : ℕ) (w : W) → runs (o.close r s w).1 ≡ runs w
  pub destroy_ends :
      (r q : ℕ) (w w' : W)
      → o.destroy r w ≡ (none, w')
      → runs w' q ≡ (if r == q then false else runs w q)

module _ {W : Type 0} (o : FlowOps W) (laws : FlowLaws o) where
  open laws use {runs, close-Keeps, destroy_ends}

  close_sock_kill_rpcs-runs :
      (r q : ℕ) (s : Option ℕ) (busy : Bool) (w w' : W)
      → close_sock_kill_rpcs o (some r) s busy w ≡ (none, w')
      → runs w' q ≡ (if r == q then false else runs w q)
  unfolding close_sock_kill_rpcs
  close_sock_kill_rpcs-runs r q none busy w w' h = ground (arith, destroy_ends r q w w')
  close_sock_kill_rpcs-runs r q (some s) busy w w' h =
      let v = (o.close r s w).1 in
      ground (arith, destroy_ends r q w w', destroy_ends r q v w', close-Keeps r s w)

  -- Where the destruction of a flow with processes of its own reports no error, both of its RPC
  -- servers have ended, and every other server runs as before.
  pub flow_destroy-runs :
      (f : Flow) (r1 r2 q : ℕ) (w w' : W)
      → f.new_processes ≡ true
      → f.rpcs1 ≡ some r1
      → f.rpcs2 ≡ some r2
      → flow_destroy o f w ≡ (none, w')
      → runs w' q ≡ (if r1 == q then false else if r2 == q then false else runs w q)
  unfolding flow_destroy
  flow_destroy-runs f r1 r2 q w w' n e1 e2 h =
      let v = (close_sock_kill_rpcs o (some r1) f.conn.s1 f.in_progress w).1 in
      ground (
        arith,
        close_sock_kill_rpcs-runs r1 q f.conn.s1 f.in_progress w v,
        close_sock_kill_rpcs-runs r2 q f.conn.s2 f.in_progress v w',
      )
