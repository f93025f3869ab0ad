-- ===== src/RxPath/Rig/Steps.antt =====
-- What the shared steps of the Rx coalescing tests leave of the settings, from the connection on.
use net_drv_ts.Base.{
  ℕ, ◌||◌, Option, Bytes, is_negative, test_stop, check_rc, Keeps, >>=-Keeps, >>-Keeps, if_Keeps,
  check_rc-Keeps, pure-Keeps, jump-Keeps,
}
use net_drv_ts.Ethtool.TxCoalesce.Settings.{CoalesceLaws}
use net_drv_ts.RxPath.Rig.{
  RigOps, Prev, Side, iut, tester, lift, set_csap, connect, start_capture, transmit,
}
use net_drv_ts.RxPath.Rig.Settings.{RigLaws, Quiet, During, Quiet-During}

module _ {W T : Type 0} (o : RigOps W T) (laws : (q : Option ℕ) → CoalesceLaws (o.coalesce q))
    (quiet : RigLaws o laws) where
  pub transmit-Quiet : (delay : ℕ) → Quiet o laws (transmit o delay)
  unfolding transmit
  transmit-Quiet delay q n v = >>-Keeps (quiet.call_quiet delay 2000 q n v) (
      >>=-Keeps (quiet.recv_quiet q n v) (λ received.
        >>-Keeps (if_Keeps (is_negative received) (quiet.verdict_quiet q n v) (pure-Keeps {a = tt}))
          (>>=-Keeps (quiet.wait_quiet delay 2000 q n v) (λ sent.
            >>-Keeps (if_Keeps (is_negative sent) (quiet.verdict_quiet q n v) (pure-Keeps {a = tt}))
              (if_Keeps (is_negative sent || is_negative received) (jump-Keeps {j = test_stop})
                (pure-Keeps {a = tt}))))))

  module _ (prev : Prev) (n : Bytes) (v : ℕ) where
    pub connect-During : Keeps (During o laws prev n v) (connect o)
    unfolding connect
    connect-During = record {
      keeps = λ s h. (h.0, λ t. (quiet.connection_quiet prev.queue n v).keeps s.world (h.1 t));
    }

    set_csap-During : (side : Side) (csap : ℕ) → Keeps (During o laws prev n v) (set_csap side csap)
    set_csap-During iut csap = record { keeps = λ s h. h }
    set_csap-During tester csap = record { keeps = λ s h. h }

    pub start_capture-During : (side : Side) → Keeps (During o laws prev n v) (start_capture o side)
    unfolding start_capture
    start_capture-During side =
        >>=-Keeps (check_rc-Keeps (Quiet-During o laws prev n v (quiet.create_quiet side))) (λ csap.
          >>-Keeps (set_csap-During side csap) (
            >>-Keeps (check_rc-Keeps (Quiet-During o laws prev n v (quiet.start_quiet side csap)))
              (pure-Keeps {a = csap})))

    pub stop-During :
        (side : Side) (csap : ℕ)
        → Keeps (During o laws prev n v) (check_rc (lift (o.trrecv_stop side csap)))
    stop-During side csap =
        check_rc-Keeps (Quiet-During o laws prev n v (quiet.stop_quiet side csap))
