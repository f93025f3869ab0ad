-- ===== src/Ptp.antt =====
-- Opening a PTP device (net-drv-ts/lib/net_drv_ptp.c): net_drv_get_ethtool_ts_info(),
-- net_drv_open_ptp_device(), net_drv_open_ptp_fd() and net_drv_is_ptp_supported().
pub mod Descriptors
mod Tests
use net_drv_ts.Base.{
  ℕ, ◌≡◌, Bool, true, false, if◌then◌else◌, ⊤, ℤ, is_negative, M, Result, ok, err, ends, TeErrno,
  jump, test_stop, test_skip, test_verdict, test_fail, ◌>>=◌, arith,
}

-- The RPC calls of one server for one interface; `ioctl_ts_info` answers with `phc_index`. Errors
-- of socket(), ioctl() and open() are awaited, an error of close() ends the test.
pub record PtpOps (W : Type 0) : Type 0 where
  pub socket : M W ℕ
  pub ioctl_ts_info : ℕ → M W ℤ
  pub open_ptp : ℤ → Bool → M W ℕ
  pub close : ℕ → M W ⊤
  pub verdict : W → W

module _ {W : Type 0} (o : PtpOps W) where
  -- The result `r`, once the descriptor is closed
  unfoldable pub closed : {A : Type 0} → Result A → Result ⊤ × W → Result A × W
  closed r (ok _, w) = (r, w)
  closed r (err _, w) = (ends test_fail, w)
  closed r (ends j, w) = (ends j, w)

  unfoldable pub close_after : ℕ → Result ℤ × W → Result ℤ × W
  unfolding closed
  close_after s (r, w) = closed r (o.close s w)

  unfoldable pub after_socket : Result ℕ × W → Result ℤ × W
  unfolding close_after
  after_socket (ok s, w) = close_after s (o.ioctl_ts_info s w)
  after_socket (err e, w) = (err e, w)
  after_socket (ends j, w) = (ends j, w)

  unfoldable pub get_ethtool_ts_info : M W ℤ
  unfolding after_socket
  get_ethtool_ts_info w = after_socket (o.socket w)

  -- net_drv_open_ptp_fd(), from the answer on; the device is opened for reading and writing.
  unfoldable pub opened_or_verdict : Result ℕ × W → Result ℕ × W
  opened_or_verdict (ok fd, w) = (ok fd, w)
  opened_or_verdict (err _, w) = (ends test_verdict, w)
  opened_or_verdict (ends j, w) = (ends j, w)

  unfoldable pub open_fd_after : Result ℤ × W → Result ℕ × W
  unfolding opened_or_verdict
  open_fd_after (ok phc_index, w) =
      if is_negative phc_index
      then (ends test_skip, w)
      else opened_or_verdict (o.open_ptp phc_index true w)
  open_fd_after (err _, w) = (ends test_stop, o.verdict w)
  open_fd_after (ends j, w) = (ends j, w)

  unfoldable pub open_ptp_fd : M W ℕ
  unfolding get_ethtool_ts_info open_fd_after
  open_ptp_fd w = open_fd_after (get_ethtool_ts_info w)

  -- net_drv_is_ptp_supported(), from the answer on; the device is opened for reading.
  unfoldable pub close_supported : Result ℕ × W → Result Bool × W
  unfolding closed
  close_supported (ok fd, w) = closed (ok true) (o.close fd w)
  close_supported (err _, w) = (ok false, w)
  close_supported (ends j, w) = (ends j, w)

  unfoldable pub supported_after : Result ℤ × W → Result Bool × W
  unfolding close_supported
  supported_after (ok phc_index, w) =
      if is_negative phc_index
      then (ok false, w)
      else close_supported (o.open_ptp phc_index false w)
  supported_after (err _, w) = (ok false, w)
  supported_after (ends j, w) = (ends j, w)

  -- It is called with a server and an interface, which is checked before.
  unfoldable pub is_ptp_supported : M W Bool
  unfolding get_ethtool_ts_info supported_after
  is_ptp_supported w = supported_after (get_ethtool_ts_info w)
