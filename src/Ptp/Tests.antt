-- ===== src/Ptp/Tests.antt =====
-- A server whose world is the list of open descriptors.
use net_drv_ts.Base.{ℕ, ◌≡◌, refl, ap, List, [], ◌∷◌, pos, ok}
use net_drv_ts.Ptp.{
  PtpOps, open_ptp_fd, is_ptp_supported, closed, close_after, after_socket, get_ethtool_ts_info,
  opened_or_verdict, open_fd_after, close_supported, supported_after,
}
use net_drv_ts.Ptp.Descriptors.{PtpLaws, opened, open_ptp_fd-held}

abbrev rest : List ℕ → List ℕ
rest [] = []
rest (fd ∷ fds) = fds

abbrev ops : PtpOps (List ℕ)
ops = record {
  socket = λ w. (ok 3, 3 ∷ w);
  ioctl_ts_info = λ s w. (ok (pos 0), w);
  open_ptp = λ i rdwr w. (ok 4, 4 ∷ w);
  close = λ fd w. (ok tt, rest w);
  verdict = λ w. w;
}

abbrev laws : PtpLaws ops
laws = record {
  held = λ w. w;
  socket_lem = λ w. refl;
  ioctl_lem = λ s w. refl;
  open_lem = λ i rdwr w. refl;
  close_lem = λ fd fds w h. (refl, ap rest h);
  verdict_lem = λ w. refl;
}

open_ptp_fd-held_example : (4 ∷ [] ≡ opened (ok 4) []) × ((is_ptp_supported ops []).1 ≡ [])
unfolding open_ptp_fd is_ptp_supported closed close_after after_socket get_ethtool_ts_info
    opened_or_verdict open_fd_after close_supported supported_after
open_ptp_fd-held_example = open_ptp_fd-held ops laws []
