-- ===== src/Ptp/Descriptors.antt =====
-- No descriptor is left open: what the two functions hold when they end.
use net_drv_ts.Base.{
  ℕ, ◌≡◌, ◌∙◌, refl, ap, inl, inr, Bool, true, false, Bool-cases, ⊤, List, ◌∷◌, ℤ, is_negative,
  Result, ok, err, ends,
}
use net_drv_ts.Ptp.{
  PtpOps, closed, close_after, after_socket, get_ethtool_ts_info, opened_or_verdict, open_fd_after,
  open_ptp_fd, close_supported, supported_after, is_ptp_supported,
}

-- What a call that opens a descriptor adds to those that are open.
abbrev pub opened : Result ℕ → List ℕ → List ℕ
opened (ok fd) fds = fd ∷ fds
opened (err _) fds = fds
opened (ends _) fds = fds

-- The open descriptors, the last first; closing the last one succeeds.
pub record PtpLaws {W : Type 0} (o : PtpOps W) : Type 0 where
  pub held : W → List ℕ
  pub socket_lem : (w : W) → held (o.socket w).1 ≡ opened (o.socket w).0 (held w)
  pub ioctl_lem : (s : ℕ) (w : W) → held (o.ioctl_ts_info s w).1 ≡ held w
  pub open_lem :
      (i : ℤ) (rdwr : Bool) (w : W)
      → held (o.open_ptp i rdwr w).1 ≡ opened (o.open_ptp i rdwr w).0 (held w)
  pub close_lem :
      (fd : ℕ) (fds : List ℕ) (w : W)
      → held w ≡ fd ∷ fds
      → ((o.close fd w).0 ≡ ok tt) × (held (o.close fd w).1 ≡ fds)
  pub verdict_lem : (w : W) → held (o.verdict w) ≡ held w

module _ {W : Type 0} (o : PtpOps W) (laws : PtpLaws o) where
  open laws use {held, socket_lem, ioctl_lem, open_lem, close_lem, verdict_lem}

  closed-held :
      {A : Type 0} (r : Result A) (x : Result ⊤ × W) (fds : List ℕ)
      → x.0 ≡ ok tt
      → held x.1 ≡ fds
      → ((closed o r x).0 ≡ r) × (held (closed o r x).1 ≡ fds)
  unfolding closed
  closed-held r (ok a, w) fds e h = (refl, h)
  closed-held r (err x, w) fds e h = absurd (cc e)
  closed-held r (ends j, w) fds e h = absurd (cc e)

  after_socket-held :
      (x : Result ℕ × W) (fds : List ℕ)
      → held x.1 ≡ opened x.0 fds
      → held (after_socket o x).1 ≡ fds
  unfolding after_socket close_after
  after_socket-held (ok s, w) fds h =
      let (r, w1) = o.ioctl_ts_info s w in
      let (done, back) = close_lem s fds w1 (ioctl_lem s w ∙ h) in
      (closed-held r (o.close s w1) fds done back).1
  after_socket-held (err e, w) fds h = h
  after_socket-held (ends j, w) fds h = h

  get_ethtool_ts_info-held : (w : W) → held (get_ethtool_ts_info o w).1 ≡ held w
  unfolding get_ethtool_ts_info
  get_ethtool_ts_info-held w = after_socket-held (o.socket w) (held w) (socket_lem w)

  opened_or_verdict-held :
      (x : Result ℕ × W) (fds : List ℕ)
      → held x.1 ≡ opened x.0 fds
      → held (opened_or_verdict o x).1 ≡ opened (opened_or_verdict o x).0 fds
  unfolding opened_or_verdict
  opened_or_verdict-held (ok fd, w) fds h = h
  opened_or_verdict-held (err e, w) fds h = h
  opened_or_verdict-held (ends j, w) fds h = h

  open_fd_after-held :
      (x : Result ℤ × W) (fds : List ℕ)
      → held x.1 ≡ fds
      → held (open_fd_after o x).1 ≡ opened (open_fd_after o x).0 fds
  unfolding open_fd_after
  open_fd_after-held (ok i, w) fds h = elim (Bool-cases (is_negative i)) [
    | inl unknown ↦ rw unknown h
    | inr known ↦ rw known (
        opened_or_verdict-held (o.open_ptp i true w) fds
          (open_lem i true w ∙ ap (opened (o.open_ptp i true w).0) h))
  ]
  open_fd_after-held (err e, w) fds h = verdict_lem w ∙ h
  open_fd_after-held (ends j, w) fds h = h

  close_supported-held :
      (x : Result ℕ × W) (fds : List ℕ)
      → held x.1 ≡ opened x.0 fds
      → held (close_supported o x).1 ≡ fds
  unfolding close_supported
  close_supported-held (ok fd, w) fds h =
      let (done, back) = close_lem fd fds w h in
      (closed-held (ok true) (o.close fd w) fds done back).1
  close_supported-held (err e, w) fds h = h
  close_supported-held (ends j, w) fds h = h

  supported_after-held :
      (x : Result ℤ × W) (fds : List ℕ) → held x.1 ≡ fds → held (supported_after o x).1 ≡ fds
  unfolding supported_after
  supported_after-held (ok i, w) fds h = elim (Bool-cases (is_negative i)) [
    | inl unknown ↦ rw unknown h
    | inr known ↦ rw known (
        close_supported-held (o.open_ptp i false w) fds
          (open_lem i false w ∙ ap (opened (o.open_ptp i false w).0) h))
  ]
  supported_after-held (err e, w) fds h = h
  supported_after-held (ends j, w) fds h = h

  -- Where a descriptor that is open can be closed, opening a PTP device leaves open the device's
  -- descriptor and nothing else, and nothing where it does not return one; the check whether PTP is
  -- supported leaves nothing open.
  pub open_ptp_fd-held :
      (w : W)
      → (held (open_ptp_fd o w).1 ≡ opened (open_ptp_fd o w).0 (held w))
        × (held (is_ptp_supported o w).1 ≡ held w)
  unfolding open_ptp_fd is_ptp_supported
  open_ptp_fd-held w = (
    open_fd_after-held (get_ethtool_ts_info o w) (held w) (get_ethtool_ts_info-held w),
    supported_after-held (get_ethtool_ts_info o w) (held w) (get_ethtool_ts_info-held w),
  )
