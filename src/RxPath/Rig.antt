-- ===== src/RxPath/Rig.antt =====
-- What the main() functions of net-drv-ts/rx_path/rx_coalesce_usecs.c and rx_coalesce_frames.c share:
-- saving and changing the settings, capturing a transmission, and the cleanup.
pub mod Settings
pub mod Steps
pub mod Cleanup
pub mod Restore
use net_drv_ts.Base.{
  ℕ, ◌≡◌, Bool, true, false, not, ◌&&◌, ◌||◌, none, some, Option, ⊤, List, [], ◌∷◌, Bytes, codes,
  ◌==◌, if◌then◌else◌, ℤ, is_negative, M, Result, ok, err, ends, TeErrno, is_enoent, is_eopnotsupp,
  test_skip, test_fail, test_stop, test_verdict, pure, jump, reads, check_rc, on_error, when, ◌>>=◌,
  ◌>>◌, cleanup_check,
}
use net_drv_ts.RxPath.PacketId.{Packet}
use net_drv_ts.Ethtool.TxCoalesce.{CoalesceOps}

abbrev pub usecs_name : Bytes
usecs_name = codes "rx_coalesce_usecs"

abbrev pub frames_name : Bytes
frames_name = codes "rx_max_coalesced_frames"

abbrev pub rx_adaptive_name : Bytes
rx_adaptive_name = codes "use_adaptive_rx_coalesce"

pub data Side : Type 0 where
  iut tester : Side

pub data Channel : Type 0 where
  combined rx tx : Channel

-- The calls of the tests. A queue is `none` for -1, the whole interface; `send_call` and `send_wait`
-- are the two calls of send_pkts_exact_delay() around the receiving one, with the delay and the time.
pub record RigOps (W T : Type 0) : Type 0 where
  pub coalesce : Option ℕ → CoalesceOps W
  pub chan_get : Channel → W → Result ℕ
  pub rand_range : ℕ → ℕ → M W ℕ
  pub find_location : M W ℕ
  pub rule_add : ℕ → M W ⊤
  pub rule_fill : ℕ → M W ⊤
  pub rule_queue_set : ℕ → ℕ → M W ⊤
  pub rule_commit : ℕ → M W ⊤
  pub rule_del : ℕ → M W ⊤
  pub gen_connection : W → (Option ℕ × Option ℕ) × Result ⊤ × W
  pub close : Side → ℕ → M W ⊤
  pub send_recv_check : M W ⊤
  pub disable_hwtstamp : M W ⊤
  pub csap_create : Side → M W ℕ
  pub trrecv_start : Side → ℕ → M W ⊤
  pub trrecv_stop : Side → ℕ → M W (List (Packet T))
  pub csap_destroy : Side → ℕ → M W ⊤
  pub send_call : ℕ → ℕ → M W ⊤
  pub recv_pkts : M W ℤ
  pub send_wait : ℕ → ℕ → M W ℤ
  pub verdict : M W ⊤

-- The settings that the cleanup restores, and the queue, which it needs for that only.
pub record Prev : Type 0 where
  pub queue : Option ℕ
  pub usecs : ℕ
  pub max_frames : ℕ
  pub adaptive : ℕ

-- The world with the variables of main() that the cleanup reads.
pub record Rig (W : Type 0) : Type 0 where
  pub world : W
  pub rule : Option ℕ
  pub iut_s : Option ℕ
  pub tst_s : Option ℕ
  pub csap_rx : Option ℕ
  pub csap_tx : Option ℕ
  pub prev : Option Prev

abbrev pub initially : {W : Type 0} → W → Rig W
initially w = record {
  world = w;
  rule = none;
  iut_s = none;
  tst_s = none;
  csap_rx = none;
  csap_tx = none;
  prev = none;
}

-- A call that changes no variable of main().
abbrev pub lift : {W A : Type 0} → M W A → M (Rig W) A
lift m s = let (r, w) = m s.world in (r, record s { world = w })

abbrev pub set_csap : {W : Type 0} → Side → ℕ → M (Rig W) ⊤
set_csap iut csap s = (ok tt, record s { csap_rx = some csap })
set_csap tester csap s = (ok tt, record s { csap_tx = some csap })

abbrev pub set_prev : {W : Type 0} → Prev → M (Rig W) ⊤
set_prev prev s = (ok tt, record s { prev = some prev })

-- The order of main(): what comes before the settings are saved, and what comes after
unfoldable pub saving :
    {W : Type 0}
    → M (Rig W) (Option ℕ)
    → (Option ℕ → M W Prev)
    → (Option ℕ → M (Rig W) ⊤)
    → M (Rig W) ⊤
saving prepare save measure = do q ← prepare; prev ← lift (save q); set_prev prev; measure q

module _ {W T : Type 0} (o : RigOps W T) where
  -- The limit that is tested, whose absence means that there are no settings at all, the other limit
  -- and the flag of adaptive coalescing
  unfoldable pub read_settings : Option ℕ → Bytes → Bytes → M W (ℕ × ℕ × ℕ)
  read_settings q tested other = do
    first ←
        on_error (reads ((o.coalesce q).get tested))
          (λ e. if is_enoent e.error then jump test_skip else jump test_fail)
    second ← check_rc (reads ((o.coalesce q).get other))
    adaptive ← check_rc (reads ((o.coalesce q).get rx_adaptive_name))
    pure (first, second, adaptive)

  unfoldable pub connect : M (Rig W) ⊤
  connect s =
      let ((iut_s, tst_s), r, w) = o.gen_connection s.world in
      (r, record s { world = w; iut_s = iut_s; tst_s = tst_s })

  -- Both limits, or where that is not supported only the one that is tested
  unfoldable pub set_only : Option ℕ → Bytes → ℕ → M W ⊤
  set_only q tested value =
      on_error ((o.coalesce q).set tested value)
        (λ e. if is_eopnotsupp e.error then jump test_skip else jump test_verdict)

  unfoldable pub set_limits : Option ℕ → ℕ → ℕ → Bytes → ℕ → M W ⊤
  unfolding set_only
  set_limits q usecs max_frames tested value = do
    on_error ((o.coalesce q).set rx_adaptive_name 0) (λ _. jump test_verdict)
    check_rc ((o.coalesce q).set_local usecs_name usecs)
    check_rc ((o.coalesce q).set_local frames_name max_frames)
    on_error (o.coalesce q).commit
        (λ e. if is_eopnotsupp e.error then set_only q tested value else jump test_verdict)

  unfoldable pub start_capture : Side → M (Rig W) ℕ
  start_capture side = do
    csap ← check_rc (lift (o.csap_create side))
    set_csap side csap
    check_rc (lift (o.trrecv_start side csap))
    pure csap

  -- The transmission of two seconds
  unfoldable pub transmit : ℕ → M W ⊤
  transmit send_delay = do
    o.send_call send_delay 2000
    received ← o.recv_pkts
    when (is_negative received) o.verdict
    sent ← o.send_wait send_delay 2000
    when (is_negative sent) o.verdict
    if is_negative sent || is_negative received then jump test_stop else pure tt

  unfoldable pub destroy_csap : Side → Option ℕ → Bool × W → Bool × W
  destroy_csap side none st = st
  destroy_csap side (some csap) st = cleanup_check (o.csap_destroy side csap) st

  -- CLEANUP_RPC_CLOSE()
  unfoldable pub close_sock : Side → Option ℕ → Bool × W → Bool × W
  close_sock side none st = st
  close_sock side (some s) st = cleanup_check (o.close side s) st

  unfoldable pub restore_prev : Option Prev → Bool × W → Bool × W
  restore_prev none st = st
  restore_prev (some prev) st =
      let q = prev.queue in
      let st1 = cleanup_check ((o.coalesce q).set_local usecs_name prev.usecs) st in
      let st2 = cleanup_check ((o.coalesce q).set_local frames_name prev.max_frames) st1 in
      let st3 = cleanup_check (o.coalesce q).commit st2 in
      cleanup_check ((o.coalesce q).set rx_adaptive_name prev.adaptive) st3

  unfoldable pub remove_rule : Option ℕ → Bool × W → Bool × W
  remove_rule none st = st
  remove_rule (some location) st = cleanup_check (o.rule_del location) st

  -- The cleanup, and whether all of its calls succeeded
  unfoldable pub cleanup : Rig W → Bool × W
  unfolding destroy_csap close_sock restore_prev remove_rule
  cleanup s =
      let st1 = destroy_csap tester s.csap_tx (true, s.world) in
      let st2 = destroy_csap iut s.csap_rx st1 in
      let st3 = close_sock iut s.iut_s st2 in
      let st4 = close_sock tester s.tst_s st3 in remove_rule s.rule (restore_prev s.prev st4)

  unfoldable pub finish : {A : Type 0} → Result A × Rig W → Result A × Bool × W
  unfolding cleanup
  finish (r, s) = let (fine, w) = cleanup s in (r, fine, w)
