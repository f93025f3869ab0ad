-- ===== src/Basic/MtuTcp/Rounds.antt =====
-- The loop of main() of net-drv-ts/basic/mtu_tcp.c: data are sent, received and compared, and the
-- packets captured meanwhile are checked.
pub mod Passed
use net_drv_ts.Base.{
  ℕ, zero, suc, Bool, not, ◌&&◌, Bytes, List, length, str_eq, ◌==◌, if◌then◌else◌, ℤ, pos, negsuc,
  pos_part, M, Result, ok, err, ends, ⊤, false, test_verdict, pure, jump, check_rc, on_error, ◌>>=◌,
  ◌>>◌,
}
use net_drv_ts.Basic.MtuTcp.{Packet, CbArgs, PktSize, check_captured, check_maxseg, choose_sizes}

-- The calls of the loop: random numbers and data; send(), of which a failure is an error; whether the
-- receiver is readable; what `recv_dbuf` holds after reading so many bytes; the packets that
-- tapi_tad_trrecv_get() passes to the callback; TCP_MAXSEG of the socket.
pub record LoopOps (W : Type 0) : Type 0 where
  pub rand_range : ℕ → ℕ → M W ℕ
  pub fill_buf : ℕ → M W Bytes
  pub send : Bytes → M W ⊤
  pub readable : M W Bool
  pub read_dbuf : ℕ → M W Bytes
  pub trrecv_get : M W (List Packet)
  pub get_maxseg : M W ℤ

-- The arguments after memset() and the assignment of max_pld_size
abbrev pub init_args : ℤ → CbArgs
init_args tcp_maxseg = record {
  max_pld_size = tcp_maxseg;
  pkts_num = 0;
  first_small_pkt_seqn = pos 0;
  last_seqn = pos 0;
  too_big_pkt = false;
  failed = false;
}

module _ {W : Type 0} where
  unfoldable pub verdict_unless : Bool → M W ⊤
  verdict_unless c = if c then pure tt else jump test_verdict

  unfoldable pub returned : {A : Type 0} → Result A → M W A
  returned r w = (r, w)

  unfoldable pub compare_data : Bytes → ℕ → Bytes → M W ⊤
  unfolding verdict_unless
  compare_data buf send_len got = verdict_unless (length got == send_len && str_eq got buf)

  unfoldable pub judged_args : Result ⊤ × CbArgs → M W CbArgs
  judged_args (ok x, a) w = (ok a, w)
  judged_args (err e, a) w = (err e, w)
  judged_args (ends j, a) w = (ends j, w)

module _ {W : Type 0} (o : LoopOps W) (compare : ℤ → ℤ → ℤ) where
  -- Sending, receiving and comparing
  unfoldable pub exchange : ℕ → ℕ → M W ⊤
  unfolding verdict_unless compare_data
  exchange min_size max_size = o.rand_range min_size max_size >>= λ send_len.
      o.fill_buf send_len >>= λ buf.
      on_error (o.send buf) (λ _. jump test_verdict)
      >> (o.readable >>= verdict_unless)
      >> (on_error (o.read_dbuf send_len) (λ _. jump test_verdict) >>= compare_data buf send_len)

  unfoldable pub check_packets : CbArgs → M W CbArgs
  unfolding judged_args
  check_packets a = check_rc o.trrecv_get >>= λ pkts. judged_args (check_captured compare pkts a)

  -- The loop over `sends_num`
  unfoldable pub rounds : ℕ → ℕ → ℕ → CbArgs → M W CbArgs
  unfolding exchange check_packets
  rounds min_size max_size zero a = pure a
  rounds min_size max_size (suc n) a =
      exchange min_size max_size >> (check_packets a >>= rounds min_size max_size n)

  -- `start_csap` is what main() does between the choice of sizes and the loop: buffers and the CSAP.
  unfoldable pub run_checks : ℕ → PktSize → ℕ → M W ⊤ → M W CbArgs
  unfolding rounds returned
  run_checks mtu pkt_size sends_num start_csap = o.get_maxseg >>= λ seen.
      returned (check_maxseg seen mtu) >>= λ tcp_maxseg.
      returned (choose_sizes pkt_size (pos_part tcp_maxseg)) >>= λ sizes.
      start_csap >> rounds sizes.0 sizes.1 sends_num (init_args tcp_maxseg)
