-- ===== src/Basic/MtuTcp.antt =====
-- net-drv-ts/basic/mtu_tcp.c: the CSAP callback process_tcp(), and what main() makes of TCP_MAXSEG and
-- of the packets that were captured.
pub mod Segments
mod Noted
mod Folded
pub mod Sizes
pub mod Captured
pub mod Rounds
mod Tests
use net_drv_ts.Base.{
  ℕ, suc, ◌+◌, ◌-◌, ◌*◌, ◌/◌, ◌%◌, ◌^◌, Bool, true, false, not, ◌&&◌, ◌||◌, List, [], ◌∷◌, ltb, leb,
  ◌==◌, if◌then◌else◌, ℤ, pos, negsuc, is_negative, int_eq, int_sub, Result, ok, err, ends, ⊤, Jump,
  test_fail, test_verdict,
}

-- What the calls on a captured packet answer.
pub record Packet : Type 0 where
  pub pld_len : Result ℕ
  pub seqn : Result ℕ

-- `pkts_num` is reset before each capture, and is not wrapped.
pub record CbArgs : Type 0 where
  pub max_pld_size : ℤ
  pub pkts_num : ℕ
  pub first_small_pkt_seqn : ℤ
  pub last_seqn : ℤ
  pub too_big_pkt : Bool
  pub failed : Bool

-- An `unsigned int` as an `int`
abbrev pub to_int : ℕ → ℤ
to_int n = let m = n % 2 ^ 32 in if ltb m (2 ^ 31) then pos m else negsuc (2 ^ 32 - 1 - m)

abbrev pub int_ltb : ℤ → ℤ → Bool
int_ltb (pos a) (pos b) = ltb a b
int_ltb (pos _) (negsuc _) = false
int_ltb (negsuc _) (pos _) = true
int_ltb (negsuc a) (negsuc b) = ltb b a

-- The counter, and what the first packet of a capture resets
unfoldable pub begin_pkt : CbArgs → CbArgs
begin_pkt a =
    if a.pkts_num == 0
    then record a { pkts_num = a.pkts_num + 1; first_small_pkt_seqn = negsuc 0 }
    else record a { pkts_num = a.pkts_num + 1 }

-- The checks after tapi_tad_trrecv_get()
unfoldable pub judge : CbArgs → Result ⊤
judge a =
    if a.failed
    then ends test_fail
    else (if a.pkts_num == 0
        then ends test_fail
        else (if a.too_big_pkt
            then ends test_verdict
            else (if not (is_negative a.first_small_pkt_seqn)
                  && not (int_eq a.first_small_pkt_seqn a.last_seqn)
                then ends test_verdict
                else ok tt)))

-- `compare` is tapi_tcp_compare_seqn().
module _ (compare : ℤ → ℤ → ℤ) where
  abbrev pub before : ℤ → ℤ → Bool
  before a b = is_negative (compare a b)

  unfoldable pub note_last : ℤ → CbArgs → CbArgs
  note_last seqn a =
      if a.pkts_num == 1 || before a.last_seqn seqn then record a { last_seqn = seqn } else a

  unfoldable pub note_size : ℤ → ℤ → CbArgs → CbArgs
  note_size pld_len seqn a =
      if int_ltb pld_len a.max_pld_size
      then (if is_negative a.first_small_pkt_seqn || before seqn a.first_small_pkt_seqn
          then record a { first_small_pkt_seqn = seqn }
          else a)
      else (if int_ltb a.max_pld_size pld_len then record a { too_big_pkt = true } else a)

  unfoldable pub note_seqn : ℕ → Result ℕ → CbArgs → CbArgs
  unfolding note_last note_size
  note_seqn pld_len (ok seqn) a = note_size (to_int pld_len) (pos seqn) (note_last (pos seqn) a)
  note_seqn pld_len (err e) a = record a { failed = true }
  note_seqn pld_len (ends j) a = record a { failed = true }

  unfoldable pub note_len : Result ℕ → Result ℕ → CbArgs → CbArgs
  unfolding note_seqn
  note_len (ok pld_len) seqn a = note_seqn pld_len seqn a
  note_len (err e) seqn a = record a { failed = true }
  note_len (ends j) seqn a = record a { failed = true }

  unfoldable pub process_tcp : Packet → CbArgs → CbArgs
  unfolding note_len begin_pkt
  process_tcp pkt a = note_len pkt.pld_len pkt.seqn (begin_pkt a)

  -- tapi_tad_trrecv_get() calls the callback for each packet.
  unfoldable pub capture : List Packet → CbArgs → CbArgs
  unfolding process_tcp
  capture [] a = a
  capture (pkt ∷ pkts) a = capture pkts (process_tcp pkt a)

  unfoldable pub check_captured : List Packet → CbArgs → Result ⊤ × CbArgs
  unfolding capture judge
  check_captured pkts a = let a' = capture pkts (record a { pkts_num = 0 }) in (judge a', a')

-- The check of TCP_MAXSEG; MAX_MAXSEG_DIFF is 200. The test gives the MTU of one of five values.
unfoldable pub check_maxseg : ℤ → ℕ → Result ℤ
check_maxseg tcp_maxseg mtu =
    if int_ltb (pos mtu) tcp_maxseg
    then ends test_verdict
    else (if int_ltb tcp_maxseg (int_sub (pos mtu) (pos 200))
        then ends test_verdict
        else ok tcp_maxseg)

pub data PktSize : Type 0 where
  less equal more : PktSize

-- min_size and max_size; MAX_LEN_MULTIPLIER is 1.5, and the product is truncated.
unfoldable pub choose_sizes : PktSize → ℕ → Result (ℕ × ℕ)
choose_sizes less mtu_pld_size =
    if ltb (mtu_pld_size - 1) 1 then ends test_fail else ok (1, mtu_pld_size - 1)
choose_sizes equal mtu_pld_size = ok (mtu_pld_size, mtu_pld_size)
choose_sizes more mtu_pld_size =
    if ltb (mtu_pld_size * 3 / 2) (mtu_pld_size + 1)
    then ends test_fail
    else ok (mtu_pld_size + 1, mtu_pld_size * 3 / 2)
