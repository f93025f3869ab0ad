-- ===== src/Library/Traffic/Tests.antt =====
-- A socket that hands over one byte at a time, and one whose peer has closed the connection.
use mathlib.Core.List.{append-nil}
use net_drv_ts.Base.{
  ℕ, zero, suc, ◌<◌, ◌≤◌, ◌≡◌, ◌≢◌, ◌⊎◌, refl, ap, sym, Bool, true, false, not, Option, none, some,
  List, [], ◌∷◌, ◌++◌, Bytes, length, Result, ok, err, ends, te_rc, te_tapi, einval, value_or,
  arith,
}
use net_drv_ts.Library.Traffic.{
  SocketOps, recv_loop, received, compared, finish_recv, after_send, sendto_recv_check_gen,
}
use net_drv_ts.Library.Traffic.Loop.{SocketLaws, sendto_recv_check-delivered}
use net_drv_ts.Library.Traffic.Ending.{
  NeverEmpty, IsClosed, sendto_recv_check_terminates, sendto_recv_check_stuck,
}

-- What was sent and not received yet, and what was received.
abbrev Queue : Type 0
Queue = Bytes × Bytes

abbrev recv_byte : ℕ → Queue → Result Bytes × Queue
recv_byte zero w = (ok [], w)
recv_byte (suc r) ([], d) = (err (te_rc te_tapi einval), ([], d))
recv_byte (suc r) (b ∷ p, d) = (ok (b ∷ []), (p, d ++ (b ∷ [])))

abbrev is_nonempty : Bytes → Bool
is_nonempty [] = false
is_nonempty (b ∷ p) = true

abbrev byte_ops : SocketOps Queue
byte_ops = record {
  send = λ b w. (ok (length b), (w.0 ++ b, w.1));
  readable = λ w. (is_nonempty w.0, w);
  recv = recv_byte;
}

recv_byte-delivers :
    (room : ℕ) (w w' : Queue) (bs : Bytes) → recv_byte room w ≡ (ok bs, w') → w'.1 ≡ w.1 ++ bs
recv_byte-delivers zero (p, d) w' bs e =
    rw (sym (ap (λ q. value_or [] q.0) e), sym (ap (λ q. q.1) e), append-nil d) refl
recv_byte-delivers (suc r) ([], d) w' bs e = absurd (ground arith)
recv_byte-delivers (suc r) (b ∷ p, d) w' bs e =
    rw (sym (ap (λ q. value_or [] q.0) e), sym (ap (λ q. q.1) e)) refl

recv_byte-fits :
    (room : ℕ) (w w' : Queue) (bs : Bytes) → recv_byte room w ≡ (ok bs, w') → length bs ≤ room
recv_byte-fits zero (p, d) w' bs e = rw (sym (ap (λ q. value_or [] q.0) e)) (omega arith)
recv_byte-fits (suc r) ([], d) w' bs e = absurd (ground arith)
recv_byte-fits (suc r) (b ∷ p, d) w' bs e = rw (sym (ap (λ q. value_or [] q.0) e)) (omega arith)

recv_byte-NeverEmpty : NeverEmpty byte_ops
recv_byte-NeverEmpty zero w w' bs h e = absurd (omega arith)
recv_byte-NeverEmpty (suc r) ([], d) w' bs h e = absurd (ground arith)
recv_byte-NeverEmpty (suc r) (b ∷ p, d) w' bs h e =
    rw (sym (ap (λ q. value_or [] q.0) e)) (omega arith)

abbrev byte_laws : SocketLaws byte_ops
byte_laws = record {
  delivered = λ w. w.1;
  send_delivers = λ b w. refl;
  readable_delivers = λ w. refl;
  recv_delivers = recv_byte-delivers;
  recv_fits = recv_byte-fits;
}

abbrev packet : Bytes
packet = 10 ∷ 20 ∷ 30 ∷ []

sendto_recv_check-delivered_example :
    ((length packet ≡ length packet) × (packet ≡ [] ++ packet))
    ⊎ ((false ≡ true) × (length packet ≡ 0) × (packet ≡ []))
unfolding sendto_recv_check_gen after_send finish_recv compared recv_loop received
    net_drv_ts.Base.str_eq
sendto_recv_check-delivered_example =
    sendto_recv_check-delivered byte_ops byte_laws 4 false packet 3 ([], []) ([], packet) refl

sendto_recv_check_terminates_example : sendto_recv_check_gen byte_ops 3 false packet ([], []) ≢ none
sendto_recv_check_terminates_example =
    sendto_recv_check_terminates byte_ops 3 false packet ([], []) recv_byte-NeverEmpty (omega arith)
      (omega arith) (omega arith)

abbrev closed_ops : SocketOps Unit
closed_ops = record {
  send = λ b w. (ok (length b), w);
  readable = λ w. (true, w);
  recv = λ room w. (ok [], w);
}

abbrev closed : IsClosed closed_ops
closed = record { sends = λ b w. refl; stays_readable = λ w. refl; end_of_file = λ room w. refl }

sendto_recv_check_stuck_example : sendto_recv_check_gen closed_ops 100 false packet tt ≡ none
sendto_recv_check_stuck_example =
    sendto_recv_check_stuck closed_ops closed 100 false packet tt (omega arith)
