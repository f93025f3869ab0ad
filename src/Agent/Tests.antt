-- ===== src/Agent/Tests.antt =====
-- Runs of the agent's routines.
use net_drv_ts.Base.{
  ℕ, ◌+◌, ◌/◌, ◌≡◌, ◌↔◌, inl, inr, refl, Bool, true, false, some, List, [], ◌∷◌, map, length, ltb,
  if◌then◌else◌, ok, err, te_rc, te_ta_unix, eilseq, other_error, no_module, arith,
}
use net_drv_ts.Agent.Payload.{encode, decode}
use net_drv_ts.Agent.Receive.{RisesFrom, packets, recv_pkts_exact_delay, recv_pkts_exact_delay_iff}
use net_drv_ts.Agent.Send.{
  SendAnswer, sent, send_pkts_exact_delay, Paced, keep, send_pkts-Paced, receive-send,
}
use net_drv_ts.Agent.Rules.{NicOps, tcp_v4_flow, add_rule, too_many_rx_rules}
use net_drv_ts.Agent.Rules.Removal.{NicLaws, mark, too_many_rx_rules-table}

recv_pkts_exact_delay_iff_example :
    (recv_pkts_exact_delay true (packets false (0 ∷ 2 ∷ 5 ∷ [])) ≡ ok 3)
    ↔ (RisesFrom 0 (0 ∷ 2 ∷ 5 ∷ []) × (3 ≡ length {A = ℕ} (0 ∷ 2 ∷ 5 ∷ [])))
recv_pkts_exact_delay_iff_example =
    recv_pkts_exact_delay_iff false true (0 ∷ 2 ∷ 5 ∷ []) 3 (omega arith)

duplicate_is_refused :
    recv_pkts_exact_delay true (packets false (0 ∷ 2 ∷ 2 ∷ [])) ≡ err (te_rc te_ta_unix eilseq)
unfolding recv_pkts_exact_delay encode decode
duplicate_is_refused = refl

abbrev us2ms : ℕ → ℕ
us2ms t = t / 1000

abbrev answers : ℕ → SendAnswer
answers _ = sent 9

-- A delay of 10 us for 1 ms; the moments 20 and 30 are missed.
abbrev readings : List ℕ
readings = 3 ∷ 11 ∷ 12 ∷ 37 ∷ 39 ∷ 41 ∷ 2000 ∷ []

send_run : send_pkts_exact_delay us2ms answers 10 1 readings ≡ record {
  status = some (ok 3);
  packets =
      record { id = 0; time = 11 }
      ∷ record { id = 1; time = 37 }
      ∷ record { id = 2; time = 41 }
      ∷ [];
}
unfolding send_pkts_exact_delay
send_run = refl

send_pkts-Paced_example :
    Paced us2ms answers 10 1 0 1 (send_pkts_exact_delay us2ms answers 10 1 readings).packets
send_pkts-Paced_example = send_pkts-Paced us2ms answers 10 1 readings (omega arith)

receive-send_example :
    let ids =
      keep
        (true ∷ false ∷ true ∷ [])
        (map (λ p. p.id) (send_pkts_exact_delay us2ms answers 10 1 readings).packets) in
    recv_pkts_exact_delay true (packets false ids) ≡ ok (length ids)
unfolding send_pkts_exact_delay
receive-send_example =
    receive-send us2ms answers 10 1 false true (true ∷ false ∷ true ∷ []) readings (omega arith)
      (omega arith)

-- A NIC that takes three rules, at locations of its choice; the world counts those inserted and
-- has the table.
abbrev NicWorld : Type 0
NicWorld = ℕ × (ℕ → Bool)

abbrev nic : NicOps NicWorld
nic = record {
  pick = λ w. (0, w);
  insert = λ r w.
      if ltb w.0 3
      then (inr w.0, (w.0 + 1, mark w.0 true w.1))
      else (inl (te_rc no_module (other_error 28)), w);
  delete = λ l w. (inr tt, (w.0, mark l false w.1));
}

abbrev nic_laws : NicLaws nic
nic_laws = record {
  table = λ w. w.1;
  pick-Keeps = λ w. refl;
  insert_ok = λ r w w' l h. ground arith;
  insert_fails = λ r w w' e h. ground arith;
  delete_ok = λ l w w' h. ground arith;
}

abbrev no_rules : NicWorld
no_rules = (0, λ _. false)

too_many_rx_rules-table_example :
    (too_many_rx_rules nic 2 tcp_v4_flow true 4294967295 no_rules).1.1 1 ≡ false
unfolding too_many_rx_rules add_rule
too_many_rx_rules-table_example =
    too_many_rx_rules-table nic nic_laws 2 tcp_v4_flow true 4294967295 no_rules 1 (λ x. refl) refl
