-- ===== src/Flow/Tests.antt =====
-- A flow between two RPC servers.
use net_drv_ts.Base.{
  ℕ, ◌<◌, ◌≤◌, ◌≡◌, ◌↔◌, refl, ap, sym, Bool, true, false, none, some, Option, ◌==◌, if◌then◌else◌,
  TeErrno,
}
use net_drv_ts.Flow.{Flow, FlowOps, flow_finish, assign_ends}
use net_drv_ts.Flow.Check.{DrainEnded, FlowLaws, flow_finish_iff, assign_ends_mirror}

-- The world says which servers run.
abbrev Servers : Type 0
Servers = ℕ → Bool

abbrev ops : FlowOps Servers
ops = record {
  close = λ r s w. (none, w);
  destroy = λ r w. (none, λ q. if r == q then false else w q);
  start_drain = λ r s w. w;
  start_send = λ r s w. w;
  pattern_sender = λ r s w. ((none, 1000), w);
  drain = λ r s w. ((none, 900), w);
}

abbrev flow : Flow
flow = record {
  rpcs1 = some 1;
  rpcs2 = some 2;
  tx = true;
  flow_id = 0;
  new_processes = true;
  conn = record { rpcs1 = some 1; rpcs2 = some 2; s1 = some 5; s2 = some 6 };
  duration = 10;
  ignore_send_err = false;
  min_size = 1;
  max_size = 1400;
  sender_rpcs = some 1;
  receiver_rpcs = some 2;
  sender_s = some 5;
  receiver_s = some 6;
  in_progress = false;
  success = false;
}

abbrev all_run : Servers
all_run = λ q. true

flow_finish_iff_example :
    (((flow_finish ops flow all_run).0.success ≡ true)
      ↔ ((◌≡◌ {A = Option TeErrno} none none) × DrainEnded none × (0 < 900) × (900 ≤ 1000)))
    × ((flow_finish ops flow all_run).0.in_progress ≡ false)
flow_finish_iff_example =
    flow_finish_iff ops flow all_run all_run all_run none none 1000 900 refl refl

destroy-ends :
    (r q : ℕ) (w w' : Servers)
    → ops.destroy r w ≡ (none, w')
    → w' q ≡ (if r == q then false else w q)
destroy-ends r q w w' e = ap (λ p. p.1 q) (sym e)

abbrev laws : FlowLaws ops
laws = record { runs = λ w q. w q; close-Keeps = λ r s w. refl; destroy_ends = destroy-ends }

assign_ends_mirror_example :
    let there = assign_ends (record flow { tx = true }) in
    let back = assign_ends (record flow { tx = false }) in
    (there.sender_rpcs ≡ back.receiver_rpcs)
    × (there.sender_s ≡ back.receiver_s)
    × (there.receiver_rpcs ≡ back.sender_rpcs)
    × (there.receiver_s ≡ back.sender_s)
assign_ends_mirror_example = assign_ends_mirror flow
