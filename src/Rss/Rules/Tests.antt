-- ===== src/Rss/Rules/Tests.antt =====
-- A NIC without special locations, whose location 0 has a rule.
use net_drv_ts.Base.{
  ⊤, ℕ, zero, suc, ◌+◌, ◌≡◌, ◌⊎◌, inl, inr, refl, ap, sym, ◌∙◌, Bool, false, none, some, Option, [],
  ◌∷◌, ok, err, ends, Jump, Result, ◌==◌, if◌then◌else◌, te_rc, te_cs, enoent, value_or, Bool-cases,
  if_true, if_false, true,
}
use net_drv_ts.Rss.Rules.{
  RuleAddrs, RuleOps, rule_family, find_loc, insert_rule, add_rule_of, add_tcpudp_rx_rule,
}
use net_drv_ts.Rss.Rules.Table.{RxRule, Table, IsPut, RuleLaws}
use net_drv_ts.Rss.Rules.Insertion.{add_tcpudp_rx_rule_lem}

-- The rule that is described, and the table.
abbrev Nic : Type 0
Nic = RxRule × Table

abbrev is_there : Option RxRule → Bool
is_there none = false
is_there (some _) = true

-- The first free location of `left` ones from `i` on
abbrev first_free : Table → ℕ → ℕ → Result ℕ
first_free table zero i = err (te_rc te_cs enoent)
first_free table (suc left) i =
    let rest = first_free table left (suc i) in if is_there (table i) then rest else ok i

free_if : (r : Option RxRule) → is_there r ≡ false → r ≡ none
free_if none e = refl
free_if (some r) e = absurd (cc e)

first_free-none : (table : Table) (left i l : ℕ) → first_free table left i ≡ ok l → table l ≡ none
first_free-none table zero i l e = absurd (cc e)
first_free-none table (suc left) i l e = elim (Bool-cases (is_there (table i))) [
  | inl taken ↦ first_free-none table left (suc i) l (sym (if_true _ _ taken) ∙ e)
  | inr free ↦
      let here : i ≡ l = ap (value_or i) (sym (if_false _ _ free) ∙ e) in
      ap table (sym here) ∙ free_if (table i) free
]

abbrev put : ℕ → RxRule → Table → Table
put l rule table i = if i == l then some rule else table i

abbrev commit_to : Option ℕ → Nic → Result ⊤ × Nic
commit_to none w = (err (te_rc te_cs enoent), w)
commit_to (some l) w = (ok tt, (w.0, put l w.0 w.1))

abbrev ops : RuleOps Nic
ops = record {
  table_size_get = λ w. ok 16;
  spec_loc_get = λ w. ok false;
  find_location = λ w. first_free w.1 16 0;
  flow_by_socket = λ af t. af + t;
  add = λ l f w. (ok tt, (record { flow = f; addrs = none; queue = none }, w.1));
  fill_ip_addrs_ports = λ l af a w. (ok tt, (record (w.0) { addrs = some a }, w.1));
  rx_queue_set = λ l q w. (ok tt, (record (w.0) { queue = some q }, w.1));
  commit = commit_to;
}

not_committed :
    (l : Option ℕ) (w : Nic) → ((commit_to l w).0 ≡ ok tt → ⊥) → (commit_to l w).1.1 ≡ w.1
not_committed none w failed = refl
not_committed (some l) w failed = absurd (failed refl)

abbrev laws : RuleLaws ops
laws = record {
  draft = λ w l. w.0;
  table = λ w. w.1;
  special = false;
  spec_loc_lem = λ b w e. ap (value_or false) (sym e);
  location_lem = λ l w e. first_free-none w.1 16 0 l e;
  add_draft = λ l f w w' e. ap (λ p. p.1.0) (sym e);
  fill_draft = λ l f a w w' e. ap (λ p. p.1.0) (sym e);
  queue_draft = λ l q w w' e. ap (λ p. p.1.0) (sym e);
  add_table = λ l f w. refl;
  fill_table = λ l af a w. refl;
  queue_table = λ l q w. refl;
  commit_at = λ l w w' e i. ap (λ p. p.1.1 i) (sym e);
  commit_any = λ w w' special e. absurd (cc special);
  commit_fails = not_committed;
}

abbrev addrs : RuleAddrs
addrs = record {
  src_addr = some (record { sa_family = 2; sa_data = 10 ∷ [] });
  src_mask = none;
  dst_addr = none;
  dst_mask = none;
}

abbrev old_rule : RxRule
old_rule = record { flow = 7; addrs = none; queue = some 1 }

abbrev one_rule : Nic
one_rule = (old_rule, put 0 old_rule (λ i. none))

-- The rule goes to location 1.
second_location :
    let rule : RxRule = record { flow = 3; addrs = some addrs; queue = some 5 } in
    let (r, w') = add_tcpudp_rx_rule ops addrs 1 5 one_rule in
    (r ≡ ok tt) × (w'.1 0 ≡ some old_rule) × (w'.1 1 ≡ some rule) × (w'.1 2 ≡ none)
unfolding rule_family add_tcpudp_rx_rule add_rule_of find_loc insert_rule
second_location = (refl, refl, refl, refl)

add_tcpudp_rx_rule_lem_example :
    let rule : RxRule = record { flow = 3; addrs = some addrs; queue = some 5 } in
    let (r, w') = add_tcpudp_rx_rule ops addrs 1 5 one_rule in
    ((r ≡ ok tt) × (l : ℕ) × (one_rule.1 l ≡ none) × IsPut l rule one_rule.1 w'.1)
    ⊎ ((j : Jump) × (r ≡ ends j) × (w'.1 ≡ one_rule.1))
unfolding rule_family
add_tcpudp_rx_rule_lem_example = add_tcpudp_rx_rule_lem ops laws 2 addrs 1 5 one_rule refl
