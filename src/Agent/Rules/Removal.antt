-- ===== src/Agent/Rules/Removal.antt =====
-- The NIC's table of Rx rules is left as it was found.
use net_drv_ts.Base.{
  ℕ, zero, suc, ◌+◌, ◌≡◌, refl, Bool, true, false, not, ◌&&◌, ◌||◌, Option, none, some, List, [],
  ◌∷◌, ◌++◌, length, length-append, ◌==◌, ◌⊎◌, if◌then◌else◌, TeErrno, arith, inl, inr,
}
use net_drv_ts.Agent.Rules.{
  FlowType, Rule, NicOps, Adding, inserted, add_rule, add_dst, add_src, remove_rules, start,
  too_many_rx_rules, unless_stopped,
}

abbrev pub mark : ℕ → Bool → (ℕ → Bool) → ℕ → Bool
mark p b f q = if p == q then b else f q

-- What the function relies on: a rule that is inserted is put at the location that is answered; a
-- failed insertion and the choice of a queue change no rule; a deletion frees its location alone.
pub record NicLaws {W : Type 0} (o : NicOps W) : Type 0 where
  pub table : W → ℕ → Bool
  pub pick-Keeps : (w : W) → table (o.pick w).1 ≡ table w
  pub insert_ok :
      (r : Rule) (w w' : W) (l : ℕ) → o.insert r w ≡ (inr l, w') → table w' ≡ mark l true (table w)
  pub insert_fails :
      (r : Rule) (w w' : W) (e : TeErrno) → o.insert r w ≡ (inl e, w') → table w' ≡ table w
  pub delete_ok :
      (l : ℕ) (w w' : W) → o.delete l w ≡ (inr tt, w') → table w' ≡ mark l false (table w)

abbrev contains : List ℕ → ℕ → Bool
contains [] q = false
contains (l ∷ ls) q = l == q || contains ls q

contains-append : (ls : List ℕ) (l q : ℕ) → contains (ls ++ (l ∷ [])) q ≡ (contains ls q || l == q)
contains-append [] l q = ground arith
contains-append (x ∷ ls) l q = ground (arith, contains-append ls l q)

module _ {W : Type 0} (o : NicOps W) (laws : NicLaws o) where
  open laws use {table, pick-Keeps, insert_ok, insert_fails, delete_ok}

  -- In a table that was empty stand exactly the rules added, and they are counted.
  record Adds (a : Adding W) : Type 0 where
    counted : a.rules_count ≡ length a.added_rules
    held : (q : ℕ) → table a.world q ≡ contains a.added_rules q

  inserted-Adds :
      (flow : FlowType) (any : Bool) (a : Adding W) (w : W) (r : Rule) (p : (TeErrno ⊎ ℕ) × W)
      → Adds a
      → table w ≡ table a.world
      → o.insert r w ≡ p
      → Adds (inserted o flow any a p)
  unfolding inserted
  inserted-Adds flow any a w r (inr l, w') inv same e = record {
    counted = omega (arith, inv.counted, length-append a.added_rules (l ∷ []));
    held = λ q.
        rw (insert_ok r w w' l e, same, contains-append a.added_rules l q)
          (ground (arith, inv.held q));
  }
  inserted-Adds flow any a w r (inl x, w') inv same e = record {
    counted = inv.counted;
    held = λ q. rw (insert_fails r w w' x e, same) (inv.held q);
  }

  add_rule-Adds :
      (flow : FlowType) (any : Bool) (src dst : ℕ) (a : Adding W)
      → Adds a
      → Adds (add_rule o flow any src dst a)
  unfolding add_rule
  add_rule-Adds flow any src dst a inv =
      inserted-Adds flow any a _ _ _ inv (pick-Keeps a.world) refl

  unless_stopped-Adds :
      (s : Option TeErrno) (rest : Adding W → Adding W) (a : Adding W)
      → Adds a
      → ((b : Adding W) → Adds b → Adds (rest b))
      → Adds (unless_stopped s rest a)
  unfolding unless_stopped
  unless_stopped-Adds (some e) rest a inv h = inv
  unless_stopped-Adds none rest a inv h = h a inv

  add_dst-Adds :
      (flow : FlowType) (any : Bool) (src todo dst : ℕ) (a : Adding W)
      → Adds a
      → Adds (add_dst o flow any src todo dst a)
  unfolding add_dst
  add_dst-Adds flow any src zero dst a inv = inv
  add_dst-Adds flow any src (suc todo) dst a inv =
      unless_stopped-Adds a.stopped _ a inv
        (λ b i. add_dst-Adds flow any src todo (dst + 1) _ (add_rule-Adds flow any src dst b i))

  add_src-Adds :
      (flow : FlowType) (any : Bool) (ports todo src : ℕ) (a : Adding W)
      → Adds a
      → Adds (add_src o flow any ports todo src a)
  unfolding add_src
  add_src-Adds flow any ports zero src a inv = inv
  add_src-Adds flow any ports (suc todo) src a inv =
      unless_stopped-Adds a.stopped _ a inv (λ b i.
        add_src-Adds flow any ports todo (src + 1) _ (add_dst-Adds flow any src ports 1 b i))

  -- Where every deletion succeeds, no location of the list is left.
  remove_rules-table :
      (ls : List ℕ) (w : W) (q : ℕ)
      → (remove_rules o ls w).0 ≡ true
      → table (remove_rules o ls w).1 q ≡ (not (contains ls q) && table w q)
  unfolding remove_rules
  remove_rules-table [] w q h = refl
  remove_rules-table (l ∷ ls) w q h =
      let w1 = (o.delete l w).1 in
      let step = remove_rules-table ls w1 q in ground (arith, step, delete_table l w q)
    where
      delete_table :
          (l : ℕ) (w : W) (q : ℕ)
          → ((o.delete l w).0 ≡ inr tt)
          → table (o.delete l w).1 q ≡ mark l false (table w) q
      delete_table l w q e = rw (delete_ok l w (o.delete l w).1 (ground (arith, e)))

  -- From an empty table of rules, whatever number of them the NIC accepts, and by whichever way
  -- of choosing locations: a result of 0 means that the table is empty again.
  pub too_many_rx_rules-table :
      (ports : ℕ) (flow : FlowType) (any : Bool) (special : ℕ) (w : W) (q : ℕ)
      → ((x : ℕ) → table w x ≡ false)
      → (too_many_rx_rules o ports flow any special w).0.2 ≡ true
      → table (too_many_rx_rules o ports flow any special w).1 q ≡ false
  unfolding too_many_rx_rules
  too_many_rx_rules-table ports flow any special w q empty fine =
      let a0 = record (start w) { location = if any then special else 0 } in
      let a = add_src o flow any ports ports 1 a0 in
      let inv = add_src-Adds flow any ports ports 1 a0 (record { counted = refl; held = empty }) in
      ground (arith, remove_rules-table a.added_rules a.world q fine, inv.held q)
