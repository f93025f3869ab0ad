-- ===== src/RxPath/Capture/Late.antt =====
-- The callback for packets of Tester, over all captured packets: which numbers it notes as delayed.
use mathlib.Core.List.{append-nil, append_assoc}
use mathlib.Core.Path.{subst}
use net_drv_ts.Base.{
  ℕ, ◌+◌, ◌*◌, ◌%◌, ◌^◌, ◌<◌, ◌≡◌, refl, ap, sym, ◌∙◌, Bool, false, inl, inr, some, List, [], ◌∷◌,
  ◌++◌, map, length, ◌==◌, if◌then◌else◌, ℤ, arith, Bool-cases, if_true, if_false,
}
use net_drv_ts.RxPath.PacketId.{Packet, frame, get_pkt_id-frame}
use net_drv_ts.RxPath.Capture.{Capture, above, begin_pkt, process_tx_pkts, capture_all}
use net_drv_ts.RxPath.Capture.Delays.{Above, Above-weaken}

-- A captured packet: its timestamp and its number.
abbrev pub Seen : Type 0 → Type 0
Seen T = T × ℕ

abbrev pub frames : {T : Type 0} → Bool → ℕ → List (Seen T) → List (Packet T)
frames from k = map (λ p. frame from k p.0 p.1)

-- The numbers of the packets that came more than `limit` after the packet before.
abbrev pub late : {T : Type 0} → (T → T → ℤ) → ℕ → T → List (Seen T) → List ℕ
late sub limit prev [] = []
late sub limit prev ((t, i) ∷ more) =
    let rest = late sub limit t more in if above (sub t prev) limit then i ∷ rest else rest

-- Numbers below 2^32 that rise strictly, all above `b`.
abbrev pub Rising : {T : Type 0} → ℕ → List (Seen T) → Type 0
Rising b [] = Unit {0}
Rising b ((t, i) ∷ more) = (b < i) × (i < 2 ^ 32) × Rising i more

module _ {T : Type 0} (sub : T → T → ℤ) (from to : Bool) (k : ℕ) where
  pub begin-frame :
      (t : T) (i : ℕ) (c : Capture T)
      → c.failed ≡ false
      → i < 2 ^ 64
      → c.n_pkts + 1 < 2 ^ 32
      → begin_pkt to (frame from k t i) c
        ≡ (some t, record c { n_pkts = c.n_pkts + 1; cur_pkt_id = i })
  unfolding begin_pkt
  begin-frame t i c fine h few =
      let read : begin_pkt to (frame from k t i) c
          ≡ (some t, record c { n_pkts = (c.n_pkts + 1) % 2 ^ 32; cur_pkt_id = i }) =
        rw fine (rw (get_pkt_id-frame from to k t i h) refl) in
      read ∙ ap (λ n. (some t, record c { n_pkts = n; cur_pkt_id = i })) (omega arith)

  step-late :
      (t : T) (i : ℕ) (c : Capture T)
      → c.failed ≡ false
      → 0 < c.n_pkts
      → i < 2 ^ 64
      → c.n_pkts + 1 < 2 ^ 32
      → process_tx_pkts sub to (frame from k t i) c ≡ (
          if above (sub t c.prev_ts) ((c.pkt_send_delay * 5) % 2 ^ 32)
          then record c {
            n_pkts = c.n_pkts + 1;
            cur_pkt_id = i;
            delayed_pkt_ids = c.delayed_pkt_ids ++ (i ∷ []);
            prev_ts = t;
          }
          else record c { n_pkts = c.n_pkts + 1; cur_pkt_id = i; prev_ts = t })
  unfolding process_tx_pkts
  step-late t i c fine n h few =
      rw (begin-frame t i c fine h few)
        (let later : (c.n_pkts + 1 == 1) ≡ false = ground arith in rw later refl)

  -- What the callback leaves, from a capture that has seen a packet.
  pub record Noted (c c' : Capture T) (seen : List (Seen T)) : Type 0 where
    pub ids_lem :
        c'.delayed_pkt_ids
        ≡ c.delayed_pkt_ids ++ late sub ((c.pkt_send_delay * 5) % 2 ^ 32) c.prev_ts seen
    pub fine_lem : c'.failed ≡ false
    pub n_pkts_lem : c'.n_pkts ≡ c.n_pkts + length seen
    pub idx_lem : c'.cur_delayed_idx ≡ c.cur_delayed_idx
    pub n_groups_lem : c'.n_groups ≡ c.n_groups

  snoc_assoc : (xs : List ℕ) (y : ℕ) (ys : List ℕ) → (xs ++ (y ∷ [])) ++ ys ≡ xs ++ (y ∷ ys)
  snoc_assoc xs y ys = append_assoc xs (y ∷ []) ys

  pub all-Noted :
      (seen : List (Seen T)) (b : ℕ) (c : Capture T)
      → c.failed ≡ false
      → 0 < c.n_pkts
      → c.n_pkts + length seen < 2 ^ 32
      → Rising b seen
      → Noted c (capture_all (process_tx_pkts sub to) (frames from k seen) c) seen
  unfolding capture_all
  all-Noted [] b c fine n few h = record {
    ids_lem = sym (append-nil c.delayed_pkt_ids);
    fine_lem = fine;
    n_pkts_lem = omega arith;
    idx_lem = refl;
    n_groups_lem = refl;
  }
  all-Noted ((t, i) ∷ more) b c fine n few (up, word, rest) =
      let to_noted = λ (u : Capture T).
        Noted c (capture_all (process_tx_pkts sub to) (frames from k more) u) ((t, i) ∷ more) in
      let big = above (sub t c.prev_ts) ((c.pkt_send_delay * 5) % 2 ^ 32) in
      let step = step-late t i c fine n (omega arith) (omega arith) in
      elim (Bool-cases big) [
        | inl h ↦
            let c1 = record c {
              n_pkts = c.n_pkts + 1;
              cur_pkt_id = i;
              delayed_pkt_ids = c.delayed_pkt_ids ++ (i ∷ []);
              prev_ts = t;
            } in
            let done = all-Noted more i c1 fine (omega arith) (omega arith) rest in
            subst to_noted (sym (step ∙ if_true _ _ h)) (record {
              ids_lem =
                  done.ids_lem
                  ∙ snoc_assoc c.delayed_pkt_ids i _
                  ∙ ap (λ l. c.delayed_pkt_ids ++ l) (sym (if_true _ _ h));
              fine_lem = done.fine_lem;
              n_pkts_lem = done.n_pkts_lem ∙ omega arith;
              idx_lem = done.idx_lem;
              n_groups_lem = done.n_groups_lem;
            })
        | inr h ↦
            let c1 = record c { n_pkts = c.n_pkts + 1; cur_pkt_id = i; prev_ts = t } in
            let done = all-Noted more i c1 fine (omega arith) (omega arith) rest in
            subst to_noted (sym (step ∙ if_false _ _ h)) (record {
              ids_lem = done.ids_lem ∙ ap (λ l. c.delayed_pkt_ids ++ l) (sym (if_false _ _ h));
              fine_lem = done.fine_lem;
              n_pkts_lem = done.n_pkts_lem ∙ omega arith;
              idx_lem = done.idx_lem;
              n_groups_lem = done.n_groups_lem;
            })
      ]

pub late-Above :
    {T : Type 0} (sub : T → T → ℤ) (limit : ℕ) (prev : T) (b : ℕ) (seen : List (Seen T))
    → Rising b seen
    → Above b (late sub limit prev seen)
late-Above sub limit prev b [] h = tt
late-Above sub limit prev b ((t, i) ∷ more) (up, word, rest) =
    elim (Bool-cases (above (sub t prev) limit)) [
      | inl h ↦ rw h (up, word, late-Above sub limit t i more rest)
      | inr h ↦ rw h (
          Above-weaken i b (late sub limit t more) (omega arith)
            (late-Above sub limit t i more rest))
    ]
