-- ===== src/Basic/MtuTcp/Noted.antt =====
-- What the flags and the numbers that process_tcp() of net-drv-ts/basic/mtu_tcp.c leaves say of the
-- packets that were captured.
use mathlib.Core.Path.{subst}
use net_drv_ts.Base.{
  ℕ, ◌+◌, ◌<◌, ◌≡◌, inl, inr, refl, ap, sym, ◌∙◌, Bool, true, false, ◌||◌, List, [], ◌∷◌, ltb, ◌==◌,
  if_true, if_false, if◌then◌else◌, ℤ, pos, negsuc, Bool-cases, arith, ltb→lt,
}
use net_drv_ts.Basic.MtuTcp.{
  CbArgs, to_int, int_ltb, before, note_last, note_size, note_seqn, note_len, begin_pkt,
  process_tcp,
}
use net_drv_ts.Basic.MtuTcp.Segments.{
  Segment, as_packet, Caught, offset, InWindow, to_int-eq, CompareLaw, Last, Small, Big, Last-step,
  Big-keep, Small-step, Small-skip,
}

-- What the arguments of the callback say of the segments `done`, the latest one first.
pub record Noted (max start : ℕ) (done : List Segment) (a : CbArgs) : Type 0 where
  pub fine : a.failed ≡ false
  pub size : a.max_pld_size ≡ pos max
  pub count : 0 < a.pkts_num
  pub last : Last max start done a.last_seqn
  pub small : Small max start done a.first_small_pkt_seqn
  pub big : Big max start done a.too_big_pkt

module _ (max start : ℕ) (compare : ℤ → ℤ → ℤ) (law : CompareLaw compare start) where
  cond_short-Noted :
      (done : List Segment) (b : Bool) (f : ℤ) (a : CbArgs)
      → a.failed ≡ false
      → a.max_pld_size ≡ pos max
      → 0 < a.pkts_num
      → Last max start done a.last_seqn
      → Small max start done (if b then f else a.first_small_pkt_seqn)
      → Big max start done a.too_big_pkt
      → Noted max start done (if b then record a { first_small_pkt_seqn = f } else a)
  cond_short-Noted done true f a fine size count last small big = record {
    fine = fine;
    size = size;
    count = count;
    last = last;
    small = small;
    big = big;
  }
  cond_short-Noted done false f a fine size count last small big = record {
    fine = fine;
    size = size;
    count = count;
    last = last;
    small = small;
    big = big;
  }

  note_size-Noted :
      (done : List Segment) (x : Segment) (a : CbArgs)
      → InWindow start x
      → ((y : Segment) → Caught y done → InWindow start y)
      → a.failed ≡ false
      → a.max_pld_size ≡ pos max
      → 0 < a.pkts_num
      → Last max start (x ∷ done) a.last_seqn
      → Small max start done a.first_small_pkt_seqn
      → Big max start done a.too_big_pkt
      → Noted max start (x ∷ done) (note_size compare (pos x.0) (pos x.1) a)
  unfolding note_size
  note_size-Noted done x a wx wd fine size count last small big =
      let here = λ (u : CbArgs). Noted max start (x ∷ done) u in
      let short = ap (λ m. int_ltb (pos x.0) m) size in
      let long = ap (λ m. int_ltb m (pos x.0)) size in
      elim (Bool-cases (ltb x.0 max)) [
        | inl less ↦ subst here (sym (if_true _ _ (short ∙ less))) (
            cond_short-Noted (x ∷ done) _ (pos x.1) a fine size count last
              (Small-step max start compare law done x a.first_small_pkt_seqn wx wd small
                (ltb→lt _ _ less))
              (Big-keep max start done x a.too_big_pkt (omega (arith, ltb→lt _ _ less)) big))
        | inr more ↦
            let small' =
              Small-skip max start done x a.first_small_pkt_seqn (ground (arith, more)) small in
            elim (Bool-cases (ltb max x.0)) [
              | inl above ↦
                  subst here (sym (if_false _ _ (short ∙ more) ∙ if_true _ _ (long ∙ above)))
                    (record {
                      fine = fine;
                      size = size;
                      count = count;
                      last = last;
                      small = small';
                      big = inr (refl, x, inl refl, ltb→lt _ _ above);
                    })
              | inr fits ↦
                  subst here (sym (if_false _ _ (short ∙ more) ∙ if_false _ _ (long ∙ fits)))
                    (record {
                      fine = fine;
                      size = size;
                      count = count;
                      last = last;
                      small = small';
                      big = Big-keep max start done x a.too_big_pkt (ground (arith, fits)) big;
                    })
            ]
      ]

  cond_end-Noted :
      (done : List Segment) (x : Segment) (b : Bool) (a : CbArgs)
      → InWindow start x
      → ((y : Segment) → Caught y done → InWindow start y)
      → a.failed ≡ false
      → a.max_pld_size ≡ pos max
      → 0 < a.pkts_num
      → Last max start (x ∷ done) (if b then pos x.1 else a.last_seqn)
      → Small max start done a.first_small_pkt_seqn
      → Big max start done a.too_big_pkt
      → Noted max start (x ∷ done) (
          note_size compare
            (to_int x.0)
            (pos x.1)
            (if b then record a { last_seqn = pos x.1 } else a))
  cond_end-Noted done x true a wx wd fine size count last small big =
      subst
        (λ n.
          Noted max start (x ∷ done)
            (note_size compare n (pos x.1) (record a { last_seqn = pos x.1 })))
        (sym (to_int-eq x.0 wx.len_fits))
        (note_size-Noted done x (record a { last_seqn = pos x.1 }) wx wd fine size count last small
          big)
  cond_end-Noted done x false a wx wd fine size count last small big =
      subst (λ n. Noted max start (x ∷ done) (note_size compare n (pos x.1) a))
        (sym (to_int-eq x.0 wx.len_fits))
        (note_size-Noted done x a wx wd fine size count last small big)

  pub process-Noted :
      (done : List Segment) (x : Segment) (a : CbArgs)
      → InWindow start x
      → ((y : Segment) → Caught y done → InWindow start y)
      → Noted max start done a
      → Noted max start (x ∷ done) (process_tcp compare (as_packet x) a)
  unfolding process_tcp note_len note_seqn begin_pkt note_last
  process-Noted done x a wx wd h =
      let a1 = record a { pkts_num = a.pkts_num + 1 } in
      let later : (a.pkts_num == 0) ≡ false = ground (arith, h.count) in
      let second : (a.pkts_num + 1 == 1) ≡ false = ground (arith, h.count) in
      let old_last : Last max start (x ∷ done) (
          if (a.pkts_num + 1 == 1 || before compare a.last_seqn (pos x.1))
          then pos x.1
          else a.last_seqn) =
        subst
          (λ b.
            Last max start (x ∷ done)
              (if b || before compare a.last_seqn (pos x.1) then pos x.1 else a.last_seqn))
          (sym second) (Last-step max start compare law done x a.last_seqn wx wd h.last) in
      subst
        (λ u.
          Noted max start (x ∷ done)
            (note_size compare (to_int x.0) (pos x.1) (note_last compare (pos x.1) u)))
        (sym (if_false _ _ later))
        (cond_end-Noted done x _ a1 wx wd h.fine h.size (omega arith) old_last h.small h.big)

  pub process_first-Noted :
      (x : Segment) (a : CbArgs)
      → InWindow start x
      → a.pkts_num ≡ 0
      → a.failed ≡ false
      → a.too_big_pkt ≡ false
      → a.max_pld_size ≡ pos max
      → Noted max start (x ∷ []) (process_tcp compare (as_packet x) a)
  unfolding process_tcp note_len note_seqn begin_pkt note_last
  process_first-Noted x a wx none fine fits size =
      let a1 = record a { pkts_num = a.pkts_num + 1; first_small_pkt_seqn = negsuc 0 } in
      let first : (a.pkts_num == 0) ≡ true = ground (arith, none) in
      let one : (a.pkts_num + 1 == 1) ≡ true = ground (arith, none) in
      subst
        (λ u.
          Noted max start (x ∷ [])
            (note_size compare (to_int x.0) (pos x.1) (note_last compare (pos x.1) u)))
        (sym (if_true _ _ first))
        (cond_end-Noted [] x _ a1 wx (λ y h. absurd h) fine size (omega arith)
          (subst
            (λ b.
              Last max start (x ∷ [])
                (if b || before compare a.last_seqn (pos x.1) then pos x.1 else a.last_seqn))
            (sym one)
            (
              x,
              inl refl,
              refl,
              λ y h. elim h [
                | inl e ↦ omega (arith, ap (λ q. offset start q.1) e)
                | inr m ↦ absurd m
              ],
            ))
          (inl (refl, λ y h. absurd h)) (inl (fits, λ y h. absurd h)))
