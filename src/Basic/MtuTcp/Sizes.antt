-- ===== src/Basic/MtuTcp/Sizes.antt =====
-- TCP_MAXSEG and the sizes of data of net-drv-ts/basic/mtu_tcp.c.
use net_drv_ts.Base.{
  refl, ltb, int_sub, negsuc, inl, inr, ◌-◌, ◌*◌, ◌/◌, ℕ, ◌+◌, ◌<◌, ◌≤◌, ◌≡◌, ◌∙◌, ap, sym, ℤ, pos,
  Result, ok, value_or, arith, Bool-cases, if_true, if_false,
}
use net_drv_ts.Basic.MtuTcp.{PktSize, less, equal, more, int_ltb, check_maxseg, choose_sizes}

-- The sizes of data that `pkt_size` asks for.
abbrev pub IsRange : PktSize → ℕ → ℕ → ℕ → Type 0
IsRange less max min_size max_size = (min_size ≡ 1) × (min_size ≤ max_size) × (max_size < max)
IsRange equal max min_size max_size = (min_size ≡ max) × (max_size ≡ max)
IsRange more max min_size max_size =
    (max < min_size) × (min_size ≤ max_size) × (2 * max_size ≤ 3 * max)

pub choose_sizes-IsRange :
    (pkt_size : PktSize) (max min_size max_size : ℕ)
    → choose_sizes pkt_size max ≡ ok (min_size, max_size)
    → IsRange pkt_size max min_size max_size
unfolding choose_sizes
choose_sizes-IsRange less max min_size max_size e = elim (Bool-cases (ltb (max - 1) 1)) [
  | inl bad ↦ absurd (cc (sym (if_true _ _ bad) ∙ e))
  | inr fine ↦
      let both = sym (if_false _ _ fine) ∙ e in
      let low : 1 ≡ min_size = ap (λ (r : Result (ℕ × ℕ)). (value_or (0, 0) r).0) both in
      let high : max - 1 ≡ max_size = ap (λ (r : Result (ℕ × ℕ)). (value_or (0, 0) r).1) both in
      (sym low, ground (arith, low, high, fine), ground (arith, high, fine))
]
choose_sizes-IsRange equal max min_size max_size e = (
  ap (λ (r : Result (ℕ × ℕ)). (value_or (0, 0) r).0) (sym e),
  ap (λ (r : Result (ℕ × ℕ)). (value_or (0, 0) r).1) (sym e),
)
choose_sizes-IsRange more max min_size max_size e =
    elim (Bool-cases (ltb (max * 3 / 2) (max + 1))) [
      | inl bad ↦ absurd (cc (sym (if_true _ _ bad) ∙ e))
      | inr fine ↦
          let both = sym (if_false _ _ fine) ∙ e in
          let low : max + 1 ≡ min_size = ap (λ (r : Result (ℕ × ℕ)). (value_or (0, 0) r).0) both in
          let high : max * 3 / 2 ≡ max_size =
            ap (λ (r : Result (ℕ × ℕ)). (value_or (0, 0) r).1) both in
          (omega (arith, low), ground (arith, low, high, fine), omega (arith, high))
    ]

pub check_maxseg-eq-ok :
    (seen tcp_maxseg : ℤ) (mtu : ℕ)
    → 200 < mtu
    → check_maxseg seen mtu ≡ ok tcp_maxseg
    → (max : ℕ) × (seen ≡ pos max) × (tcp_maxseg ≡ pos max) × (max ≤ mtu) × (mtu ≤ max + 200)
unfolding check_maxseg
check_maxseg-eq-ok (pos n) tcp_maxseg mtu large e = elim (Bool-cases (ltb mtu n)) [
  | inl bad ↦ absurd (cc (sym (if_true _ _ bad) ∙ e))
  | inr fine ↦
      let e1 = sym (if_false _ _ fine) ∙ e in
      let least : int_sub (pos mtu) (pos 200) ≡ pos (mtu - 200) = ground arith in
      elim (Bool-cases (ltb n (mtu - 200))) [
        | inl small ↦ absurd (cc (sym (if_true _ _ (ap (int_ltb (pos n)) least ∙ small)) ∙ e1))
        | inr enough ↦
            let same = sym (if_false _ _ (ap (int_ltb (pos n)) least ∙ enough)) ∙ e1 in
            (
              n,
              refl,
              ap (value_or (pos 0)) (sym same),
              ground (arith, fine),
              ground (arith, enough),
            )
      ]
]
check_maxseg-eq-ok (negsuc n) tcp_maxseg mtu large e =
    let least : int_sub (pos mtu) (pos 200) ≡ pos (mtu - 200) = ground arith in
    absurd (cc (sym (if_true _ _ (ap (int_ltb (negsuc n)) least)) ∙ e))
