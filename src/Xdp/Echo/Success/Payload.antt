-- ===== src/Xdp/Echo/Success/Payload.antt =====
-- The payload of net_drv_xdp_echo() of net-drv-ts/rss/common_rss.c: its length and its sending.
use net_drv_ts.Base.{
  ℕ, ◌≤◌, ◌≡◌, ◌∙◌, inl, inr, refl, ap, ap₂, sym, Bool, true, false, Bytes, ◌==◌, ltb,
  if◌then◌else◌, M, ok, test_fail, pure, jump, ◌>>=◌, >>=-eq-ok, value_or, Bool-cases, arith,
}
use net_drv_ts.Xdp.Echo.{EchoOps, pick_rss_payload_len}
use net_drv_ts.Xdp.Echo.{send_payload}

module _ {W : Type 0} (o : EchoOps W) where
  -- What is relied on of the random numbers.
  abbrev pub RandLaw : Type 0
  RandLaw = (a b v : ℕ) (w w' : W) → a ≤ b → o.rand_range a b w ≡ (ok v, w') → (a ≤ v) × (v ≤ b)

  -- The length of the payload is never out of range, so that the check of the range is passed.
  pub pick_rss_payload_len-bounds :
      RandLaw
      → (jumbo : Bool) (hard_max v : ℕ) (w w' : W)
      → pick_rss_payload_len o jumbo hard_max w ≡ (ok v, w')
      → (1 ≤ v) × (v ≤ hard_max) × (v ≤ (if jumbo then 8192 else 1024)) × (jumbo ≡ true → 4096 ≤ v)
  unfolding pick_rss_payload_len
  pick_rss_payload_len-bounds rand true hard_max v w w' e = elim (Bool-cases (ltb hard_max 8192)) [
    | inl small ↦ absurd (cc (ap (λ q. q.0) (rw small at e)))
    | inr fine ↦
        let (low, high) = rand 4096 8192 v w w' (omega arith) (rw fine at e) in
        (omega arith, ground (arith, high), high, λ _. low)
  ]
  pick_rss_payload_len-bounds rand false hard_max v w w' e = elim (Bool-cases (ltb hard_max 1024)) [
    | inl small ↦ absurd (cc (ap (λ q. q.0) (rw small at e)))
    | inr fine ↦
        let (low, high) = rand 1 1024 v w w' (omega arith) (rw fine at e) in
        (low, ground (arith, high), high, λ h. absurd (cc h))
  ]

  sent_all :
      (b : Bool) (buf buf' : Bytes) (w w' : W)
      → (if b then pure buf else jump test_fail) w ≡ (ok buf', w')
      → (b ≡ true) × (buf ≡ buf') × (w ≡ w')
  sent_all true buf buf' w w' e = (refl, ap (λ q. value_or buf q.0) e, ap (λ q. q.1) e)
  sent_all false buf buf' w w' e = absurd (cc (ap (λ q. q.0) e))

  pub send_payload-eq-ok :
      (send_len : ℕ) (buf : Bytes) (w w' : W)
      → send_payload o send_len w ≡ (ok buf, w')
      → (v : W) × (o.fill_buf send_len w ≡ (ok buf, v)) × (o.sendto buf v ≡ (ok send_len, w'))
  unfolding send_payload
  send_payload-eq-ok send_len buf w w' e =
      let after_fill : Bytes → M W Bytes =
        λ b. o.sendto b >>= λ sent. (if sent == send_len then pure b else jump test_fail) in
      let (b, v, filled, e1) = >>=-eq-ok (o.fill_buf send_len) after_fill w {b = buf} {u = w'} e in
      let (num, v2, passed, e2) =
        >>=-eq-ok (o.sendto b) (λ sent. if sent == send_len then pure b else jump test_fail) v
          {b = buf} {u = w'} e1 in
      let (all, same, world) = sent_all (num == send_len) b buf v2 w' e2 in
      let whole : num ≡ send_len = ground arith in
      (
        v,
        filled ∙ ap (λ x. (ok x, v)) same,
        ap (λ x. o.sendto x v) (sym same) ∙ passed ∙ ap₂ (λ n u. (ok n, u)) whole world,
      )
