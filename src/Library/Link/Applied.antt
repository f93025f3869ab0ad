-- ===== src/Library/Link/Applied.antt =====
-- What a success of net_drv_set_phy_link() means for each of the three settings.
use net_drv_ts.Base.{
  ◌≡◌, ◌∙◌, inl, inr, refl, ap, sym, Bool, true, false, not, ◌||◌, Option, Bytes, if◌then◌else◌, ℤ,
  int_eq, ok, >>=-eq-ok, check_read>>=-eq-ok, reads>>=-eq-ok, check_rc-eq-ok, Bool-cases, arith,
}
use net_drv_ts.Library.Link.{
  Setting, autoneg, duplex, speed, LinkNames, LinkOps, get_phy_local_param, phy_autoneg_str2id,
  phy_duplex_str2id, phy_speed_str2id, set_known, set_link, set_phy_link,
}

abbrev pub same_setting : Setting → Setting → Bool
same_setting autoneg autoneg = true
same_setting duplex duplex = true
same_setting speed speed = true
same_setting _ _ = false

eq_of_same : (s t : Setting) → same_setting s t ≡ true → s ≡ t
eq_of_same autoneg autoneg h = refl
eq_of_same autoneg duplex h = absurd (cc h)
eq_of_same autoneg speed h = absurd (cc h)
eq_of_same duplex autoneg h = absurd (cc h)
eq_of_same duplex duplex h = refl
eq_of_same duplex speed h = absurd (cc h)
eq_of_same speed autoneg h = absurd (cc h)
eq_of_same speed duplex h = absurd (cc h)
eq_of_same speed speed h = refl

-- A SET shows in the commit only, which puts in force what was set before.
pub record LinkLaws {W : Type 0} (o : LinkOps W) : Type 0 where
  pub actual : W → Setting → ℤ
  pub staged : W → Setting → ℤ
  pub set_ok : (s : Setting) (v : ℤ) (w w' : W) → o.set s v w ≡ (ok tt, w') → staged w' s ≡ v
  pub set_others :
      (s t : Setting) (v : ℤ) (w w' : W)
      → o.set s v w ≡ (ok tt, w')
      → same_setting s t ≡ false
      → staged w' t ≡ staged w t
  pub commit_ok : (w w' : W) → o.commit w ≡ (ok tt, w') → (s : Setting) → actual w' s ≡ staged w s

-- The value of a setting, which is `d` before a SET that leaves out unknown values.
abbrev pub known_or : ℤ → ℤ → ℤ → ℤ
known_or d id unknown = if int_eq id unknown then d else id

module _ {W : Type 0} (k : LinkNames) (o : LinkOps W) (laws : LinkLaws o) where
  open laws use {actual, staged, set_ok, set_others, commit_ok}

  known-left : (b c : Bool) (v id : ℤ) → c ≡ true → v ≡ (if b then (if c then v else id) else v)
  known-left true c v id h = rw h refl
  known-left false c v id h = refl

  set-one :
      (s t : Setting) (id unknown : ℤ) (w w' : W)
      → int_eq id unknown ≡ false
      → o.set s id w ≡ (ok tt, w')
      → staged w' t ≡ (if same_setting s t then known_or (staged w t) id unknown else staged w t)
  set-one s t id unknown w w' known done = elim (Bool-cases (same_setting s t)) [
    | inl same ↦
        rw (same, known) (ap (staged w') (sym (eq_of_same s t same)) ∙ set_ok s id w w' done)
    | inr other ↦ rw other (set_others s t id w w' done other)
  ]

  set_known-staged :
      (s t : Setting) (id unknown : ℤ) (w w' : W)
      → set_known k o s id unknown w ≡ (ok tt, w')
      → (staged w' t ≡ (if same_setting s t then known_or (staged w t) id unknown else staged w t))
        × (int_eq id unknown ≡ true → w' ≡ w)
  unfolding set_known
  set_known-staged s t id unknown w w' e = elim (Bool-cases (int_eq id unknown)) [
    | inl unknown_id ↦
        let same = ap (λ q. q.1) (rw unknown_id at e) in
        (
          ap (λ u. staged u t) (sym same)
              ∙ known-left (same_setting s t) (int_eq id unknown) (staged w t) id unknown_id,
          (λ _. sym same),
        )
    | inr known ↦
        let done = check_rc-eq-ok (o.set s id w) w (rw known at e) in
        (set-one s t id unknown w w' known done, (λ h. absurd (cc (known, h))))
  ]

  abbrev pub asked : ℤ → ℤ → ℤ → Setting → ℤ → ℤ
  asked a d s autoneg v = known_or v a k.autoneg_unknown
  asked a d s duplex v = known_or v d k.duplex_unknown
  asked a d s speed v = known_or v s k.speed_unknown

  three-asked :
      (a d s : ℤ) (t : Setting) (v0 v1 v2 v3 : ℤ)
      → v1 ≡ (if same_setting autoneg t then known_or v0 a k.autoneg_unknown else v0)
      → v2 ≡ (if same_setting duplex t then known_or v1 d k.duplex_unknown else v1)
      → v3 ≡ (if same_setting speed t then known_or v2 s k.speed_unknown else v2)
      → v3 ≡ asked a d s t v0
  three-asked a d s autoneg v0 v1 v2 v3 h1 h2 h3 = h3 ∙ h2 ∙ h1
  three-asked a d s duplex v0 v1 v2 v3 h1 h2 h3 =
      h3 ∙ h2 ∙ ap (λ v. known_or v d k.duplex_unknown) h1
  three-asked a d s speed v0 v1 v2 v3 h1 h2 h3 =
      h3 ∙ ap (λ v. known_or v s k.speed_unknown) (h2 ∙ h1)

  asked-unknown :
      (a d s : ℤ) (t : Setting) (v : ℤ)
      → int_eq a k.autoneg_unknown ≡ true
      → int_eq d k.duplex_unknown ≡ true
      → int_eq s k.speed_unknown ≡ true
      → asked a d s t v ≡ v
  asked-unknown a d s autoneg v h1 h2 h3 = rw h1 refl
  asked-unknown a d s duplex v h1 h2 h3 = rw h2 refl
  asked-unknown a d s speed v h1 h2 h3 = rw h3 refl

  set_link-actual :
      (a d s : ℤ) (t : Setting) (w w' : W)
      → staged w t ≡ actual w t
      → set_link k o a d s w ≡ (ok tt, w')
      → actual w' t ≡ asked a d s t (actual w t)
  unfolding set_link
  set_link-actual a d s t w w' settled e =
      let (_, w1, e1, k1) = >>=-eq-ok (set_known k o autoneg a k.autoneg_unknown) _ w e in
      let (_, w2, e2, k2) = >>=-eq-ok (set_known k o duplex d k.duplex_unknown) _ w1 k1 in
      let (_, w3, e3, k3) = >>=-eq-ok (set_known k o speed s k.speed_unknown) _ w2 k2 in
      let (s1, n1) = set_known-staged autoneg t a k.autoneg_unknown w w1 e1 in
      let (s2, n2) = set_known-staged duplex t d k.duplex_unknown w1 w2 e2 in
      let (s3, n3) = set_known-staged speed t s k.speed_unknown w2 w3 e3 in
      let staged3 =
        three-asked a d s t (staged w t) (staged w1 t) (staged w2 t) (staged w3 t) s1 s2 s3 in
      elim (Bool-cases (
        not (int_eq a k.autoneg_unknown)
        || not (int_eq d k.duplex_unknown)
        || not (int_eq s k.speed_unknown))) [
          | inl some_known ↦
              commit_ok w3 w' (rw some_known at k3) t ∙ staged3 ∙ ap (asked a d s t) settled
          | inr none_known ↦
              let ua : int_eq a k.autoneg_unknown ≡ true = ground arith in
              let ud : int_eq d k.duplex_unknown ≡ true = ground arith in
              let us : int_eq s k.speed_unknown ≡ true = ground arith in
              let same = sym (ap (λ q. q.1) (rw none_known at k3)) ∙ n3 us ∙ n2 ud ∙ n1 ua in
              ap (λ u. actual u t) same ∙ sym (asked-unknown a d s t (actual w t) ua ud us)
        ]

  -- What the local parameters ask for, where the conversions succeed.
  abbrev pub Asks : W → ℤ → ℤ → ℤ → Type 0
  Asks w a d s =
      (av : Option Bytes) × (dv : Option Bytes) × (sv : Option Bytes) × (get_phy_local_param k o
          autoneg w
        ≡ ok av)
      × (get_phy_local_param k o duplex w ≡ ok dv)
      × (get_phy_local_param k o speed w ≡ ok sv)
      × (phy_autoneg_str2id k o av ≡ ok a)
      × (phy_duplex_str2id k o dv ≡ ok d)
      × (phy_speed_str2id k o sv ≡ ok s)

  -- Where the setting of the link succeeds, each of autonegotiation, duplex and speed is in force as
  -- the local parameters ask for, and as it was where they do not.
  pub set_phy_link-actual :
      (w w' : W) (t : Setting)
      → staged w t ≡ actual w t
      → set_phy_link k o w ≡ (ok tt, w')
      → (a : ℤ) × (d : ℤ) × (s : ℤ) × Asks w a d s × (actual w' t ≡ asked a d s t (actual w t))
  unfolding set_phy_link
  set_phy_link-actual w w' t settled e =
      let (av, ga, e) = check_read>>=-eq-ok (get_phy_local_param k o autoneg w) _ w e in
      let (dv, gd, e) = check_read>>=-eq-ok (get_phy_local_param k o duplex w) _ w e in
      let (sv, gs, e) = check_read>>=-eq-ok (get_phy_local_param k o speed w) _ w e in
      let (a, ca, e) = reads>>=-eq-ok (phy_autoneg_str2id k o av) _ w e in
      let (d, cd, e) = reads>>=-eq-ok (phy_duplex_str2id k o dv) _ w e in
      let (s, cs, e) = reads>>=-eq-ok (phy_speed_str2id k o sv) _ w e in
      (a, d, s, (av, dv, sv, ga, gd, gs, ca, cd, cs), set_link-actual a d s t w w' settled e)
