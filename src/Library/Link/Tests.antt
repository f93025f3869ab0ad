-- ===== src/Library/Link/Tests.antt =====
-- A link that takes each setting at once, and a configuration that asks for autonegotiation only.
use net_drv_ts.Base.{
  ◌≡◌, refl, ap, sym, ◌∙◌, [], Bytes, codes, if◌then◌else◌, ℤ, pos, negsuc, Result, ok, err, te_rc,
  te_cs, enoent,
}
use net_drv_ts.Library.Link.{
  Setting, autoneg, duplex, speed, LinkNames, LinkOps, set_phy_link, set_link, set_known, or_null,
  phy_autoneg_str2id, phy_duplex_str2id, phy_speed_str2id,
}
use net_drv_ts.Library.Link.Applied.{LinkLaws, Asks, asked, same_setting, set_phy_link-actual}

abbrev names : LinkNames
names = record {
  autoneg_str2id = λ s. pos 1;
  duplex_str2id = λ s. pos 2;
  speed_str2id = λ s. pos 1000;
  autoneg_unknown = negsuc 0;
  duplex_unknown = negsuc 0;
  speed_unknown = negsuc 0;
}

abbrev asks : Setting → Result (Bytes)
asks autoneg = ok (codes "on")
asks duplex = err (te_rc te_cs enoent)
asks speed = ok []

abbrev ops : LinkOps (Setting → ℤ)
ops = record {
  local_param = λ s w. asks s;
  set = λ s v w. (ok tt, λ t. if same_setting s t then v else w t);
  commit = λ w. (ok tt, w);
}

set-one : (s : Setting) (v : ℤ) (w : Setting → ℤ) → (ops.set s v w).1 s ≡ v
set-one autoneg v w = refl
set-one duplex v w = refl
set-one speed v w = refl

abbrev laws : LinkLaws ops
laws = record {
  actual = λ w t. w t;
  staged = λ w t. w t;
  set_ok = λ s v w w' e. ap (λ q. q.1 s) (sym e) ∙ set-one s v w;
  set_others = λ s t v w w' e h. ap (λ q. q.1 t) (sym e) ∙ rw h refl;
  commit_ok = λ w w' e s. ap (λ q. q.1 s) (sym e);
}

abbrev start : Setting → ℤ
start s = pos 0

set_phy_link-actual_example :
    (a : ℤ) × (d : ℤ) × (s : ℤ) × Asks names ops laws start a d s
    × (pos 1 ≡ asked names ops laws a d s autoneg (pos 0))
unfolding set_phy_link set_link set_known or_null phy_autoneg_str2id phy_duplex_str2id
    phy_speed_str2id
set_phy_link-actual_example =
    set_phy_link-actual names ops laws start (set_phy_link names ops start).1 autoneg refl refl
