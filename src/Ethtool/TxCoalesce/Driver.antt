-- ===== src/Ethtool/TxCoalesce/Driver.antt =====
-- A driver that refuses to commit zero limits for both time and frames.
use net_drv_ts.Base.{
  ℕ, ◌≡◌, ◌∙◌, refl, ap, sym, false, Bytes, codes, str_eq, str_eq_refl, ◌==◌, ◌&&◌, if◌then◌else◌,
  Bool-cases, inl, inr, ok, err, te_rc, te_ta_unix, einval,
}
use net_drv_ts.Ethtool.TxCoalesce.{CoalesceOps}
use net_drv_ts.Ethtool.TxCoalesce.Settings.{CoalesceLaws}

pub record Settings : Type 0 where
  pub active : Bytes → ℕ
  pub local : Bytes → ℕ

abbrev pub usecs : Bytes
usecs = codes "tx_coalesce_usecs"

abbrev pub frames : Bytes
frames = codes "tx_max_coalesced_frames"

abbrev pub update : Bytes → ℕ → (Bytes → ℕ) → Bytes → ℕ
update n v f m = if str_eq n m then v else f m

abbrev pub ops : CoalesceOps Settings
ops = record {
  get = λ n w. ok (w.active n);
  set = λ n v w. (ok tt, record { active = update n v w.active; local = update n v w.local });
  set_local = λ n v w. (ok tt, record w { local = update n v w.local });
  commit = λ w.
      if w.local usecs == 0 && w.local frames == 0
      then (err (te_rc te_ta_unix einval), w)
      else (ok tt, record w { active = w.local });
}

pub updated : (n : Bytes) (v : ℕ) (f : Bytes → ℕ) → update n v f n ≡ v
updated n v f = rw (str_eq_refl n) refl

pub other : (n m : Bytes) (v : ℕ) (f : Bytes → ℕ) → str_eq n m ≡ false → update n v f m ≡ f m
other n m v f h = rw h refl

pub commit-done :
    (m : Bytes) (w w' : Settings)
    → ops.commit w ≡ (ok tt, w')
    → (w'.active m ≡ w.local m) × (w'.local m ≡ w.local m)
commit-done m w w' e = elim (Bool-cases (w.local usecs == 0 && w.local frames == 0)) [
  | inl refused ↦ absurd (cc (ap (λ q. q.0) (rw refused at e)))
  | inr fine ↦
      let done = ap (λ q. q.1) (rw fine at e) in
      (ap (λ u. u.active m) (sym done), ap (λ u. u.local m) (sym done))
]

pub commit-same :
    (m : Bytes) (w : Settings)
    → w.local m ≡ w.active m
    → ((ops.commit w).1.active m ≡ w.active m) × ((ops.commit w).1.local m ≡ w.active m)
commit-same m w s = elim (Bool-cases (w.local usecs == 0 && w.local frames == 0)) [
  | inl refused ↦ rw refused (refl, s)
  | inr fine ↦ rw fine (s, s)
]

abbrev pub laws : CoalesceLaws ops
laws = record {
  actual = λ w. w.active;
  staged = λ w. w.local;
  get_lem = λ n w v e. ap (λ r. elim r [ ok x ↦ x | _ ↦ v ]) e;
  set_ok = λ n v w w' e.
      let now = ap (λ q. q.1) (sym e) in
      (
        ap (λ u. u.active n) now ∙ updated n v w.active,
        ap (λ u. u.local n) now ∙ updated n v w.local,
      );
  set_others = λ n m v w h. (other n m v w.active h, other n m v w.local h);
  set_local_ok = λ n v w w' e. ap (λ q. q.1.local n) (sym e) ∙ updated n v w.local;
  set_local_others = λ n m v w h. other n m v w.local h;
  set_local_actual = λ n m v w. refl;
  commit_ok = commit-done;
  commit_settled = commit-same;
}

abbrev pub start : Settings
start = record { active = λ n. 7; local = λ n. 7 }
