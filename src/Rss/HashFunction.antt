-- ===== src/Rss/HashFunction.antt =====
-- net_drv_rss_check_set_hfunc() of net-drv-ts/rss/common_rss.c.
use net_drv_ts.Base.{
  ◌≡◌, ◌≢◌, ◌⊎◌, ◌↔◌, inl, inr, refl, ap, sym, ◌∙◌, Bool, true, false, not, ⊤, List, [], ◌∷◌, Bytes,
  str_eq, All, if◌then◌else◌, M, Result, ok, err, ends, TeErrno, te_rc, te_tapi, enoent, eopnotsupp,
  is_eopnotsupp, pure, fail, reads, on_error, >>=-eq-ok, ◌>>=◌, ◌>>◌, arith, eq_of_str_eq,
  str_eq_refl, Bool-cases,
}

pub record HashFunc : Type 0 where
  pub name : Bytes
  pub enabled : Bool

-- `tapi_cfg_if_rss_*` for one interface and one RSS context.
pub record HashFuncOps (W : Type 0) : Type 0 where
  pub hfuncs : W → Result (List HashFunc)
  pub set_single_local : Bytes → M W ⊤
  pub commit : M W ⊤

-- The loop over the functions, from the values of `found` and `need_change` on.
unfoldable pub scan_hfuncs : Bytes → List HashFunc → Bool × Bool → Bool × Bool
scan_hfuncs func_name [] st = st
scan_hfuncs func_name (f ∷ fs) (found, need_change) = scan_hfuncs func_name fs (
    if str_eq f.name func_name
    then (true, if f.enabled then need_change else true)
    else (found, if f.enabled then true else need_change))

-- What a commit that failed is reported as.
unfoldable pub hfunc_error : {W : Type 0} → TeErrno → M W ⊤
hfunc_error e = if is_eopnotsupp e.error then fail (te_rc te_tapi eopnotsupp) else fail e

module _ {W : Type 0} (o : HashFuncOps W) where
  unfoldable pub change_hfunc : Bytes → M W ⊤
  change_hfunc func_name = do o.set_single_local func_name; on_error o.commit hfunc_error

  unfoldable pub check_set_hfunc : Bytes → M W ⊤
  check_set_hfunc func_name = do
    hfuncs ← reads o.hfuncs
    let (found, need_change) = scan_hfuncs func_name hfuncs (false, false)
    if not found
        then fail (te_rc te_tapi enoent)
        else if need_change
        then change_hfunc func_name
        else pure tt

-- A function of that name is in the list.
abbrev pub Lists : Bytes → List HashFunc → Type 0
Lists n [] = ⊥
Lists n (f ∷ fs) = (f.name ≡ n) ⊎ Lists n fs

-- The functions of that name, and no others, are enabled.
abbrev pub OnlyEnabled : Bytes → List HashFunc → Type 0
OnlyEnabled n = All (λ f. f.enabled ≡ str_eq f.name n)

ne_of_str_eq : (a b : Bytes) → str_eq a b ≡ false → a ≢ b
ne_of_str_eq a b e p = ground (arith, ap (λ t. str_eq t b) p, str_eq_refl b)

scan_hfuncs_lem :
    (n : Bytes) (fs : List HashFunc) (found need : Bool)
    → (((scan_hfuncs n fs (found, need)).0 ≡ true) ↔ ((found ≡ true) ⊎ Lists n fs))
      × (((scan_hfuncs n fs (found, need)).1 ≡ false) ↔ ((need ≡ false) × OnlyEnabled n fs))
unfolding scan_hfuncs
scan_hfuncs_lem n [] found need =
    (((λ h. inl h), (λ h. ground arith)), ((λ h. (h, tt)), (λ h. h.0)))
scan_hfuncs_lem n (f ∷ fs) found need = elim (Bool-cases (str_eq f.name n)) [
  | inl same ↦ elim (Bool-cases f.enabled) [
    | inl on ↦
        rw (same, on) (ground (arith, eq_of_str_eq f.name n same, scan_hfuncs_lem n fs true need))
    | inr off ↦
        rw (same, off) (ground (arith, eq_of_str_eq f.name n same, scan_hfuncs_lem n fs true true))
  ]
  | inr other ↦ elim (Bool-cases f.enabled) [
    | inl on ↦
        rw (other, on)
          (ground (arith, ne_of_str_eq f.name n other, scan_hfuncs_lem n fs found true))
    | inr off ↦
        rw (other, off)
          (ground (arith, ne_of_str_eq f.name n other, scan_hfuncs_lem n fs found need))
  ]
]

-- The functions of an interface where the one of a name is the only one enabled.
abbrev pub single : Bytes → List HashFunc → List HashFunc
single n [] = []
single n (f ∷ fs) = record f { enabled = str_eq f.name n } ∷ single n fs

single-Lists : (n : Bytes) (fs : List HashFunc) → Lists n fs → Lists n (single n fs)
single-Lists n [] h = h
single-Lists n (f ∷ fs) (inl e) = inl e
single-Lists n (f ∷ fs) (inr h) = inr (single-Lists n fs h)

single-OnlyEnabled : (n : Bytes) (fs : List HashFunc) → OnlyEnabled n (single n fs)
single-OnlyEnabled n [] = tt
single-OnlyEnabled n (f ∷ fs) = (refl, single-OnlyEnabled n fs)

-- Enabling one function alone and committing it shows in the functions read afterwards.
pub record HashFuncLaws {W : Type 0} (o : HashFuncOps W) : Type 0 where
  pub hfuncs_commit :
      (n : Bytes) (w v w' : W) (fs : List HashFunc)
      → o.hfuncs w ≡ ok fs
      → o.set_single_local n w ≡ (ok tt, v)
      → o.commit v ≡ (ok tt, w')
      → o.hfuncs w' ≡ ok (single n fs)

module _ {W : Type 0} (o : HashFuncOps W) where
  -- Where no function has the name, the call fails with ENOENT of the TAPI module, and the
  -- interface is left as it is.
  pub check_set_hfunc_absent :
      (n : Bytes) (w : W) (fs : List HashFunc)
      → o.hfuncs w ≡ ok fs
      → ¬ Lists n fs
      → check_set_hfunc o n w ≡ (err (te_rc te_tapi enoent), w)
  unfolding check_set_hfunc
  check_set_hfunc_absent n w fs e h = elim (Bool-cases (scan_hfuncs n fs (false, false)).0) [
    | inl found ↦ absurd (ground (arith, scan_hfuncs_lem n fs false false))
    | inr lost ↦ rw (e, lost) refl
  ]

  -- Where the function of the name is listed and is the only one enabled, the call succeeds
  -- without a change.
  pub check_set_hfunc_present :
      (n : Bytes) (w : W) (fs : List HashFunc)
      → o.hfuncs w ≡ ok fs
      → Lists n fs
      → OnlyEnabled n fs
      → check_set_hfunc o n w ≡ (ok tt, w)
  unfolding check_set_hfunc
  check_set_hfunc_present n w fs e h only =
      let lem = scan_hfuncs_lem n fs false false in
      let found : (scan_hfuncs n fs (false, false)).0 ≡ true = lem.0.1 (inr h) in
      let kept : (scan_hfuncs n fs (false, false)).1 ≡ false = lem.1.1 (refl, only) in
      rw (e, found, kept) refl

committed :
    {W : Type 0} (p : Result ⊤ × W) (w' : W)
    → on_error (λ _. p) (λ e. hfunc_error e) w' ≡ (ok tt, w')
    → p ≡ (ok tt, w')
unfolding hfunc_error
committed (ok a, v) w' e = e
committed (err x, v) w' e = elim (Bool-cases (is_eopnotsupp x.error)) [
  | inl unsupported ↦ ground arith
  | inr other ↦ ground arith
]
committed (ends j, v) w' e = absurd (ground arith)

module _ {W : Type 0} (o : HashFuncOps W) (laws : HashFuncLaws o) where
  open laws use {hfuncs_commit}

  change_hfunc-hfuncs :
      (n : Bytes) (w w' : W) (fs : List HashFunc)
      → o.hfuncs w ≡ ok fs
      → change_hfunc o n w ≡ (ok tt, w')
      → o.hfuncs w' ≡ ok (single n fs)
  unfolding change_hfunc
  change_hfunc-hfuncs n w w' fs h e =
      let (a, v, s, k) = >>=-eq-ok (o.set_single_local n) _ w e in
      hfuncs_commit n w v w' fs h s (committed (o.commit v) w' k)

  enabled_alone :
      (n : Bytes) (w : W) (fs : List HashFunc)
      → o.hfuncs w ≡ ok fs
      → Lists n fs
      → OnlyEnabled n fs
      → ((fs : List HashFunc) × (o.hfuncs w ≡ ok fs) × Lists n fs × OnlyEnabled n fs)
        × (check_set_hfunc o n w ≡ (ok tt, w))
  enabled_alone n w fs e l only = ((fs, e, l, only), check_set_hfunc_present o n w fs e l only)

  -- Where the call succeeds, the function of the name is listed afterwards and is the only one
  -- enabled, and the same call once more would change nothing.
  pub check_set_hfunc-OnlyEnabled :
      (n : Bytes) (w w' : W)
      → check_set_hfunc o n w ≡ (ok tt, w')
      → ((fs : List HashFunc) × (o.hfuncs w' ≡ ok fs) × Lists n fs × OnlyEnabled n fs)
        × (check_set_hfunc o n w' ≡ (ok tt, w'))
  unfolding check_set_hfunc
  check_set_hfunc-OnlyEnabled n w w' e =
      let (fs, v, r, k) = >>=-eq-ok (reads o.hfuncs) _ w e in
      let read : o.hfuncs w ≡ ok fs = ap (λ p. p.0) r in
      let same : w ≡ v = ap (λ p. p.1) r in
      let lem = scan_hfuncs_lem n fs false false in
      elim (Bool-cases (scan_hfuncs n fs (false, false)).0) [
        | inr lost ↦ absurd (ground (arith, lost))
        | inl found ↦
            let lists : Lists n fs = ground (arith, lem) in
            elim (Bool-cases (scan_hfuncs n fs (false, false)).1) [
              | inr kept ↦
                  let end : v ≡ w' = ground (arith, k, found, kept) in
                  enabled_alone n w' fs (ap o.hfuncs (sym end) ∙ ap o.hfuncs (sym same) ∙ read)
                    lists (lem.1.0 kept).1
              | inl change ↦
                  let run : change_hfunc o n v ≡ (ok tt, w') = ground (arith, k, found, change) in
                  enabled_alone n w' (single n fs)
                    (change_hfunc-hfuncs n v w' fs (ap o.hfuncs (sym same) ∙ read) run)
                    (single-Lists n fs lists) (single-OnlyEnabled n fs)
            ]
      ]
