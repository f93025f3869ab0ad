-- ===== src/Ethtool/Options.antt =====
-- The tags for missing options of the ethtool program (net-drv-ts/lib/net_drv_ethtool.c):
-- net_drv_ethtool_get_help() and net_drv_add_missing_ethtool_opt_tags().
mod Tests
use mathlib.Core.List.{append-nil, append_assoc}
use net_drv_ts.Base.{
  ℕ, zero, suc, ◌≡◌, ◌∙◌, ◌++◌, inl, inr, refl, ap, sym, Bool, true, false, not, ◌||◌, none, some,
  Option, ⊤, List, [], ◌∷◌, map, Bytes, codes, starts_with, if◌then◌else◌, TeErrno, te_rc,
  no_module, efail, M, Result, ok, err, ends, pure, fail, reads, ◌>>=◌, ◌>>◌, >>=-eq-ok, Bool-cases,
  if_true, if_false, ap₂, value_or, starts_with-append, arith,
}

-- net_drv_ethtool_test_opts
abbrev pub test_opts : List Bytes
test_opts =
    codes "--statistics"
    ∷ codes "--show-pause"
    ∷ codes "--show-ring"
    ∷ codes "--register-dump"
    ∷ codes "--eeprom-dump"
    ∷ codes "--dump-module-eeprom"
    ∷ codes "--show-eee"
    ∷ codes "--show-fec"
    ∷ codes "--show-module"
    ∷ []

-- What `ethtool --help` gives: whether it exited with 0, and the two outputs, `none` for NULL.
pub record Shell : Type 0 where
  pub exited_with_0 : Bool
  pub output : Option Bytes
  pub errors : Option Bytes

-- The run of the program on one server, and `tapi_tags_add_tag` without a value.
pub record OptionOps (W : Type 0) : Type 0 where
  pub ethtool_help : M W Shell
  pub add_tag : Bytes → M W ⊤

-- `strstr(s, t) != NULL`
unfoldable pub contains : Bytes → Bytes → Bool
contains [] t = starts_with [] t
contains (c ∷ s) t = starts_with (c ∷ s) t || contains s t

abbrev pub or_empty : Option Bytes → Bytes
or_empty none = []
or_empty (some s) = s

-- `opt_name + 2`
abbrev pub drop_two : Bytes → Bytes
drop_two (_ ∷ _ ∷ s) = s
drop_two (_ ∷ []) = []
drop_two [] = []

abbrev pub miss_tag : Bytes → Bytes
miss_tag opt_name = codes "no-ethtool-opt-" ++ drop_two opt_name

unfoldable pub help_of : Shell → Result Bytes
help_of s =
    if s.exited_with_0
    then ok (or_empty s.output ++ or_empty s.errors)
    else err (te_rc no_module efail)

module _ {W : Type 0} (o : OptionOps W) where
  unfoldable pub ethtool_get_help : M W Bytes
  unfolding help_of
  ethtool_get_help = do status ← o.ethtool_help; reads (λ _. help_of status)

  unfoldable pub add_missing : Bytes → List Bytes → M W ⊤
  unfolding contains
  add_missing help [] = pure tt
  add_missing help (opt_name ∷ opts) =
      let rest = add_missing help opts in
      if contains help opt_name then rest else o.add_tag (miss_tag opt_name) >> rest

  unfoldable pub add_missing_ethtool_opt_tags : M W ⊤
  unfolding ethtool_get_help add_missing
  add_missing_ethtool_opt_tags = do help ← ethtool_get_help; add_missing help test_opts

-- The tags that were added.
pub record OptionLaws {W : Type 0} (o : OptionOps W) : Type 0 where
  pub tags : W → List Bytes
  pub add_tag_lem :
      (n : Bytes) (w w' : W) → o.add_tag n w ≡ (ok tt, w') → tags w' ≡ tags w ++ n ∷ []
  pub help_lem : (s : Shell) (w w' : W) → o.ethtool_help w ≡ (ok s, w') → tags w' ≡ tags w

-- The tags of the options that a text does not name
abbrev pub missing : Bytes → List Bytes → List Bytes
missing help [] = []
missing help (opt_name ∷ opts) =
    if contains help opt_name then missing help opts else miss_tag opt_name ∷ missing help opts

starts-contains : (s t : Bytes) → starts_with s t ≡ true → contains s t ≡ true
unfolding contains
starts-contains [] t h = h
starts-contains (c ∷ s) t h = rw h refl

later-contains : (c : ℕ) (s t : Bytes) → contains s t ≡ true → contains (c ∷ s) t ≡ true
unfolding contains
later-contains c s t h = elim (Bool-cases (starts_with (c ∷ s) t)) [
  | inl starts ↦ rw starts refl
  | inr later ↦ rw (later, h) refl
]

-- What stands anywhere in a text is found in it.
pub contains-append : (s t u : Bytes) → contains (s ++ (t ++ u)) t ≡ true
contains-append [] t u = starts-contains (t ++ u) t (starts_with-append t u)
contains-append (c ∷ s) t u = later-contains c (s ++ (t ++ u)) t (contains-append s t u)

module _ {W : Type 0} (o : OptionOps W) (laws : OptionLaws o) where
  open laws use {tags, add_tag_lem, help_lem}

  add_missing-tags :
      (help : Bytes) (opts : List Bytes) (w w' : W)
      → add_missing o help opts w ≡ (ok tt, w')
      → tags w' ≡ tags w ++ missing help opts
  unfolding add_missing
  add_missing-tags help [] w w' e = ap (λ q. tags q.1) (sym e) ∙ sym (append-nil (tags w))
  add_missing-tags help (x ∷ xs) w w' e = elim (Bool-cases (contains help x)) [
    | inl known ↦ rw known (add_missing-tags help xs w w' (rw known at e))
    | inr unknown ↦
        let (_, v, one, rest) =
          >>=-eq-ok (o.add_tag (miss_tag x)) (λ _. add_missing o help xs) w {b = tt} {u = w'}
            (rw unknown at e) in
        rw unknown (
          add_missing-tags help xs v w' rest
          ∙ ap (λ t. t ++ missing help xs) (add_tag_lem (miss_tag x) w v one)
          ∙ append_assoc (tags w) (miss_tag x ∷ []) (missing help xs))
  ]

  help_of-eq-ok :
      (s : Shell) (help : Bytes)
      → help_of s ≡ ok help
      → (s.exited_with_0 ≡ true) × (help ≡ or_empty s.output ++ or_empty s.errors)
  unfolding help_of
  help_of-eq-ok s help e = elim (Bool-cases s.exited_with_0) [
    | inl fine ↦
        let same =
          sym (
            if_true (ok (or_empty s.output ++ or_empty s.errors)) (err (te_rc no_module efail))
              fine)
          ∙ e in
        (fine, ap (λ r. value_or help r) (sym same))
    | inr failed ↦
        let same =
          sym (
            if_false (ok (or_empty s.output ++ or_empty s.errors)) (err (te_rc no_module efail))
              failed)
          ∙ e in
        absurd (cc same)
  ]

  -- Where the tags are added, the program exited with 0, and the tags are those of exactly the
  -- options of the suite that neither of its outputs names, in the suite's order.
  pub add_missing_ethtool_opt_tags-tags :
      (w w' : W)
      → add_missing_ethtool_opt_tags o w ≡ (ok tt, w')
      → (s : Shell) × (v : W) × (o.ethtool_help w ≡ (ok s, v))
        × (s.exited_with_0 ≡ true)
        × (tags w' ≡ tags w ++ missing (or_empty s.output ++ or_empty s.errors) test_opts)
  unfolding add_missing_ethtool_opt_tags ethtool_get_help
  add_missing_ethtool_opt_tags-tags w w' e =
      let (help, v, got, added) =
        >>=-eq-ok (ethtool_get_help o) (λ h. add_missing o h test_opts) w {b = tt} {u = w'} e in
      let (s, u, run, read) =
        >>=-eq-ok o.ethtool_help (λ s. reads (λ _. help_of s)) w {b = help} {u = v} got in
      let (fine, text) = help_of-eq-ok s help (ap (λ q. q.0) read) in
      let same = ap (λ q. q.1) read in
      (
        s,
        u,
        run,
        fine,
        add_missing-tags help test_opts v w' added
            ∙ ap₂ (λ t h. t ++ missing h test_opts) (ap tags (sym same) ∙ help_lem s w u run) text,
      )
