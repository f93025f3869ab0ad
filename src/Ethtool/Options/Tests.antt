-- ===== src/Ethtool/Options/Tests.antt =====
-- A program whose help names one option.
use net_drv_ts.Base.{
  ◌≡◌, ◌++◌, refl, ap, sym, true, none, some, List, [], ◌∷◌, Bytes, codes, starts_with, ok,
}
use net_drv_ts.Ethtool.Options.{
  Shell, OptionOps, OptionLaws, missing, or_empty, test_opts, contains, help_of, ethtool_get_help,
  add_missing, add_missing_ethtool_opt_tags, add_missing_ethtool_opt_tags-tags,
}

abbrev help : Shell
help = record { exited_with_0 = true; output = some (codes "[ --show-fec ]"); errors = none }

abbrev ops : OptionOps (List Bytes)
ops = record { ethtool_help = λ w. (ok help, w); add_tag = λ n w. (ok tt, w ++ n ∷ []) }

abbrev laws : OptionLaws ops
laws = record {
  tags = λ w. w;
  add_tag_lem = λ n w w' e. ap (λ q. q.1) (sym e);
  help_lem = λ s w w' e. ap (λ q. q.1) (sym e);
}

add_missing_ethtool_opt_tags-tags_example :
    (s : Shell) × (v : List Bytes) × (ops.ethtool_help [] ≡ (ok s, v))
    × (s.exited_with_0 ≡ true)
    × ((add_missing_ethtool_opt_tags ops []).1
        ≡ [] ++ missing (or_empty s.output ++ or_empty s.errors) test_opts)
unfolding add_missing_ethtool_opt_tags ethtool_get_help help_of add_missing contains starts_with
add_missing_ethtool_opt_tags-tags_example =
    add_missing_ethtool_opt_tags-tags ops laws [] (add_missing_ethtool_opt_tags ops []).1 refl
