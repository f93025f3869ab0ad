-- ===== src/Phy/ModeName/RoundTrip.antt =====
-- A mode name is read back: what `parse_speed_duplex_mode` makes of `<digits>base<media>_<duplex>`,
-- and the range of what it accepts.
use mathlib.Core.List.{append_assoc}
use net_drv_ts.Base.{
  ℕ, ◌+◌, ◌-◌, ◌*◌, ◌≤◌, ◌<◌, ◌≡◌, refl, ap, ◌∙◌, ◌⊎◌, Bool, true, false, Option, none, some, List,
  [], ◌∷◌, ◌++◌, map, Bytes, codes, str_eq, starts_with, All, if◌then◌else◌, arith,
}
use net_drv_ts.Phy.ModeName.{
  PhyConsts, int_max, is_digit, read_digits, to_ulong, strtoul, strrchr, suffix_duplex, with_suffix,
  with_number, parse_speed_duplex_mode,
}

-- The number that a list of decimal digits stands for, after `acc`.
abbrev pub value_from : ℕ → List ℕ → ℕ
value_from acc [] = acc
value_from acc (d ∷ ds) = value_from (acc * 10 + d) ds

abbrev pub digit_codes : List ℕ → Bytes
digit_codes = map (λ d. d + b'0')

read_digits-digit_codes :
    (acc : ℕ) (ds : List ℕ) (c : ℕ) (rest : Bytes)
    → All (λ d. d < 10) ds
    → is_digit c ≡ false
    → read_digits acc (digit_codes ds ++ c ∷ rest) ≡ (value_from acc ds, c ∷ rest)
unfolding read_digits
read_digits-digit_codes acc [] c rest h e = rw e
read_digits-digit_codes acc (d ∷ ds) c rest h e =
    ground (arith, read_digits-digit_codes (acc * 10 + d) ds c rest h.1 e, sub_b0 d)
  where
    sub_b0 : (d : ℕ) → d + b'0' - b'0' ≡ d
    sub_b0 d = omega arith

strrchr-append : (c : ℕ) (s t u : Bytes) → strrchr c t ≡ some u → strrchr c (s ++ t) ≡ some u
unfolding strrchr
strrchr-append c [] t u h = h
strrchr-append c (a ∷ s) t u h = rw (strrchr-append c s t u h)

strtoul-digit_codes :
    (d : ℕ) (ds : List ℕ) (c : ℕ) (rest : Bytes)
    → All (λ e. e < 10) (d ∷ ds)
    → is_digit c ≡ false
    → value_from 0 (d ∷ ds) ≤ int_max
    → strtoul (digit_codes (d ∷ ds) ++ c ∷ rest) ≡ some (value_from 0 (d ∷ ds), c ∷ rest)
unfolding strtoul to_ulong
strtoul-digit_codes d ds c rest h e small =
    ground (arith, read_digits-digit_codes 0 (d ∷ ds) c rest h e)

abbrev pub duplex_suffix : Bool → Bytes
duplex_suffix full = if full then codes "_Full" else codes "_Half"

abbrev pub duplex_of : PhyConsts → Bool → ℕ
duplex_of k full = if full then k.duplex_full else k.duplex_half

strrchr-duplex_suffix :
    (full : Bool) (s : Bytes) → strrchr b'_' (s ++ duplex_suffix full) ≡ some (duplex_suffix full)
unfolding strrchr
strrchr-duplex_suffix true s = strrchr-append b'_' s (codes "_Full") _ refl
strrchr-duplex_suffix false s = strrchr-append b'_' s (codes "_Half") _ refl

suffix_duplex-duplex_suffix :
    (k : PhyConsts) (full : Bool) (s : Bytes)
    → suffix_duplex k s (duplex_suffix full) ≡ some (duplex_of k full)
unfolding suffix_duplex str_eq
suffix_duplex-duplex_suffix k true s = refl
suffix_duplex-duplex_suffix k false s = refl

regroup :
    (full : Bool) (d : ℕ) (ds : List ℕ) (media : Bytes)
    → digit_codes (d ∷ ds) ++ (codes "base" ++ (media ++ duplex_suffix full))
      ≡ ((digit_codes (d ∷ ds) ++ codes "base") ++ media) ++ duplex_suffix full
regroup full d ds media = simp append_assoc

module _ (k : PhyConsts) (mode_name rest : Bytes) {v duplex : ℕ} {suffix : Bytes} where
  with_number_lem :
      v ≤ int_max
      → starts_with rest (codes "base") ≡ true
      → strrchr b'_' mode_name ≡ some suffix
      → suffix_duplex k mode_name suffix ≡ some duplex
      → with_number k mode_name (some (v, rest)) ≡ some (v, duplex)
  unfolding with_number
  with_number_lem small base last known = ground arith

-- A name made of a decimal number of at most INT_MAX, `base`, any medium, and `_Full` or `_Half`
-- is parsed as that number and that duplex.
pub parse-mode_name :
    (k : PhyConsts) (full : Bool) (d : ℕ) (ds : List ℕ) (media : Bytes)
    → All (λ e. e < 10) (d ∷ ds)
    → value_from 0 (d ∷ ds) ≤ int_max
    → parse_speed_duplex_mode k
        (((digit_codes (d ∷ ds) ++ codes "base") ++ media) ++ duplex_suffix full)
      ≡ some (value_from 0 (d ∷ ds), duplex_of k full)
unfolding parse_speed_duplex_mode is_digit starts_with
parse-mode_name k full d ds media h small =
    let front = (digit_codes (d ∷ ds) ++ codes "base") ++ media in
    let name = front ++ duplex_suffix full in
    rw (regroup full d ds media) at (
      ap (with_number k name)
        (strtoul-digit_codes d ds b'b' (codes "ase" ++ (media ++ duplex_suffix full)) h refl small)
      ∙ with_number_lem k name (codes "base" ++ (media ++ duplex_suffix full)) small refl
          (strrchr-duplex_suffix full front) (suffix_duplex-duplex_suffix k full name))

suffix_duplex-range :
    (k : PhyConsts) (s suffix : Bytes) (duplex : ℕ)
    → suffix_duplex k s suffix ≡ some duplex
    → (duplex ≡ k.duplex_full) ⊎ (duplex ≡ k.duplex_half)
unfolding suffix_duplex
suffix_duplex-range k s suffix duplex e = ground arith

with_suffix_sound :
    (k : PhyConsts) (s : Bytes) (n : ℕ) (o : Option Bytes) (v duplex : ℕ)
    → with_suffix k s n o ≡ some (v, duplex)
    → (n ≡ v) × ((duplex ≡ k.duplex_full) ⊎ (duplex ≡ k.duplex_half))
unfolding with_suffix
with_suffix_sound k s n none v duplex e = absurd (cc)
with_suffix_sound k s n (some suffix) v duplex e =
    ground (arith, suffix_duplex-range k s suffix duplex)

with_number_sound :
    (k : PhyConsts) (s : Bytes) (o : Option (ℕ × Bytes)) (v duplex : ℕ)
    → with_number k s o ≡ some (v, duplex)
    → (v ≤ int_max)
      × ((duplex ≡ k.duplex_full) ⊎ (duplex ≡ k.duplex_half))
      × ((rest : Bytes) × (o ≡ some (v, rest)) × (starts_with rest (codes "base") ≡ true))
unfolding with_number
with_number_sound k s none v duplex e = absurd (cc)
with_number_sound k s (some (n, rest)) v duplex e = (
  ground (arith, with_suffix_sound k s n (strrchr b'_' s) v duplex),
  ground (arith, with_suffix_sound k s n (strrchr b'_' s) v duplex),
  (rest, ground (arith, with_suffix_sound k s n (strrchr b'_' s) v duplex), ground arith),
)

-- A name that is accepted begins, after blanks and a sign, with a number of at most INT_MAX that
-- `base` follows, and its duplex is full or half.
pub parse_sound :
    (k : PhyConsts) (mode_name : Bytes) {v duplex : ℕ}
    → parse_speed_duplex_mode k mode_name ≡ some (v, duplex)
    → (v ≤ int_max)
      × ((duplex ≡ k.duplex_full) ⊎ (duplex ≡ k.duplex_half))
      × ((rest : Bytes) × (strtoul mode_name ≡ some (v, rest))
          × (starts_with rest (codes "base") ≡ true))
unfolding parse_speed_duplex_mode
parse_sound k mode_name e = with_number_sound k mode_name (strtoul mode_name) _ _ e
