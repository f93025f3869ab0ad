-- ===== src/Phy/ModeName.antt =====
-- net_drv_phy_parse_speed_duplex_mode() of net-drv-ts/lib/net_drv_phy.c: names such as
-- `1000baseT_Full`, with the `strtoul`, `strncmp`, `strrchr` and `strcmp` of the C library.
pub mod RoundTrip
use net_drv_ts.Base.{
  ℕ, zero, suc, ◌+◌, ◌-◌, ◌*◌, ◌^◌, Bool, true, false, ◌&&◌, ◌||◌, Option, none, some, List, [],
  ◌∷◌, Bytes, codes, str_eq, starts_with, ltb, leb, ◌==◌, if◌then◌else◌,
}

-- Values of TE_PHY_* that net_drv_phy.c names. An `int` that is only copied and compared stands
-- as the number of its bit pattern.
pub record PhyConsts : Type 0 where
  pub speed_unknown : ℕ
  pub duplex_unknown : ℕ
  pub duplex_half : ℕ
  pub duplex_full : ℕ
  pub autoneg_off : ℕ
  pub autoneg_on : ℕ

abbrev pub int_max : ℕ
int_max = 2147483647

abbrev pub ulong_max : ℕ
ulong_max = 18446744073709551615

-- `isspace` of the C locale
is_space : ℕ → Bool
is_space c = c == 32 || (leb 9 c && leb c 13)

unfoldable pub is_digit : ℕ → Bool
is_digit c = leb b'0' c && leb c b'9'

unfoldable pub skip_spaces : Bytes → Bytes
unfolding is_space
skip_spaces [] = []
skip_spaces (c ∷ s) = let rest = skip_spaces s in if is_space c then rest else c ∷ s

-- The digits at the front as a number added to `acc`, and what follows them.
unfoldable pub read_digits : ℕ → Bytes → ℕ × Bytes
unfolding is_digit
read_digits acc [] = (acc, [])
read_digits acc (c ∷ s) =
    let rest = read_digits (acc * 10 + (c - b'0')) s in if is_digit c then rest else (acc, c ∷ s)

-- A number too large for `unsigned long` is ULONG_MAX, whatever its sign.
unfoldable pub to_ulong : Bool → ℕ → ℕ
to_ulong negative n =
    if ltb ulong_max n then ulong_max else if negative && ltb 0 n then ulong_max + 1 - n else n

-- What follows the sign; `none` where there is no digit, and `endptr` is the start then.
unfoldable pub read_number : Bool → Bytes → Option (ℕ × Bytes)
unfolding read_digits to_ulong
read_number negative [] = none
read_number negative (c ∷ s) =
    if is_digit c
    then (let (n, rest) = read_digits 0 (c ∷ s) in some (to_ulong negative n, rest))
    else none

unfoldable pub read_signed : Bytes → Option (ℕ × Bytes)
unfolding read_number
read_signed [] = none
read_signed (c ∷ s) =
    if c == b'-'
    then read_number true s
    else if c == b'+'
    then read_number false s
    else read_number false (c ∷ s)

-- `strtoul(s, &endptr, 10)`; `none` stands for `endptr == s`.
unfoldable pub strtoul : Bytes → Option (ℕ × Bytes)
unfolding skip_spaces read_signed
strtoul s = read_signed (skip_spaces s)

-- `strrchr(s, c)`: the suffix of `s` from its last `c` on.
unfoldable pub strrchr : ℕ → Bytes → Option Bytes
strrchr c [] = none
strrchr c (a ∷ s) = elim (strrchr c s) [
  | some t ↦ some t
  | none ↦ if a == c then some (a ∷ s) else none
]

-- The duplex that the suffix of the name stands for.
unfoldable pub suffix_duplex : PhyConsts → Bytes → Bytes → Option ℕ
suffix_duplex k mode_name suffix =
    if str_eq suffix (codes "_Full")
    then some k.duplex_full
    else if str_eq suffix (codes "_Half")
    then some k.duplex_half
    else if str_eq mode_name (codes "10000baseR_FEC")
    then some k.duplex_full
    else none

with_suffix : PhyConsts → Bytes → ℕ → Option Bytes → Option (ℕ × ℕ)
with_suffix k mode_name speed none = none
with_suffix k mode_name speed (some suffix) = elim (suffix_duplex k mode_name suffix) [
  | none ↦ none
  | some duplex ↦ some (speed, duplex)
]

with_number : PhyConsts → Bytes → Option (ℕ × Bytes) → Option (ℕ × ℕ)
unfolding with_suffix
with_number k mode_name none = none
with_number k mode_name (some (speed, rest)) =
    if ltb int_max speed || not_base rest
    then none
    else with_suffix k mode_name speed (strrchr b'_' mode_name)
  where
    not_base : Bytes → Bool
    not_base r = elim (starts_with r (codes "base")) [ true ↦ false | false ↦ true ]

-- The speed and the duplex; `none` where the C function returns `false` and sets neither.
unfoldable pub parse_speed_duplex_mode : PhyConsts → Bytes → Option (ℕ × ℕ)
unfolding with_number suffix_duplex strrchr
parse_speed_duplex_mode k mode_name = with_number k mode_name (strtoul mode_name)
