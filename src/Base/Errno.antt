-- ===== src/Base/Errno.antt =====
-- `te_errno` values other than 0: the module that reports the error and the error itself, as
-- `TE_RC(module, error)` joins them. Success is `ok` of a result and no value of this type.
use Prim.Native.Nat.{ℕ}
use mathlib.Core.Bool.{Bool, true, false, ◌&&◌}

pub data TeModule : Type 0 where
  no_module te_cs te_tapi te_ta_unix : TeModule
  other_module : ℕ → TeModule

pub data TeError : Type 0 where
  enoent eopnotsupp einval efail enomem eacces enodev eagain eilseq emsgsize epfnosupport : TeError
  enosys etimedout ebadmsg : TeError
  other_error : ℕ → TeError

pub record TeErrno : Type 0 where
  pub origin : TeModule
  pub error : TeError

abbrev pub te_rc : TeModule → TeError → TeErrno
te_rc m e = record { origin = m; error = e }

abbrev pub is_te_cs : TeModule → Bool
is_te_cs te_cs = true
is_te_cs _ = false

abbrev pub is_te_tapi : TeModule → Bool
is_te_tapi te_tapi = true
is_te_tapi _ = false

abbrev pub is_te_ta_unix : TeModule → Bool
is_te_ta_unix te_ta_unix = true
is_te_ta_unix _ = false

abbrev pub is_enoent : TeError → Bool
is_enoent enoent = true
is_enoent _ = false

abbrev pub is_enodev : TeError → Bool
is_enodev enodev = true
is_enodev _ = false

abbrev pub is_eopnotsupp : TeError → Bool
is_eopnotsupp eopnotsupp = true
is_eopnotsupp _ = false

abbrev pub is_eagain : TeError → Bool
is_eagain eagain = true
is_eagain _ = false

-- `rc == TE_RC(TE_CS, TE_ENOENT)`
abbrev pub is_cs_enoent : TeErrno → Bool
is_cs_enoent e = is_te_cs e.origin && is_enoent e.error

abbrev pub is_einval : TeError → Bool
is_einval einval = true
is_einval _ = false

abbrev pub is_enosys : TeError → Bool
is_enosys enosys = true
is_enosys _ = false

abbrev pub is_etimedout : TeError → Bool
is_etimedout etimedout = true
is_etimedout _ = false
