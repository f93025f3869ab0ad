-- ===== src/Agent/Payload.antt =====
-- net_drv_exact_delay_payload of talib_net_drv_ts/rpc.c: a packed structure of `uint64_t id`, in
-- network byte order, and `uint8_t last_byte`, on a host of either byte order.
use mathlib.Core.List.{reverse}
use native.Mathlib.Nat.{pow-suc}
use net_drv_ts.Base.{
  ℕ, zero, suc, ◌+◌, ◌*◌, ◌/◌, ◌%◌, ◌^◌, ◌<◌, ◌≡◌, refl, ap, ap₂, ◌∙◌, Bool, true, false, [], ◌∷◌,
  ◌++◌, Bytes, All, length, if◌then◌else◌, arith,
}

-- `n` bytes of a number, the lowest first, and back.
unfoldable pub le_bytes : ℕ → ℕ → Bytes
le_bytes zero v = []
le_bytes (suc n) v = (v % 256) ∷ le_bytes n (v / 256)

unfoldable pub load_le : Bytes → ℕ
load_le [] = 0
load_le (b ∷ bs) = b + 256 * load_le bs

-- A `uint64_t` in the memory of a host, `little` for little-endian, and back.
unfoldable pub store_u64 : Bool → ℕ → Bytes
unfolding le_bytes
store_u64 little v = if little then le_bytes 8 v else reverse (le_bytes 8 v)

unfoldable pub load_u64 : Bool → Bytes → ℕ
unfolding load_le
load_u64 little bs = if little then load_le bs else load_le (reverse bs)

unfoldable pub bswap_64 : ℕ → ℕ
unfolding le_bytes load_le
bswap_64 v = load_le (reverse (le_bytes 8 v))

-- `swap_required` is `htonl(1) != 1`: the host is little-endian.
unfoldable pub encode : Bool → ℕ → Bytes
unfolding bswap_64 store_u64
encode little id = store_u64 little (if little then bswap_64 id else id) ++ (0xff ∷ [])

-- The first 8 of the bytes of a payload.
abbrev pub take8 : Bytes → Bytes
take8 (a ∷ b ∷ c ∷ d ∷ e ∷ f ∷ g ∷ h ∷ _) = a ∷ b ∷ c ∷ d ∷ e ∷ f ∷ g ∷ h ∷ []
take8 s = s

unfoldable pub decode : Bool → Bytes → ℕ
unfolding bswap_64 load_u64
decode little s = let id = load_u64 little (take8 s) in if little then bswap_64 id else id

load_le-le_bytes : (n v : ℕ) → v < 256 ^ n → load_le (le_bytes n v) ≡ v
unfolding load_le le_bytes
load_le-le_bytes zero v h = omega arith
load_le-le_bytes (suc n) v h =
    omega (arith, load_le-le_bytes n (v / 256) (omega (arith, pow-suc 256 n)), pow-suc 256 n)

le_bytes-load_le : (bs : Bytes) → All (λ b. b < 256) bs → le_bytes (length bs) (load_le bs) ≡ bs
unfolding load_le le_bytes
le_bytes-load_le [] h = refl
le_bytes-load_le (b ∷ bs) h =
    ap₂ ◌∷◌ (omega arith) (rw (quotient b (load_le bs) h.0) (le_bytes-load_le bs h.1))
  where
    quotient : (b r : ℕ) → b < 256 → (b + 256 * r) / 256 ≡ r
    quotient b r lt = omega arith

le_bytes-bytes : (n v : ℕ) → All (λ b. b < 256) (le_bytes n v)
unfolding le_bytes
le_bytes-bytes zero v = tt
le_bytes-bytes (suc n) v = (omega arith, le_bytes-bytes n (v / 256))

reversed-bytes : (id : ℕ) → All (λ b. b < 256) (reverse (le_bytes 8 id))
unfolding le_bytes
reversed-bytes id = omega arith

-- The bytes on the wire are those of the number, the highest first, whatever the sender's byte
-- order is.
pub encode-eq : (little : Bool) (id : ℕ) → encode little id ≡ reverse (le_bytes 8 id) ++ (0xff ∷ [])
unfolding encode
encode-eq true id =
    ap (λ s. s ++ (0xff ∷ [])) (le_bytes-load_le (reverse (le_bytes 8 id)) (reversed-bytes id))
encode-eq false id = refl

pub decode-be :
    (to : Bool) (id : ℕ) → id < 2 ^ 64 → decode to (reverse (le_bytes 8 id) ++ (0xff ∷ [])) ≡ id
unfolding decode
decode-be true id h =
    ap (λ s. load_le (reverse s)) (le_bytes-load_le (reverse (le_bytes 8 id)) (reversed-bytes id))
    ∙ load_le-le_bytes 8 id h
decode-be false id h = load_le-le_bytes 8 id h

-- A receiver of either byte order reads the identifier that a sender of either byte order wrote.
pub decode-encode : (from to : Bool) (id : ℕ) → id < 2 ^ 64 → decode to (encode from id) ≡ id
decode-encode from to id h = rw (encode-eq from id) (decode-be to id h)

pub length-encode : (little : Bool) (id : ℕ) → length (encode little id) ≡ 9
unfolding encode
length-encode true id = refl
length-encode false id = refl
