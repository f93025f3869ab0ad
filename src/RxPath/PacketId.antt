-- ===== src/RxPath/PacketId.antt =====
-- get_pkt_id() of net-drv-ts/rx_path/rx_coalesce_usecs.c and rx_coalesce_frames.c: the number of a
-- captured packet, from the payload that send_pkts_exact_delay() gave it.
use mathlib.Core.List.{reverse, reverse_aux, reverse_aux-append}
use net_drv_ts.Base.{
  ℕ, zero, suc, ◌+◌, ◌^◌, ◌<◌, ◌≡◌, refl, ap, Bool, [], ◌∷◌, ◌++◌, Bytes, length, ltb, ◌==◌,
  if◌then◌else◌, ℤ, pos, is_negative, Result, ok, err, ends, te_rc, no_module, ebadmsg,
}
use net_drv_ts.Agent.Payload.{encode, decode, take8, le_bytes, encode-eq, decode-be}

-- What the calls on a captured packet answer: its timestamp, and the length and the value of
-- `payload.#bytes`.
pub record Packet (T : Type 0) : Type 0 where
  pub ts : Result T
  pub pld_len : ℤ
  pub field : Result Bytes

-- The loop over the padding, on the bytes from the last one on
unfoldable pub skip_padding : Bytes → Bytes
skip_padding [] = []
skip_padding (b ∷ bs) = let rest = skip_padding bs in if b == 0 then rest else b ∷ bs

-- The bytes from `buf[i]` down to `buf[0]`
unfoldable pub parse_id : Bool → Bytes → Result ℕ
parse_id little [] = err (te_rc no_module ebadmsg)
parse_id little (_ ∷ before) =
    if ltb (length before) 8
    then err (te_rc no_module ebadmsg)
    else ok (decode little (reverse (take8 before)))

unfoldable pub parse_field : Bool → Result Bytes → Result ℕ
unfolding skip_padding parse_id
parse_field little (ok buf) = parse_id little (skip_padding (reverse buf))
parse_field little (err e) = err e
parse_field little (ends j) = ends j

-- `little` is the byte order of the host that the test runs on.
unfoldable pub get_pkt_id : {T : Type 0} → Bool → Packet T → Result ℕ
unfolding parse_field
get_pkt_id little pkt =
    if is_negative pkt.pld_len then err (te_rc no_module ebadmsg) else parse_field little pkt.field

-- The padding of a short frame.
abbrev pub zeros : ℕ → Bytes
zeros zero = []
zeros (suc n) = 0 ∷ zeros n

-- A captured packet with the payload of the number `id`.
abbrev pub frame : {T : Type 0} → Bool → ℕ → T → ℕ → Packet T
frame from k t id = record {
  ts = ok t;
  pld_len = pos (9 + k);
  field = ok (encode from id ++ zeros k);
}

skip-reverse_aux : (k : ℕ) (s : Bytes) → skip_padding (reverse_aux (zeros k) s) ≡ skip_padding s
unfolding skip_padding
skip-reverse_aux zero s = refl
skip-reverse_aux (suc k) s = skip-reverse_aux k (0 ∷ s)

skip-padded : (s : Bytes) (k : ℕ) → skip_padding (reverse (s ++ zeros k)) ≡ skip_padding (reverse s)
skip-padded s k = rw (reverse_aux-append s (zeros k) []) (skip-reverse_aux k (reverse s))

parse-wire :
    (to : Bool) (id : ℕ)
    → id < 2 ^ 64
    → parse_id to (skip_padding (reverse (reverse (le_bytes 8 id) ++ (0xff ∷ [])))) ≡ ok id
unfolding parse_id skip_padding le_bytes decode
parse-wire to id h = ap ok (decode-be to id h)

-- A packet that the sender made is given its number back, whatever the byte orders of the two hosts
-- and the padding.
pub get_pkt_id-frame :
    {T : Type 0} (from to : Bool) (k : ℕ) (t : T) (id : ℕ)
    → id < 2 ^ 64
    → get_pkt_id to (frame from k t id) ≡ ok id
unfolding get_pkt_id
get_pkt_id-frame from to k t id h =
    rw (skip-padded (encode from id) k) (rw (encode-eq from id) (parse-wire to id h))
