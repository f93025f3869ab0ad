-- ===== src/Agent/Receive.antt =====
-- recv_pkts_exact_delay() of talib_net_drv_ts/rpc.c.
use net_drv_ts.Base.{
  ℕ, suc, ◌+◌, ◌%◌, ◌^◌, ◌<◌, ◌≤◌, ◌≡◌, ◌↔◌, refl, ap, ◌∙◌, ◌⊎◌, inl, inr, Bool, true, not, ◌||◌,
  ◌-◌, List, [], ◌∷◌, map, Bytes, length, All, ltb, ◌==◌, if◌then◌else◌, Result, ok, err, TeErrno,
  te_rc, te_ta_unix, efail, emsgsize, eilseq, arith,
}
use net_drv_ts.Agent.Payload.{encode, decode, decode-encode, length-encode}

-- What one round of the loop meets: the outcome of `poll`, and of `recv` after it.
pub data Arrival : Type 0 where
  poll_failed : TeErrno → Arrival
  odd_events : Arrival
  recv_failed : TeErrno → Arrival
  packet : Bytes → Arrival

-- Two 64-bit patterns compared as `int64_t`.
abbrev pub slt_64 : ℕ → ℕ → Bool
slt_64 a b = ltb ((a + 2 ^ 63) % 2 ^ 64) ((b + 2 ^ 63) % 2 ^ 64)

-- `last_id` is a bit pattern, -1 at the start. The list is what arrives before the first `poll`
-- that reports nothing.
unfoldable pub recv_from : Bool → ℕ → ℕ → List Arrival → Result ℕ
recv_from little last_id pkts_count [] = ok pkts_count
recv_from little last_id pkts_count (poll_failed e ∷ more) = err e
recv_from little last_id pkts_count (odd_events ∷ more) = err (te_rc te_ta_unix efail)
recv_from little last_id pkts_count (recv_failed e ∷ more) = err e
recv_from little last_id pkts_count (packet pld ∷ more) =
    let id = decode little pld in
    let rest = recv_from little id (pkts_count + 1) more in
    if not (length pld == 9)
    then err (te_rc te_ta_unix emsgsize)
    else if slt_64 id last_id
    then err (te_rc te_ta_unix eilseq)
    else if id == last_id
    then err (te_rc te_ta_unix eilseq)
    else rest

unfoldable pub recv_pkts_exact_delay : Bool → List Arrival → Result ℕ
unfolding recv_from
recv_pkts_exact_delay little = recv_from little (2 ^ 64 - 1) 0

-- Identifiers that rise strictly, all above `n`.
abbrev pub RisesFrom : ℕ → List ℕ → Type 0
RisesFrom n [] = Unit
RisesFrom n (i ∷ is) = (n ≤ i) × RisesFrom (suc i) is

abbrev pub packets : Bool → List ℕ → List Arrival
packets from = map (λ id. packet (encode from id))

-- The pattern of the last identifier, and the least identifier that may follow it.
abbrev Follows : ℕ → ℕ → Type 0
Follows last_id b = ((last_id ≡ 2 ^ 64 - 1) × (b ≡ 0)) ⊎ ((last_id < 2 ^ 63) × (b ≡ suc last_id))

refused_iff :
    (last_id b id : ℕ)
    → Follows last_id b
    → id < 2 ^ 63
    → ((slt_64 id last_id || id == last_id) ≡ true) ↔ (id < b)
refused_iff last_id b id (inl (e, z)) h = rw (e, z) ((λ r. ground arith), (λ r. ground arith))
refused_iff last_id b id (inr (l, e)) h = rw e ((λ r. ground arith), (λ r. ground arith))

-- One round on a packet of the right size.
recv_packet :
    (from to : Bool) (last_id b n i : ℕ) (more : List Arrival)
    → Follows last_id b
    → i < 2 ^ 63
    → recv_from to last_id n (packet (encode from i) ∷ more)
      ≡ (if ltb i b then err (te_rc te_ta_unix eilseq) else recv_from to i (n + 1) more)
unfolding recv_from
recv_packet from to last_id b n i more f h =
    ground (arith, length-encode from i, decode-encode from to i, refused_iff last_id b i f h)

recv_from-rises :
    (from to : Bool) (last_id b n : ℕ) (ids : List ℕ)
    → Follows last_id b
    → All (λ id. id < 2 ^ 63) ids
    → RisesFrom b ids
    → recv_from to last_id n (packets from ids) ≡ ok (n + length ids)
recv_from-rises from to last_id b n [] f small rises = unfold recv_from in (ap ok (omega arith))
recv_from-rises from to last_id b n (i ∷ ids) f small rises = ground (
  arith,
  recv_packet from to last_id b n i (packets from ids) f small.0,
  recv_from-rises from to i (suc i) (n + 1) ids (inr (small.0, refl)) small.1 rises.1,
)

recv_from-accepted :
    (from to : Bool) (last_id b n k : ℕ) (ids : List ℕ)
    → Follows last_id b
    → All (λ id. id < 2 ^ 63) ids
    → recv_from to last_id n (packets from ids) ≡ ok k
    → RisesFrom b ids
recv_from-accepted from to last_id b n k [] f small e = tt
recv_from-accepted from to last_id b n k (i ∷ ids) f small e = ground (
  arith,
  recv_packet from to last_id b n i (packets from ids) f small.0,
  recv_from-accepted from to i (suc i) (n + 1) k ids (inr (small.0, refl)) small.1,
)

-- Whatever the byte orders of the two hosts, packets with identifiers below 2^63 are accepted
-- exactly where the identifiers rise strictly: a packet out of order or received twice is an
-- error, lost ones are none. What is returned then is the number of packets.
pub recv_pkts_exact_delay_iff :
    (from to : Bool) (ids : List ℕ) (k : ℕ)
    → All (λ id. id < 2 ^ 63) ids
    → (recv_pkts_exact_delay to (packets from ids) ≡ ok k) ↔ (RisesFrom 0 ids × (k ≡ length ids))
unfolding recv_pkts_exact_delay
recv_pkts_exact_delay_iff from to ids k small = (
  (λ e.
      let rises = recv_from-accepted from to (2 ^ 64 - 1) 0 0 k ids (inl (refl, refl)) small e in
      (
        rises,
        ground (arith, recv_from-rises from to (2 ^ 64 - 1) 0 0 ids (inl (refl, refl)) small rises),
      )),
  (λ (rises, e). rw e (
      recv_from-rises from to (2 ^ 64 - 1) 0 0 ids (inl (refl, refl)) small rises
      ∙ ap ok (omega arith))),
)
