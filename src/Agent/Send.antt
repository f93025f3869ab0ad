-- ===== src/Agent/Send.antt =====
-- send_pkts_exact_delay() of talib_net_drv_ts/rpc.c.
use native.Mathlib.Numerals.{add-one}
use net_drv_ts.Base.{
  ℕ, zero, suc, ◌+◌, ◌*◌, ◌/◌, ◌^◌, ◌<◌, ◌≤◌, ◌≡◌, refl, Bool, true, false, List, [], ◌∷◌, map,
  length, All, ltb, ◌==◌, if◌then◌else◌, Result, ok, err, TeErrno, te_rc, te_ta_unix, emsgsize,
  arith, Option, some, none, Bool-cases, inl, inr, range_from,
}
use net_drv_ts.Agent.Receive.{RisesFrom, packets, recv_pkts_exact_delay, recv_pkts_exact_delay_iff}

-- What `send` answers: the number of bytes, or an error.
pub data SendAnswer : Type 0 where
  sent : ℕ → SendAnswer
  failed : TeErrno → SendAnswer

-- A packet that was handed to `send`, and microseconds from the start to that moment.
pub record Sent : Type 0 where
  pub id : ℕ
  pub time : ℕ

-- How the call ended, `none` while it still waits for the clock, and what it sent.
pub record Run : Type 0 where
  pub status : Option (Result ℕ)
  pub packets : List Sent

abbrev add_packet : ℕ → ℕ → Run → Run
add_packet id time r = record r { packets = record { id = id; time = time } ∷ r.packets }

-- The moment that the next packet has to wait for, `delay * k` for the least such after the last
-- reading; without a delay it stays 0.
unfoldable pub exp_diff_after : ℕ → ℕ → ℕ
exp_diff_after delay time_diff = if ltb 0 delay then (time_diff / delay + 1) * delay else 0

-- `us2ms` is TE_US2MS, `send` answers by the identifier, and the list has the successive readings
-- of the clock. One clause serves both loops: a reading that does not pass `exp_diff` stays in the
-- inner one.
module _ (us2ms : ℕ → ℕ) (send : ℕ → SendAnswer) (delay time2run : ℕ) where
  unfoldable pub send_answered : SendAnswer → ℕ → ℕ → Run → Run
  send_answered (failed e) id time rest = record { status = some (err e); packets = [] }
  send_answered (sent n) id time rest =
      if n == 9
      then add_packet id time rest
      else record { status = some (err (te_rc te_ta_unix emsgsize)); packets = [] }

  unfoldable pub send_from : ℕ → ℕ → List ℕ → Run
  unfolding send_answered
  send_from id exp_diff [] = record { status = none; packets = [] }
  send_from id exp_diff (t ∷ ts) =
      let spin = send_from id exp_diff ts in
      let next = send_from (id + 1) (exp_diff_after delay t) ts in
      if ltb exp_diff t
      then (if ltb time2run (us2ms t)
          then record { status = some (ok id); packets = [] }
          else send_answered (send id) id t next)
      else spin

  unfoldable pub send_pkts_exact_delay : List ℕ → Run
  unfolding send_from exp_diff_after
  send_pkts_exact_delay = send_from 0 (exp_diff_after delay 0)

  -- The packets sent are numbered from `i` on without a gap, none after `time2run`, and each in a
  -- later multiple of the delay than `slot`.
  abbrev pub Paced : ℕ → ℕ → List Sent → Type 0
  Paced i slot [] = Unit
  Paced i slot (p ∷ ps) =
      (p.id ≡ i)
      × (us2ms p.time ≤ time2run)
      × (slot < p.time / delay + 1)
      × Paced (suc i) (p.time / delay + 1) ps

  next_slot : (k t : ℕ) → 0 < delay → k * delay < t → k ≤ t / delay
  next_slot k t d h = grind arith

  send_answered-Paced :
      (a : SendAnswer) (i slot t : ℕ) (r : Run)
      → us2ms t ≤ time2run
      → slot < t / delay + 1
      → Paced (suc i) (t / delay + 1) r.packets
      → Paced i slot (send_answered a i t r).packets
  unfolding send_answered
  send_answered-Paced (failed e) i slot t r m s h = tt
  send_answered-Paced (sent n) i slot t r m s h = ground arith

  send_from-Paced :
      (i slot : ℕ) (ts : List ℕ) → 0 < delay → Paced i slot (send_from i (slot * delay) ts).packets
  unfolding send_from
  send_from-Paced i slot [] d = tt
  send_from-Paced i slot (t ∷ ts) d = elim (Bool-cases (ltb (slot * delay) t)) [
    | inr early ↦ rw early (send_from-Paced i slot ts d)
    | inl passed ↦ rw passed (elim (Bool-cases (ltb time2run (us2ms t))) [
      | inl over ↦ rw over tt
      | inr go ↦
          let next : Paced (suc i) (t / delay + 1)
              (send_from (i + 1) (exp_diff_after delay t) ts).packets =
            rw (exp_diff_lem t d, add-one i) (send_from-Paced (suc i) (t / delay + 1) ts d) in
          rw go (
            send_answered-Paced (send i) i slot t _ (ground arith)
              (ground (arith, next_slot slot t d)) next)
    ])
  ]
    where
      exp_diff_lem : (t : ℕ) → 0 < delay → exp_diff_after delay t ≡ (t / delay + 1) * delay
      exp_diff_lem t d = unfold exp_diff_after in (ground arith)

  -- With a delay, the packets that were handed to `send` are numbered from 0 on without a gap, in
  -- the order of sending, none later than `time2run`; the first does not fall into the first
  -- `delay` microseconds, and of any two each falls into another multiple of the delay, so a
  -- missed moment is never made up for by a burst.
  pub send_pkts-Paced : (ts : List ℕ) → 0 < delay → Paced 0 1 (send_pkts_exact_delay ts).packets
  unfolding send_pkts_exact_delay
  send_pkts-Paced ts d =
      let first : exp_diff_after delay 0 ≡ 1 * delay = unfold exp_diff_after in (ground arith) in
      rw first (send_from-Paced 0 1 ts d)

  send_from-count :
      (i e : ℕ) (ts : List ℕ) (n : ℕ)
      → (send_from i e ts).status ≡ some (ok n)
      → n ≡ i + length (send_from i e ts).packets
  unfolding send_from
  send_from-count i e [] n h = absurd (cc)
  send_from-count i e (t ∷ ts) n h =
      ground
        (arith, send_from-count i e ts n, send_from-count (i + 1) (exp_diff_after delay t) ts n)

  -- A call that returns a number returns the number of packets that it sent.
  pub send_pkts-count :
      (ts : List ℕ) (n : ℕ)
      → (send_pkts_exact_delay ts).status ≡ some (ok n)
      → n ≡ length (send_pkts_exact_delay ts).packets
  unfolding send_pkts_exact_delay
  send_pkts-count ts n h = omega (arith, send_from-count 0 (exp_diff_after delay 0) ts n h)

  Paced-ids :
      (i slot : ℕ) (ps : List Sent)
      → Paced i slot ps
      → map (λ p. p.id) ps ≡ range_from i (length ps)
  Paced-ids i slot [] h = refl
  Paced-ids i slot (p ∷ ps) h = ground (arith, Paced-ids (suc i) (p.time / delay + 1) ps, add-one i)

-- The entries that a network lets through: those with `true`, and none past the end of the list.
abbrev pub keep {ℓ} : {A : Type ℓ} → List Bool → List A → List A
keep [] xs = []
keep (b ∷ bs) [] = []
keep (true ∷ bs) (x ∷ xs) = x ∷ keep bs xs
keep (false ∷ bs) (x ∷ xs) = keep bs xs

RisesFrom-mono : (m n : ℕ) (is : List ℕ) → m ≤ n → RisesFrom n is → RisesFrom m is
RisesFrom-mono m n [] h r = tt
RisesFrom-mono m n (i ∷ is) h r = (omega arith, r.1)

keep-RisesFrom : (mask : List Bool) (i n : ℕ) → RisesFrom i (keep mask (range_from i n))
keep-RisesFrom [] i n = tt
keep-RisesFrom (b ∷ mask) i zero = tt
keep-RisesFrom (true ∷ mask) i (suc n) =
    (omega arith, rw (← add-one i) (keep-RisesFrom mask (i + 1) n))
keep-RisesFrom (false ∷ mask) i (suc n) =
    RisesFrom-mono i (i + 1) _ (omega arith) (keep-RisesFrom mask (i + 1) n)

keep-small :
    (mask : List Bool) (b i n : ℕ) → i + n ≤ b → All (λ id. id < b) (keep mask (range_from i n))
keep-small [] b i n h = tt
keep-small (_ ∷ mask) b i zero h = tt
keep-small (true ∷ mask) b i (suc n) h = (omega arith, keep-small mask b (i + 1) n (omega arith))
keep-small (false ∷ mask) b i (suc n) h = keep-small mask b (i + 1) n (omega arith)

module _ (us2ms : ℕ → ℕ) (send : ℕ → SendAnswer) (delay time2run : ℕ) where
  -- What `send_pkts_exact_delay` sent, with any of the packets lost on the way and the others in
  -- order, `recv_pkts_exact_delay` accepts, and counts right, whatever the byte orders of the two
  -- hosts: no run of the sender with a delay makes the receiver report an error by itself.
  pub receive-send :
      (from to : Bool) (mask : List Bool) (ts : List ℕ)
      → 0 < delay
      → length (send_pkts_exact_delay us2ms send delay time2run ts).packets ≤ 2 ^ 63
      → let ids =
          keep mask
            (map (λ p. p.id) (send_pkts_exact_delay us2ms send delay time2run ts).packets) in
        recv_pkts_exact_delay to (packets from ids) ≡ ok (length ids)
  receive-send from to mask ts d small =
      let ps = (send_pkts_exact_delay us2ms send delay time2run ts).packets in
      let paced = send_pkts-Paced us2ms send delay time2run ts d in
      let numbered = Paced-ids us2ms send delay time2run 0 1 ps paced in
      rw numbered (
        (recv_pkts_exact_delay_iff from to (keep mask (range_from 0 (length ps))) _
            (keep-small mask (2 ^ 63) 0 (length ps) (omega arith))).1
          (keep-RisesFrom mask 0 (length ps), refl))
