-- ===== src/Xdp/Sockets/Cleanup.antt =====
-- A failed net_drv_xdp_create_socks() gives everything back, and a successful one hands over one
-- socket for each queue.
use mathlib.Core.Path.{fun_ext}
use net_drv_ts.Base.{
  ℕ, zero, suc, ◌+◌, ◌≡◌, ◌≢◌, refl, ap, ap₂, Bool, true, false, ⊤, List, [], ◌∷◌, map, range_from,
  ◌==◌, if◌then◌else◌, Result, ok, err, ends, test_stop, TeErrno, arith,
}
use net_drv_ts.Xdp.Socket.{XdpSock, XdpCfg, XdpOps, Slot, create_sock}
use net_drv_ts.Xdp.Release.{Held, XdpLaws, Owns, Deletes, mark, destroy_sock_total}
use net_drv_ts.Xdp.Create.{create_sock-held, create_sock-Owns, create_sock-queue_id}
use net_drv_ts.Xdp.Sockets.{
  zero_sock, continue_with, create_from, destroy_each, stop_on_error, create_socks, destroy_from,
  destroy_socks,
}

abbrev add : ℕ → (ℕ → Bool) → ℕ → Bool
add p f = if p == 0 then f else mark p true f

mark_comm : (p q : ℕ) (f : ℕ → Bool) → mark p true (mark q true f) ≡ mark q true (mark p true f)
mark_comm p q f = fun_ext λ x. ground arith

add_comm : (p q : ℕ) (f : ℕ → Bool) → add p (add q f) ≡ add q (add p f)
add_comm p q f = ground (arith, mark_comm p q f)

-- Two pointers that were taken into use one after the other may change places.
add_swap :
    (p q : ℕ) (f f1 f2 : ℕ → Bool)
    → f1 ≡ add p f
    → (p ≢ 0 → f p ≡ false)
    → f2 ≡ add q f1
    → (q ≢ 0 → f1 q ≡ false)
    → (f2 ≡ add p (add q f)) × (q ≢ 0 → f q ≡ false) × (p ≢ 0 → add q f p ≡ false)
add_swap p q f f1 f2 e1 hp e2 hq =
    let fresh : q ≢ 0 → add p f q ≡ false = λ n. rw e1 at (hq n) in
    (
      rw (e2, e1) (add_comm q p f),
      (λ n. ground (arith, fresh n)),
      (λ n. ground (arith, hp n, fresh)),
    )

-- `h` with what the structure names.
abbrev plus : XdpSock → Held → Held
plus s h = record {
  mems = add s.mem h.mems;
  umems = add s.umem h.umems;
  socks = add s.sock h.socks;
}

Owns-swap :
    (h h1 h2 : Held) (s t : XdpSock)
    → Owns h s h1
    → Owns h1 t h2
    → Owns h t (plus t h) × Owns (plus t h) s h2
Owns-swap h h1 h2 s t a b =
    let m = add_swap s.mem t.mem h.mems h1.mems h2.mems a.mems_eq a.new_mem b.mems_eq b.new_mem in
    let u =
      add_swap s.umem t.umem h.umems h1.umems h2.umems a.umems_eq a.new_umem b.umems_eq
        b.new_umem in
    let k =
      add_swap s.sock t.sock h.socks h1.socks h2.socks a.socks_eq a.new_sock b.socks_eq
        b.new_sock in
    (
      record {
        mems_eq = refl;
        umems_eq = refl;
        socks_eq = refl;
        new_mem = m.1;
        new_umem = u.1;
        new_sock = k.1;
      },
      record {
        mems_eq = m.0;
        umems_eq = u.0;
        socks_eq = k.0;
        new_mem = m.2;
        new_umem = u.2;
        new_sock = k.2;
      },
    )

-- The agent holds `h` and what the structures of the list name besides.
abbrev pub OwnsAll : Held → List XdpSock → Held → Type 0
OwnsAll h [] h' = h' ≡ h
OwnsAll h (s ∷ ss) h' = (k : Held) × OwnsAll h ss k × Owns k s h'

-- A socket that is older than those of the list can be given back first.
OwnsAll-cons :
    (h h1 h2 : Held) (s : XdpSock) (ss : List XdpSock)
    → Owns h s h1
    → OwnsAll h1 ss h2
    → OwnsAll h (s ∷ ss) h2
OwnsAll-cons h h1 h2 s [] a e = (h, refl, rw e a)
OwnsAll-cons h h1 h2 s (t ∷ ss) a (k, rest, b) =
    let (k', all, c) = OwnsAll-cons h h1 k s ss a rest in
    let (d, f) = Owns-swap k' k h2 s t c b in (plus t k', (k', all, d), f)

module _ {W : Type 0} (o : XdpOps W) (laws : XdpLaws o) where
  open laws use {held}

  destroy_each-held :
      (h : Held) (ss : List XdpSock) (w : W)
      → Deletes o laws
      → OwnsAll h ss (held w)
      → held (destroy_each o ss w) ≡ h
  unfolding destroy_each
  destroy_each-held h [] w d own = own
  destroy_each-held h (s ∷ ss) w d (k, rest, own) =
      let gone = destroy_sock_total o laws k w s d own in
      destroy_each-held h ss _ d (rw gone.1 rest)

  -- What the loop has made so far, by how it ended: `Made h n i` of its result.
  abbrev Made : Held → ℕ → ℕ → Result ⊤ × W × List XdpSock → Type 0
  Made h n i (ok _, w, ss) = OwnsAll h ss (held w) × (map (λ s. s.queue_id) ss ≡ range_from i n)
  Made h n i (err e, w, ss) = OwnsAll h ss (held w)
  Made h n i (ends j, w, ss) = ⊤

  Made-cons :
      (h h1 : Held) (s : XdpSock) (n i : ℕ) (p : Result ⊤ × W × List XdpSock)
      → Owns h s h1
      → s.queue_id ≡ i
      → Made h1 n (i + 1) p
      → Made h (suc n) i (p.0, p.1, s ∷ p.2)
  Made-cons h h1 s n i (ok x, w, ss) own q (all, qs) =
      (OwnsAll-cons h h1 (held w) s ss own all, ap₂ ◌∷◌ q qs)
  Made-cons h h1 s n i (err e, w, ss) own q all = OwnsAll-cons h h1 (held w) s ss own all
  Made-cons h h1 s n i (ends j, w, ss) own q all = tt

  continue_with-Made :
      (m : ℕ) (c : XdpCfg) (n i : ℕ) (w : W) (p : Result ⊤ × Slot W)
      (rest : W → Result ⊤ × W × List XdpSock)
      → Deletes o laws
      → create_sock o m i c (w, zero_sock) ≡ p
      → ((v : W) → Made (held v) n (i + 1) (rest v))
      → Made (held w) (suc n) i (continue_with p rest)
  unfolding continue_with
  continue_with-Made m c n i w (ok x, (w1, s)) rest d e h =
      Made-cons (held w) (held w1) s n i (rest w1)
        (create_sock-Owns o laws m i c w w1 zero_sock s e)
        (create_sock-queue_id o laws m i c w w1 zero_sock s e) (h w1)
  continue_with-Made m c n i w (err x, (w1, s)) rest d e h =
      (create_sock-held o laws m i c w w1 zero_sock s x d e).0
  continue_with-Made m c n i w (ends j, (w1, s)) rest d e h = tt

  create_from-Made :
      (m : ℕ) (c : XdpCfg) (n i : ℕ) (w : W)
      → Deletes o laws
      → Made (held w) n i (create_from o m c n i w)
  unfolding create_from
  create_from-Made m c zero i w d = (refl, refl)
  create_from-Made m c (suc n) i w d =
      continue_with-Made m c n i w _ _ d refl (λ v. create_from-Made m c n (i + 1) v d)

  stop_on_error-Made :
      (h : Held) (n i : ℕ) (p : Result ⊤ × W × List XdpSock) {e : TeErrno}
      → Deletes o laws
      → Made h n i p
      → p.0 ≡ err e
      → ((stop_on_error o p).0 ≡ ends test_stop) × (held (stop_on_error o p).1 ≡ h)
  unfolding stop_on_error
  stop_on_error-Made h n i (ok x, w, ss) d made k = absurd (cc)
  stop_on_error-Made h n i (err x, w, ss) d made k = (refl, destroy_each-held h ss w d made)
  stop_on_error-Made h n i (ends j, w, ss) d made k = absurd (cc)

  -- Where the creation of some socket fails, and deletions do not, `create_socks` stops the test,
  -- and the agent holds exactly what it held: the sockets that were created before are destroyed.
  pub create_socks_failed :
      (m n : ℕ) (c : XdpCfg) (w : W) (e : TeErrno)
      → Deletes o laws
      → (create_from o m c n 0 w).0 ≡ err e
      → ((create_socks o m c n w).0 ≡ ends test_stop) × (held (create_socks o m c n w).1 ≡ held w)
  unfolding create_socks
  create_socks_failed m n c w e d k =
      stop_on_error-Made (held w) n 0 (create_from o m c n 0 w) d (create_from-Made m c n 0 w d) k

  stop_on_error-ok :
      (h : Held) (n i : ℕ) (p : Result ⊤ × W × List XdpSock) (w' : W) (ss : List XdpSock)
      → Made h n i p
      → stop_on_error o p ≡ (ok ss, w')
      → OwnsAll h ss (held w') × (map (λ s. s.queue_id) ss ≡ range_from i n)
  unfolding stop_on_error
  stop_on_error-ok h n i (ok x, w, qs) w' ss made k =
      let same : qs ≡ ss = ground arith in
      let here : w ≡ w' = ground arith in rw (same, here) at made
  stop_on_error-ok h n i (err x, w, qs) w' ss made k = absurd (cc (ap (λ r. r.0) k))
  stop_on_error-ok h n i (ends j, w, qs) w' ss made k = absurd (cc (ap (λ r. r.0) k))

  destroy_from-held :
      (h : Held) (ss : List XdpSock) (w : W)
      → Deletes o laws
      → OwnsAll h ss (held w)
      → ((destroy_from o (ok tt) ss w).0 ≡ ok tt) × (held (destroy_from o (ok tt) ss w).1 ≡ h)
  unfolding destroy_from
  destroy_from-held h [] w d own = (refl, own)
  destroy_from-held h (s ∷ ss) w d (k, rest, own) =
      let gone = destroy_sock_total o laws k w s d own in
      rw (gone.0, destroy_from) (destroy_from-held h ss _ d (rw gone.1 rest))

  -- A successful `create_socks` gives one socket for each queue from 0 on, in that order; and
  -- where deletions do not fail, `destroy_socks` on these sockets succeeds and gives back all that
  -- their creation took.
  pub create-destroy :
      (m n : ℕ) (c : XdpCfg) (w w' : W) (ss : List XdpSock)
      → Deletes o laws
      → create_socks o m c n w ≡ (ok ss, w')
      → (map (λ s. s.queue_id) ss ≡ range_from 0 n)
        × ((destroy_socks o ss w').0 ≡ ok tt)
        × (held (destroy_socks o ss w').1 ≡ held w)
  unfolding create_socks destroy_socks
  create-destroy m n c w w' ss d k =
      let made =
        stop_on_error-ok (held w) n 0 (create_from o m c n 0 w) w' ss (create_from-Made m c n 0 w d)
          k in
      let gone = destroy_from-held (held w) ss w' d made.0 in (made.1, gone.0, gone.1)
