-- ===== src/Xdp/Release.antt =====
-- What the agent holds for AF_XDP sockets, and that net_drv_xdp_destroy_sock() gives all of a
-- socket's share back.
use mathlib.Core.Path.{fun_ext}
use net_drv_ts.Base.{
  ℕ, ◌≡◌, ◌≢◌, Bool, true, false, ⊤, ◌==◌, if◌then◌else◌, Result, ok, err, ends, arith,
}
use net_drv_ts.Xdp.Socket.{
  XdpSock, XdpCfg, XdpOps, Slot, delete_sock, delete_umem, delete_mem, destroy_sock,
}

-- The pointers that are in use.
pub record Held : Type 0 where
  pub mems : ℕ → Bool
  pub umems : ℕ → Bool
  pub socks : ℕ → Bool

abbrev pub mark : ℕ → Bool → (ℕ → Bool) → ℕ → Bool
mark p b f q = if p == q then b else f q

-- The call returned an error.
abbrev pub Fails : {A : Type 0} → Result A → Type 0
Fails (ok a) = ⊥
Fails (err e) = ⊤
Fails (ends j) = ⊥

-- What the functions rely on: an allocation that succeeds returns a new pointer other than
-- RPC_NULL, one that fails allocates nothing, and a release ends the use of its pointer alone.
pub record XdpLaws {W : Type 0} (o : XdpOps W) : Type 0 where
  pub held : W → Held
  pub memalign_ok :
      (a n p : ℕ) (w w' : W)
      → o.posix_memalign a n w ≡ (ok p, w')
      → (p ≢ 0)
        × ((held w).mems p ≡ false)
        × (held w' ≡ record (held w) { mems = mark p true (held w).mems })
  pub memalign_fails :
      (a n : ℕ) (w : W)
      → Fails (o.posix_memalign a n w).0
      → held (o.posix_memalign a n w).1 ≡ held w
  pub umem_create_ok :
      (m n p : ℕ) (c : XdpCfg) (w w' : W)
      → o.umem_create m n c w ≡ (ok p, w')
      → (p ≢ 0)
        × ((held w).umems p ≡ false)
        × (held w' ≡ record (held w) { umems = mark p true (held w).umems })
  pub umem_create_fails :
      (m n : ℕ) (c : XdpCfg) (w : W)
      → Fails (o.umem_create m n c w).0
      → held (o.umem_create m n c w).1 ≡ held w
  pub fill-Keeps : (u q n : ℕ) (w : W) → held (o.rx_fill_simple u q n w).1 ≡ held w
  pub socket_create_ok :
      (q u p fd : ℕ) (c : XdpCfg) (w w' : W)
      → o.socket_create q u c w ≡ (ok (p, fd), w')
      → (p ≢ 0)
        × ((held w).socks p ≡ false)
        × (held w' ≡ record (held w) { socks = mark p true (held w).socks })
  pub socket_create_fails :
      (q u : ℕ) (c : XdpCfg) (w : W)
      → Fails (o.socket_create q u c w).0
      → held (o.socket_create q u c w).1 ≡ held w
  pub map_set-Keeps : (m q fd : ℕ) (w : W) → held (o.map_set m q fd w).1 ≡ held w
  pub socket_delete_ok :
      (p : ℕ) (w w' : W)
      → (held w).socks p ≡ true
      → o.socket_delete p w ≡ (ok tt, w')
      → held w' ≡ record (held w) { socks = mark p false (held w).socks }
  pub umem_delete_ok :
      (p : ℕ) (w w' : W)
      → (held w).umems p ≡ true
      → o.umem_delete p w ≡ (ok tt, w')
      → held w' ≡ record (held w) { umems = mark p false (held w).umems }
  pub free_ok :
      (p : ℕ) (w : W)
      → (held w).mems p ≡ true
      → held (o.free_mem p w) ≡ record (held w) { mems = mark p false (held w).mems }

-- Taking a new pointer into use and giving it up again changes nothing.
pub mark-mark : (p : ℕ) (f : ℕ → Bool) → f p ≡ false → mark p false (mark p true f) ≡ f
mark-mark p f h = fun_ext λ q. ground (arith, h)

-- The agent holds `h` and what the structure names besides.
pub record Owns (h : Held) (s : XdpSock) (h' : Held) : Type 0 where
  pub mems_eq : h'.mems ≡ (if s.mem == 0 then h.mems else mark s.mem true h.mems)
  pub umems_eq : h'.umems ≡ (if s.umem == 0 then h.umems else mark s.umem true h.umems)
  pub socks_eq : h'.socks ≡ (if s.sock == 0 then h.socks else mark s.sock true h.socks)
  pub new_mem : s.mem ≢ 0 → h.mems s.mem ≡ false
  pub new_umem : s.umem ≢ 0 → h.umems s.umem ≡ false
  pub new_sock : s.sock ≢ 0 → h.socks s.sock ≡ false

-- The structure names nothing.
pub record IsEmpty (s : XdpSock) : Type 0 where
  pub no_mem : s.mem ≡ 0
  pub no_umem : s.umem ≡ 0
  pub no_sock : s.sock ≡ 0

module _ {W : Type 0} (o : XdpOps W) (laws : XdpLaws o) where
  open laws use {held, socket_delete_ok, umem_delete_ok, free_ok}

  delete_sock-Owns :
      (h : Held) (w w' : W) (s s' : XdpSock)
      → Owns h s (held w)
      → delete_sock o (w, s) ≡ (ok tt, (w', s'))
      → Owns h s' (held w') × (s'.sock ≡ 0) × (s'.umem ≡ s.umem) × (s'.mem ≡ s.mem)
  unfolding delete_sock
  delete_sock-Owns h w w' s s' own e =
      ground (arith, socket_delete_ok s.sock w w', mark-mark s.sock h.socks)

  delete_umem-Owns :
      (h : Held) (w w' : W) (s s' : XdpSock)
      → Owns h s (held w)
      → delete_umem o (w, s) ≡ (ok tt, (w', s'))
      → Owns h s' (held w') × (s'.umem ≡ 0) × (s'.sock ≡ s.sock) × (s'.mem ≡ s.mem)
  unfolding delete_umem
  delete_umem-Owns h w w' s s' own e =
      ground (arith, umem_delete_ok s.umem w w', mark-mark s.umem h.umems)

  delete_mem-Owns :
      (h : Held) (w w' : W) (s s' : XdpSock)
      → Owns h s (held w)
      → delete_mem o (w, s) ≡ (ok tt, (w', s'))
      → Owns h s' (held w') × (s'.mem ≡ 0) × (s'.sock ≡ s.sock) × (s'.umem ≡ s.umem)
  unfolding delete_mem
  delete_mem-Owns h w w' s s' own e = ground (arith, free_ok s.mem w, mark-mark s.mem h.mems)

  Owns-IsEmpty : (h h' : Held) (s : XdpSock) → Owns h s h' → IsEmpty s → h' ≡ h
  Owns-IsEmpty h h' s own v = ground arith

  -- A destruction that succeeds gives back all that the structure named, and nothing else, and
  -- the structure names nothing any more; a second one would do nothing.
  pub destroy_sock-held :
      (h : Held) (w w' : W) (s s' : XdpSock)
      → Owns h s (held w)
      → destroy_sock o (w, s) ≡ (ok tt, (w', s'))
      → (held w' ≡ h) × IsEmpty s'
  unfolding destroy_sock
  destroy_sock-held h w w' s s' own e =
      let st1 = (delete_sock o (w, s)).1 in
      let st2 = (delete_umem o st1).1 in
      ground (
        arith,
        delete_sock-Owns h w st1.0 s st1.1,
        delete_umem-Owns h st1.0 st2.0 st1.1 st2.1,
        delete_mem-Owns h st2.0 w' st2.1 s',
        Owns-IsEmpty h (held w') s',
      )

  -- Both deletions succeed whenever they are called.
  abbrev pub Deletes : Type 0
  Deletes =
      ((p : ℕ) (w : W) → (o.socket_delete p w).0 ≡ ok tt)
      × ((p : ℕ) (w : W) → (o.umem_delete p w).0 ≡ ok tt)

  destroy_sock-eq-ok : Deletes → (st : Slot W) → (destroy_sock o st).0 ≡ ok tt
  unfolding destroy_sock delete_sock delete_umem delete_mem
  destroy_sock-eq-ok d (w, s) =
      let w1 = (o.socket_delete s.sock w).1 in
      ground (arith, d.0 s.sock w, d.1 s.umem w, d.1 s.umem w1)

  -- Where deletions do not fail, a destruction always gives everything back.
  pub destroy_sock_total :
      (h : Held) (w : W) (s : XdpSock)
      → Deletes
      → Owns h s (held w)
      → ((destroy_sock o (w, s)).0 ≡ ok tt)
        × (held (destroy_sock o (w, s)).1.0 ≡ h)
        × IsEmpty (destroy_sock o (w, s)).1.1
  destroy_sock_total h w s d own =
      let (r, (w', s')) = destroy_sock o (w, s) in
      ground (arith, destroy_sock-eq-ok d (w, s), destroy_sock-held h w w' s s' own)
