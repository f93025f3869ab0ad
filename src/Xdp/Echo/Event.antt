-- ===== src/Xdp/Echo/Event.antt =====
-- The socket that poll() reports and the socket that answers.
use mathlib.Core.Path.{subst}
use net_drv_ts.Base.{
  ℕ, zero, suc, ◌+◌, ◌<◌, ◌≡◌, ◌≢◌, ◌∙◌, inl, inr, ap, sym, true, some, List, [], ◌∷◌, get_elem?,
  ◌==◌, Bool-cases, if_true, if_false, eq_of_some, arith,
}
use net_drv_ts.Xdp.Socket.{XdpSock}
use net_drv_ts.Xdp.Echo.{find_event, find_tx_capable, echo_sock}

-- The socket at a place, and that those before it had no events.
abbrev pub EventAt : List XdpSock → List ℕ → ℕ → XdpSock → ℕ → Type 0
EventAt socks revents i s events =
    (get_elem? socks i ≡ some s)
    × (get_elem? revents i ≡ some events)
    × (events ≢ 0)
    × ((j r : ℕ) → j < i → get_elem? revents j ≡ some r → r ≡ 0)

quiet-before :
    (r : ℕ) (rs : List ℕ) (i : ℕ)
    → r ≡ 0
    → ((j x : ℕ) → j < i → get_elem? rs j ≡ some x → x ≡ 0)
    → (j x : ℕ) → j < suc i
    → get_elem? (r ∷ rs) j ≡ some x
    → x ≡ 0
quiet-before r rs i quiet before zero x l e = cc (quiet, e)
quiet-before r rs i quiet before (suc j) x l e = before j x (omega arith) e

find_event-EventAt :
    (base : ℕ) (socks : List XdpSock) (revents : List ℕ) (i : ℕ) (s : XdpSock) (events : ℕ)
    → find_event base socks revents ≡ some (i, s, events)
    → (j : ℕ) × (i ≡ base + j) × EventAt socks revents j s events
unfolding find_event
find_event-EventAt base [] revents i s events e = absurd (cc e)
find_event-EventAt base (x ∷ xs) [] i s events e = absurd (cc e)
find_event-EventAt base (x ∷ xs) (r ∷ rs) i s events e = elim (Bool-cases (r == 0)) [
  | inl quiet ↦
      let (j, place, (got, here, some_event, before)) =
        find_event-EventAt (suc base) xs rs i s events (rw quiet at e) in
      (suc j, omega arith, (got, here, some_event, quiet-before r rs j (ground arith) before))
  | inr event ↦
      let first : ◌≡◌ {A = ℕ × XdpSock × ℕ} (base, x, r) (i, s, events) =
        eq_of_some (sym (if_false (find_event (suc base) xs rs) (some (base, x, r)) event) ∙ e) in
      let same : r ≡ events = ap (λ t. t.2) first in
      let place : base ≡ i = ap (λ t. t.0) first in
      (
        0,
        omega arith,
        (
          ap (λ t. some t.1) first,
          ap some same,
          (λ z. absurd (ground (arith, same))),
          λ j x l h. absurd (omega arith),
        ),
      )
]

pub first-EventAt :
    (socks : List XdpSock) (revents : List ℕ) (i : ℕ) (s : XdpSock) (events : ℕ)
    → find_event 0 socks revents ≡ some (i, s, events)
    → EventAt socks revents i s events
first-EventAt socks revents i s events e =
    let (j, place, event) = find_event-EventAt 0 socks revents i s events e in
    let same : j ≡ i = omega (arith, place) in
    subst (λ n. EventAt socks revents n s events) same event

find_tx_capable-capable :
    (socks : List XdpSock) (s : XdpSock)
    → find_tx_capable socks ≡ some s
    → (s.tx_capable ≡ true) × (i : ℕ) × (get_elem? socks i ≡ some s)
unfolding find_tx_capable
find_tx_capable-capable [] s e = absurd (cc e)
find_tx_capable-capable (x ∷ xs) s e = elim (Bool-cases x.tx_capable) [
  | inl capable ↦
      let same : x ≡ s = eq_of_some (sym (if_true (some x) (find_tx_capable xs) capable) ∙ e) in
      (ap (λ t. t.tx_capable) (sym same) ∙ capable, 0, ap some same)
  | inr deaf ↦
      let later = sym (if_false (some x) (find_tx_capable xs) deaf) ∙ e in
      let (able, i, got) = find_tx_capable-capable xs s later in (able, suc i, got)
]

-- The answer goes through a socket that can send: the one that received if it can.
pub echo_sock-capable :
    (socks : List XdpSock) (place : ℕ) (s sender : XdpSock)
    → get_elem? socks place ≡ some s
    → echo_sock socks s ≡ some sender
    → (sender.tx_capable ≡ true)
      × ((i : ℕ) × (get_elem? socks i ≡ some sender))
      × (s.tx_capable ≡ true → sender ≡ s)
unfolding echo_sock
echo_sock-capable socks place s sender got e = elim (Bool-cases s.tx_capable) [
  | inl capable ↦
      let same : s ≡ sender =
        eq_of_some (sym (if_true (some s) (find_tx_capable socks) capable) ∙ e) in
      (ap (λ t. t.tx_capable) (sym same) ∙ capable, (place, got ∙ ap some same), λ _. sym same)
  | inr deaf ↦
      let (able, place, at) =
        find_tx_capable-capable socks sender
          (sym (if_false (some s) (find_tx_capable socks) deaf) ∙ e) in
      (able, (place, at), λ h. absurd (cc (deaf, h)))
]
