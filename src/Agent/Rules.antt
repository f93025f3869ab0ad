-- ===== src/Agent/Rules.antt =====
-- too_many_rx_rules() of talib_net_drv_ts/rpc.c: Rx rules are added until the NIC refuses one, and
-- then all of them are removed.
pub mod Removal
use net_drv_ts.Base.{
  ℕ, zero, suc, ◌+◌, ◌<◌, ◌≤◌, ◌≡◌, ◌≢◌, refl, ap, sym, ◌∙◌, Bool, true, false, not, ◌||◌, ⊤,
  Option, none, some, List, [], ◌∷◌, ◌++◌, length, length-append, ◌==◌, ◌⊎◌, if◌then◌else◌, TeErrno,
  arith, Bool-cases, inl, inr,
}

pub data FlowType : Type 0 where
  udp_v4_flow udp_v6_flow tcp_v4_flow tcp_v6_flow : FlowType

pub data SockType : Type 0 where
  sock_dgram sock_stream : SockType
  other_sock : SockType

-- The `switch` on the socket type; `none` is the error TE_EPFNOSUPPORT.
unfoldable pub flow_type : SockType → Bool → Option FlowType
flow_type sock_dgram is_inet = some (if is_inet then udp_v4_flow else udp_v6_flow)
flow_type sock_stream is_inet = some (if is_inet then tcp_v4_flow else tcp_v6_flow)
flow_type other_sock is_inet = none

-- A rule handed to ETHTOOL_SRXCLSRLINS. The addresses and the masks are the same in all of them.
pub record Rule : Type 0 where
  pub flow : FlowType
  pub location : ℕ
  pub ring_cookie : ℕ
  pub src_port : ℕ
  pub dst_port : ℕ

-- The two `ioctl` requests fail with the error of `errno`; `insert` answers the location at which
-- the driver put the rule; `pick` is `rand_range`.
pub record NicOps (W : Type 0) : Type 0 where
  pub pick : W → ℕ × W
  pub insert : Rule → W → (TeErrno ⊎ ℕ) × W
  pub delete : ℕ → W → (TeErrno ⊎ ⊤) × W

-- The variables of the loops. `added_rules` is the vector, and `stopped` says that an `ioctl`
-- failed and with what, which jumps to `finish`.
pub record Adding (W : Type 0) : Type 0 where
  pub world : W
  pub rules_count : ℕ
  pub location : ℕ
  pub added_rules : List ℕ
  pub stopped : Option TeErrno

abbrev pub start : {W : Type 0} → W → Adding W
start w = record { world = w; rules_count = 0; location = 0; added_rules = []; stopped = none }

-- The `goto finish` of a failed `ioctl`: the rest is not run.
unfoldable pub unless_stopped :
    {W : Type 0} → Option TeErrno → (Adding W → Adding W) → Adding W → Adding W
unless_stopped (some e) rest a = a
unless_stopped none rest a = rest a

module _ {W : Type 0} (o : NicOps W) (flow : FlowType) (any_location : Bool) where
  unfoldable pub inserted : Adding W → (TeErrno ⊎ ℕ) × W → Adding W
  inserted a (inr real_loc, w) = record a {
    world = w;
    rules_count = a.rules_count + 1;
    location = if any_location then a.location else a.rules_count + 1;
    added_rules = a.added_rules ++ (real_loc ∷ []);
  }
  inserted a (inl e, w) = record a { world = w; stopped = some e }

  -- The body of the inner loop.
  unfoldable pub add_rule : ℕ → ℕ → Adding W → Adding W
  unfolding inserted
  add_rule src dst a =
      let (queue, w) = o.pick a.world in
      inserted a (
        o.insert
          (record {
            flow = flow;
            location = a.location;
            ring_cookie = queue;
            src_port = src;
            dst_port = dst;
          })
          w)

  -- `todo` rounds of the inner loop from the port `dst` on.
  unfoldable pub add_dst : ℕ → ℕ → ℕ → Adding W → Adding W
  unfolding unless_stopped
  add_dst src zero dst a = a
  add_dst src (suc todo) dst a =
      unless_stopped a.stopped (λ b. add_dst src todo (dst + 1) (add_rule src dst b)) a

  -- `todo` rounds of the outer loop from the port `src` on.
  unfoldable pub add_src : ℕ → ℕ → ℕ → Adding W → Adding W
  unfolding add_dst unless_stopped
  add_src ports zero src a = a
  add_src ports (suc todo) src a =
      unless_stopped a.stopped (λ b. add_src ports todo (src + 1) (add_dst src ports 1 b)) a

abbrev pub uint16_max : ℕ
uint16_max = 65535

module _ {W : Type 0} (o : NicOps W) where
  -- The loop after `finish`: every rule is deleted, and `false` is the result -1, for some
  -- deletion that failed.
  unfoldable pub remove_rules : List ℕ → W → Bool × W
  remove_rules [] w = (true, w)
  remove_rules (l ∷ ls) w =
      let (r, w1) = o.delete l w in
      let (rest, w2) = remove_rules ls w1 in ((elim r [ inl e ↦ false | inr _ ↦ rest ]), w2)

  -- too_many_rx_rules() with loops over `ports` ports: `rules_count`, `add_errno`, and whether the
  -- result is 0. (RX_CLS_LOC_ANY | RX_CLS_LOC_SPECIAL is `special`.)
  unfoldable pub too_many_rx_rules : ℕ → FlowType → Bool → ℕ → W → (ℕ × Option TeErrno × Bool) × W
  unfolding add_src remove_rules
  too_many_rx_rules ports flow any_location special w =
      let a =
        add_src o flow any_location ports ports 1
          (record (start w) { location = if any_location then special else 0 }) in
      let (fine, w') = remove_rules a.added_rules a.world in ((a.rules_count, a.stopped, fine), w')
