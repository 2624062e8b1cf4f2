-- ===== src/Router.antt =====
-- libsponge/router.hh and router.cc: longest-prefix routing between network interfaces.
pub mod Longest
pub mod Forward
pub mod Drain
pub mod Queues
use cs144_me.Prelude.{
  ℕ, zero, suc, ◌+◌, ◌-◌, ◌/◌, ◌^◌, Bool, ◌&&◌, Option, none, some, List, [], ◌∷◌, ◌++◌, length,
  get_elem?, set, ltb, leb, ◌==◌, if◌then◌else◌,
}
use cs144_me.Prelude.Result.{Result, ok, throw, out_of_range, ◌>>=◌}
use cs144_me.Prelude.Assoc.{Assoc, leaf, entry, lookup, insert}
use cs144_me.Header.Ethernet.{EthernetFrame}
use cs144_me.Header.Ipv4.{Ipv4Datagram, Ipv4Header}
use cs144_me.Interface
use cs144_me.Interface.{NetworkInterface}

pub record AsyncNetworkInterface : Type 0 where
  pub interface : NetworkInterface
  pub datagrams_out : List Ipv4Datagram

abbrev pub queued : List Ipv4Datagram → Option Ipv4Datagram → List Ipv4Datagram
queued q none = q
queued q (some d) = q ++ (d ∷ [])

unfoldable pub recv_frame : AsyncNetworkInterface → EthernetFrame → Result AsyncNetworkInterface
recv_frame a f = do
  (dgram, n) ← Interface.recv_frame a.interface f
  ok (record { interface = n; datagrams_out = queued a.datagrams_out dgram })

pub record Router : Type 0 where
  pub interfaces : List AsyncNetworkInterface
  pub len_map : Assoc ℕ
  pub gw_map : Assoc ℕ
  pub itf_map : Assoc ℕ

abbrev pub empty_router : Router
empty_router = record { interfaces = []; len_map = leaf; gw_map = leaf; itf_map = leaf }

unfoldable pub add_interface : Router → AsyncNetworkInterface → ℕ × Router
add_interface r a = (length r.interfaces, record r { interfaces = r.interfaces ++ (a ∷ []) })

unfoldable pub add_route : Router → ℕ → ℕ → Option ℕ → ℕ → Router
add_route r route_prefix prefix_length next_hop interface_num = record r {
  len_map = insert route_prefix prefix_length r.len_map;
  itf_map = insert route_prefix interface_num r.itf_map;
  gw_map = elim next_hop [ none ↦ r.gw_map | some hop ↦ insert route_prefix hop r.gw_map ];
}

-- The variables of the loop over the routes.
pub record Best : Type 0 where
  pub m_length : ℕ
  pub itf : ℕ
  pub next_hop : ℕ

-- The address that a datagram without a route is sent to.
abbrev pub default_router : ℕ
default_router = 2873314305

abbrev pub no_match : Best
no_match = record { m_length = 0; itf = 0; next_hop = default_router }

abbrev pub or_else : ℕ → Option ℕ → ℕ
or_else d none = d
or_else d (some v) = v

-- Do the highest `len` bits agree? For len from 1 to 32: other shifts are undefined in the source,
-- and a length of 0 never passes the test that goes with this one.
abbrev pub matches : ℕ → ℕ → ℕ → Bool
matches prefix len addr = addr / 2 ^ (32 - len) == prefix / 2 ^ (32 - len)

-- One round of the loop.
unfoldable pub consider : Router → ℕ → ℕ → ℕ → Best → Best
consider r addr prefix len best =
    if matches prefix len addr && ltb best.m_length len
    then record {
      m_length = len;
      itf = or_else 0 (lookup prefix r.itf_map);
      next_hop = or_else addr (lookup prefix r.gw_map);
    }
    else best

unfoldable pub find_route : Router → ℕ → Assoc ℕ → Best → Best
find_route r addr leaf best = best
find_route r addr (entry prefix len m) best = find_route r addr m (consider r addr prefix len best)

-- `interface(itf).send_datagram(…)`, where `at` throws out of range.
unfoldable pub send_on :
    Router → ℕ → Option AsyncNetworkInterface → Ipv4Datagram → ℕ → Result Router
send_on r itf none dgram hop = throw out_of_range
send_on r itf (some a) dgram hop = do
  n ← Interface.send_datagram a.interface dgram hop
  ok (record r { interfaces = set r.interfaces itf (record a { interface = n }) })

-- A datagram whose time to live runs out is dropped; any other goes out with one less.
unfoldable pub route_one_datagram : Router → Ipv4Datagram → Result Router
route_one_datagram r dgram =
    let best : Best = find_route r dgram.header.dst r.len_map no_match in
    if leb dgram.header.ttl 1
    then ok r
    else send_on r best.itf (get_elem? r.interfaces best.itf)
        (record dgram { header = record (dgram.header) { ttl = dgram.header.ttl - 1 } })
        best.next_hop

unfoldable pub route_queue : Router → List Ipv4Datagram → Result Router
route_queue r [] = ok r
route_queue r (d ∷ ds) = route_one_datagram r d >>= λ r'. route_queue r' ds

-- The queue of an interface, and the router once it is drained.
abbrev pub queue_of : Option AsyncNetworkInterface → List Ipv4Datagram
queue_of none = []
queue_of (some a) = a.datagrams_out

abbrev pub clear_queue : List AsyncNetworkInterface → ℕ → List AsyncNetworkInterface
clear_queue [] i = []
clear_queue (a ∷ as') zero = record a { datagrams_out = [] } ∷ as'
clear_queue (a ∷ as') (suc i) = a ∷ clear_queue as' i

-- The loop over the interfaces, with k of them left, from index i on.
unfoldable pub route_from : ℕ → ℕ → Router → Result Router
route_from zero i r = ok r
route_from (suc k) i r = do
  r' ← route_queue r (queue_of (get_elem? r.interfaces i))
  route_from k (i + 1) (record r' { interfaces = clear_queue r'.interfaces i })

unfoldable pub route : Router → Result Router
route r = route_from (length r.interfaces) 0 r
