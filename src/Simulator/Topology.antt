-- ===== src/Simulator/Topology.antt =====
-- The network of apps/network_simulator.cc: a router with seven interfaces and six hosts.
use Prim.Native.String.{String}
use text.Mathlib.Text
use Prim.Native.Nat.{bit_or, bit_and}
use cs144_me.Prelude.{
  ℕ, zero, suc, ◌+◌, ◌*◌, Option, none, some, List, [], ◌∷◌, set, get_elem?, if◌then◌else◌,
}
use cs144_me.Prelude.Result.{Result, ok, throw, runtime_error, out_of_range, ◌>>=◌}
use cs144_me.Header.Ethernet.{EthernetAddress}
use cs144_me.Interface
use cs144_me.Router.{AsyncNetworkInterface, Router, empty_router, add_interface, add_route, route}
use cs144_me.Simulator.{Host, new_host, check, exchange_frames, exchange_frames_3}

-- What the two generators of addresses do with six random bytes.
unfoldable pub random_host_ethernet_address : EthernetAddress → EthernetAddress
random_host_ethernet_address [] = []
random_host_ethernet_address (b ∷ bs) = bit_and (bit_or b 0x02) 0xfe ∷ bs

unfoldable pub random_router_ethernet_address : EthernetAddress → EthernetAddress
random_router_ethernet_address (a ∷ b ∷ c ∷ bs) = 0x02 ∷ 0 ∷ 0 ∷ bs
random_router_ethernet_address bytes = bytes

-- The number of a dotted address.
unfoldable pub ip : ℕ → ℕ → ℕ → ℕ → ℕ
ip a b c d = ((a * 256 + b) * 256 + c) * 256 + d

pub record Network : Type 0 where
  pub router : Router
  pub default_id : ℕ
  pub eth0_id : ℕ
  pub eth1_id : ℕ
  pub eth2_id : ℕ
  pub uun3_id : ℕ
  pub hs4_id : ℕ
  pub mit5_id : ℕ
  pub hosts : List Host

-- Network::host. The names of the hosts are their keys.
unfoldable pub host : List Host → String → Result Host
host [] name = throw runtime_error
host (h ∷ hs) name = if Text.◌==◌ h.name name then ok h else host hs name

abbrev pub set_host : List Host → Host → List Host
set_host [] h = []
set_host (g ∷ gs) h = if Text.◌==◌ g.name h.name then h ∷ gs else g ∷ set_host gs h

-- Router::interface, whose `at` throws out of range.
abbrev pub found : Option AsyncNetworkInterface → Result AsyncNetworkInterface
found none = throw out_of_range
found (some a) = ok a

abbrev pub async : EthernetAddress → ℕ → AsyncNetworkInterface
async ethernet_address ip_address = record {
  interface = Interface.new ethernet_address ip_address;
  datagrams_out = [];
}

-- The interfaces of the router, each with its number, from the random bytes of their addresses.
unfoldable pub with_interfaces : (ℕ → EthernetAddress) → Network
with_interfaces random =
    let at : ℕ → ℕ → AsyncNetworkInterface =
      λ i a. async (random_router_ethernet_address (random i)) a in
    let (default_id, r0) = add_interface empty_router (at 0 (ip 171 67 76 46)) in
    let (eth0_id, r1) = add_interface r0 (at 1 (ip 10 0 0 1)) in
    let (eth1_id, r2) = add_interface r1 (at 2 (ip 172 16 0 1)) in
    let (eth2_id, r3) = add_interface r2 (at 3 (ip 192 168 0 1)) in
    let (uun3_id, r4) = add_interface r3 (at 4 (ip 198 178 229 1)) in
    let (hs4_id, r5) = add_interface r4 (at 5 (ip 143 195 0 2)) in
    let (mit5_id, r6) = add_interface r5 (at 6 (ip 128 30 76 255)) in
    record {
      router = r6;
      default_id = default_id;
      eth0_id = eth0_id;
      eth1_id = eth1_id;
      eth2_id = eth2_id;
      uun3_id = uun3_id;
      hs4_id = hs4_id;
      mit5_id = mit5_id;
      hosts = [];
    }

unfoldable pub with_hosts : (ℕ → EthernetAddress) → List Host
with_hosts random =
    let at : ℕ → String → ℕ → ℕ → Host =
      λ i name a hop. new_host (random_host_ethernet_address (random i)) name a hop in
    at 7 "applesauce" (ip 10 0 0 2) (ip 10 0 0 1)
    ∷ at 8 "default_router" (ip 171 67 76 1) (ip 0 0 0 0)
    ∷ at 9 "cherrypie" (ip 192 168 0 2) (ip 192 168 0 1)
    ∷ at 10 "hs_router" (ip 143 195 0 1) (ip 0 0 0 0)
    ∷ at 11 "dm42" (ip 198 178 229 42) (ip 198 178 229 1)
    ∷ at 12 "dm43" (ip 198 178 229 43) (ip 198 178 229 1)
    ∷ []

-- The routes, with the addresses of the two routers that are hosts here.
unfoldable pub with_routes : Network → ℕ → ℕ → Router
with_routes n gateway hs =
    let r0 = add_route n.router (ip 0 0 0 0) 0 (some gateway) n.default_id in
    let r1 = add_route r0 (ip 10 0 0 0) 8 none n.eth0_id in
    let r2 = add_route r1 (ip 172 16 0 0) 16 none n.eth1_id in
    let r3 = add_route r2 (ip 192 168 0 0) 24 none n.eth2_id in
    let r4 = add_route r3 (ip 198 178 229 0) 24 none n.uun3_id in
    let r5 = add_route r4 (ip 143 195 0 0) 17 (some hs) n.hs4_id in
    let r6 = add_route r5 (ip 143 195 128 0) 18 (some hs) n.hs4_id in
    let r7 = add_route r6 (ip 143 195 192 0) 19 (some hs) n.hs4_id in
    add_route r7 (ip 128 30 76 255) 16 (some (ip 128 30 0 1)) n.mit5_id

-- Network::Network
unfoldable pub new_network : (ℕ → EthernetAddress) → Result Network
new_network random = do
  let n = with_interfaces random
  let hosts = with_hosts random
  gateway ← host hosts "default_router"
  hs ← host hosts "hs_router"
  ok (record n { router = with_routes n gateway.my_address hs.my_address; hosts = hosts })

abbrev pub set_interface : Router → ℕ → AsyncNetworkInterface → Router
set_interface r i a = record r { interfaces = set r.interfaces i a }

-- The cable between an interface of the router and a host.
unfoldable pub connect : ℕ → String → Network → Result Network
connect id name n = do
  a ← found (get_elem? n.router.interfaces id)
  h ← host n.hosts name
  (a', b') ← exchange_frames a h.interface
  ok (record n {
    router = set_interface n.router id a';
    hosts = set_host n.hosts (record h { interface = b' });
  })

unfoldable pub connect_3 : ℕ → String → String → Network → Result Network
connect_3 id name1 name2 n = do
  a ← found (get_elem? n.router.interfaces id)
  h ← host n.hosts name1
  k ← host n.hosts name2
  (a', b', c') ← exchange_frames_3 a h.interface k.interface
  ok (record n {
    router = set_interface n.router id a';
    hosts = set_host (set_host n.hosts (record h { interface = b' })) (record k { interface = c' });
  })

unfoldable pub simulate_physical_connections : Network → Result Network
simulate_physical_connections n = do
  n1 ← connect n.default_id "default_router" n
  n2 ← connect n1.eth0_id "applesauce" n1
  n3 ← connect n2.eth2_id "cherrypie" n2
  n4 ← connect n3.hs4_id "hs_router" n3
  connect_3 n4.uun3_id "dm42" "dm43" n4

-- The rounds of simulate.
unfoldable pub rounds : ℕ → Network → Result Network
rounds zero n = ok n
rounds (suc k) n = do
  r ← route n.router
  n' ← simulate_physical_connections (record n { router = r })
  rounds k n'

unfoldable pub check_all : List Host → Result (List Host)
check_all [] = ok []
check_all (h ∷ hs) = do h' ← check h; hs' ← check_all hs; ok (h' ∷ hs')

unfoldable pub simulate : Network → Result Network
simulate n = do n' ← rounds 256 n; hosts ← check_all n'.hosts; ok (record n' { hosts = hosts })
