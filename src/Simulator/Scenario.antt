-- ===== src/Simulator/Scenario.antt =====
-- network_simulator of apps/network_simulator.cc: the datagrams that are sent and where they are
-- expected. What is printed is left out.
use Prim.Native.String.{String}
use cs144_me.Prelude.{ℕ, ◌+◌, ◌%◌, List}
use cs144_me.Prelude.Result.{Result, ◌>>=◌}
use cs144_me.Header.Ethernet.{EthernetAddress}
use cs144_me.Header.Ipv4.{Ipv4Datagram}
use cs144_me.Simulator.{send_to, expect}
use cs144_me.Simulator.Topology.{Network, host, set_host, ip, new_network, simulate}

-- `dgram_sent.header().ttl--`, of a uint8_t.
abbrev pub one_hop : Ipv4Datagram → Ipv4Datagram
one_hop d = record d { header = record (d.header) { ttl = (d.header.ttl + 255) % 256 } }

abbrev pub default_ttl : ℕ
default_ttl = 64

-- A datagram that is to reach a host, one hop later.
unfoldable pub traffic : String → ℕ → String → List ℕ → Network → Result Network
traffic from destination to payload n = do
  h ← host n.hosts from
  (dgram, h') ← send_to h payload destination default_ttl
  let hosts = set_host n.hosts h'
  k ← host hosts to
  simulate (record n { hosts = set_host hosts (expect k (one_hop dgram)) })

-- A datagram that is to reach nobody.
unfoldable pub expiring : String → ℕ → ℕ → List ℕ → Network → Result Network
expiring from destination ttl payload n = do
  h ← host n.hosts from
  (dgram, h') ← send_to h payload destination ttl
  simulate (record n { hosts = set_host n.hosts h' })

-- From the random bytes of the addresses, and the texts of the payloads.
unfoldable pub network_simulator : (ℕ → EthernetAddress) → (ℕ → List ℕ) → Result Network
network_simulator random payload = do
  n ← new_network random
  cherrypie ← host n.hosts "cherrypie"
  n1 ← traffic "applesauce" cherrypie.my_address "cherrypie" (payload 0) n
  applesauce ← host n1.hosts "applesauce"
  n2 ← traffic "cherrypie" applesauce.my_address "applesauce" (payload 1) n1
  n3 ← traffic "applesauce" (ip 1 2 3 4) "default_router" (payload 2) n2
  n4 ← traffic "applesauce" (ip 143 195 131 17) "hs_router" (payload 3) n3
  n5 ← traffic "cherrypie" (ip 143 195 193 52) "hs_router" (payload 4) n4
  n6 ← traffic "cherrypie" (ip 143 195 223 255) "hs_router" (payload 5) n5
  n7 ← traffic "cherrypie" (ip 143 195 224 0) "default_router" (payload 6) n6
  dm43 ← host n7.hosts "dm43"
  n8 ← traffic "dm42" dm43.my_address "dm43" (payload 7) n7
  n9 ← expiring "applesauce" (ip 1 2 3 4) 1 (payload 8) n8
  expiring "applesauce" (ip 1 2 3 4) 0 (payload 9) n9
