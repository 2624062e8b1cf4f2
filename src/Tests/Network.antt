-- ===== src/Tests/Network.antt =====
-- The network interface and the router of libsponge at concrete inputs.
use cs144_me.Prelude.{
  ltb, if◌then◌else◌, ◌+◌, ℕ, zero, suc, get_elem?, ◌≡◌, refl, none, some, List, [], ◌∷◌, ◌++◌,
  arith,
}
use cs144_me.Prelude.Result.{ok}
use cs144_me.Prelude.Assoc.{Assoc, leaf, entry, lookup}
use cs144_me.Header.Ipv4
use cs144_me.Header.Ipv4.{Ipv4Datagram}
use cs144_me.Header.Ipv4.Trip.{parse_datagram-serialize}
use cs144_me.Header.Ethernet.{type_ipv4}
use cs144_me.Header.Arp
use cs144_me.Header.Arp.{ArpMessage}
use cs144_me.Interface
use cs144_me.Interface.{
  NetworkInterface, send_datagram, recv_arp, send_by_cache, request_address, frame_to, learn,
  request_timeout,
}
use cs144_me.Interface.Cache
use cs144_me.Interface.Cache.{Agree, learn_expires}
use cs144_me.Interface.Keys
use cs144_me.Interface.Keys.{Call, run-Agree}
use cs144_me.Interface.Resolve.{asked, asked_again, request_frame, resolve}
use cs144_me.Router.{Router, no_match, find_route, route, queue_of}
use cs144_me.Router.Queues.{AllSound}
use cs144_me.Router.Forward.{IsRouted}
use cs144_me.Router.Drain.{AllDrained, route_lem}
use cs144_me.Router.Longest.{Chosen, find_route_longest}

abbrev here : NetworkInterface
here = record {
  ethernet_address = 2 ∷ 0 ∷ 0 ∷ 0 ∷ 0 ∷ 1 ∷ [];
  ip_address = 167772161;
  frames_out = [];
  since_last_sent = leaf;
  cache_time = leaf;
  cache = leaf;
  datagrams = leaf;
}

abbrev datagram : Ipv4Datagram
datagram = record {
  header = record Ipv4.empty_header { len = 21; src = 167772161; dst = 167772162 };
  payload = 9 ∷ [];
}

abbrev reply : ArpMessage
reply = record Arp.empty_message {
  opcode = Arp.opcode_reply;
  sender_ip_address = 167772162;
  sender_ethernet_address = 2 ∷ 0 ∷ 0 ∷ 0 ∷ 0 ∷ 2 ∷ [];
  target_ip_address = 167772161;
}

-- The bytes of the datagram.
abbrev written : (s : List ℕ) × (Ipv4.serialize_datagram datagram ≡ ok s)
written = let r = parse_datagram-serialize Ipv4.empty_datagram datagram (omega arith) in (r.0, r.1)

here-Agree : Agree here
unfolding lookup
here-Agree = record { unique = tt; same = λ ip. refl }

-- The second datagram is sent after 4.9 seconds.
resolve_example :
    (n1 : NetworkInterface) × (n2 : NetworkInterface) × (send_datagram here datagram 167772162
      ≡ ok n1)
    × (n1.frames_out ≡ [] ++ (request_frame here 167772162 ∷ []))
    × (send_datagram (Cache.ticks n1 (4000 ∷ 900 ∷ [])) Ipv4.empty_datagram 167772162
        ≡ ok (
            if ltb (4000 + (900 + 0)) request_timeout
            then Cache.ticks n1 (4000 ∷ 900 ∷ [])
            else asked_again
                (Cache.ticks n1 (4000 ∷ 900 ∷ []))
                Ipv4.empty_datagram
                datagram
                167772162))
    × (recv_arp (Cache.ticks n1 (4000 ∷ 900 ∷ [])) reply ≡ ok n2)
    × (n2.frames_out
        ≡ n1.frames_out ++ (frame_to here reply.sender_ethernet_address type_ipv4 written.0 ∷ []))
    × (lookup 167772162 n2.cache ≡ some reply.sender_ethernet_address)
    × (lookup 167772162 n2.datagrams ≡ none)
unfolding lookup
resolve_example =
    resolve here datagram Ipv4.empty_datagram 167772162 written.0 reply (4000 ∷ 900 ∷ []) here-Agree
      tt refl refl refl written.1 refl refl (omega arith)

abbrev calls : List Call
calls = Call.pass 100 ∷ Call.send datagram 167772162 ∷ Call.pass 200 ∷ []

run-Agree_example : Agree (Interface.tick (asked here datagram 167772162) 200)
unfolding Interface.new Keys.run Keys.step Interface.tick Interface.age Interface.evict
    send_datagram send_by_cache request_address Arp.serialize Arp.supported lookup
run-Agree_example =
    run-Agree here.ethernet_address here.ip_address calls
      (Interface.tick (asked here datagram 167772162) 200) refl

learn_expires_example :
    lookup 167772162 (Cache.ticks (learn here reply) (20000 ∷ 9000 ∷ [])).cache
    ≡ some reply.sender_ethernet_address
learn_expires_example = learn_expires here reply (20000 ∷ 9000 ∷ []) tt (omega arith)

abbrev table : Assoc ℕ
table = entry 167772160 8 (entry 167837696 16 leaf)

abbrev router : Router
router = record { interfaces = []; len_map = table; gw_map = leaf; itf_map = leaf }

find_route_longest_example :
    Chosen router 167837697 table no_match (find_route router 167837697 table no_match)
find_route_longest_example = find_route_longest router 167837697 table no_match

-- Two interfaces, a datagram at the first of them, and a route through the second.
abbrev loaded : Router
loaded = record {
  interfaces =
      record { interface = here; datagrams_out = datagram ∷ [] }
      ∷ record { interface = here; datagrams_out = [] }
      ∷ [];
  len_map = entry 167772160 8 leaf;
  gw_map = leaf;
  itf_map = entry 167772160 1 leaf;
}

loaded-IsRouted : IsRouted loaded 2
unfolding lookup
loaded-IsRouted prefix = ground arith

loaded-AllSound : (j : ℕ) → AllSound (queue_of (get_elem? loaded.interfaces j))
unfolding Ipv4.payload_length
loaded-AllSound zero = ((refl, omega arith, refl), tt)
loaded-AllSound (suc zero) = tt
loaded-AllSound (suc (suc j)) = tt

route_lem_example :
    (r : Router) × (route loaded ≡ ok r)
    × AllDrained loaded (datagram ∷ []) 0 loaded.interfaces r.interfaces
    × (r.len_map ≡ entry 167772160 8 leaf)
    × (r.gw_map ≡ leaf)
    × (r.itf_map ≡ entry 167772160 1 leaf)
route_lem_example = route_lem loaded loaded-IsRouted loaded-AllSound
