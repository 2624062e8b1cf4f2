-- ===== src/Interface/Keys.antt =====
-- The keys of the cache and of its times, over the calls of libsponge/network_interface.cc.
use cs144_me.Prelude.{
  ℕ, ◌≡◌, refl, ◌&&◌, Option, none, some, List, [], ◌∷◌, ◌==◌, arith, Bool-cases, inl, inr,
}
use mathlib.Core.Path.{subst}
use cs144_me.Prelude.Result.{Result, ok, ◌>>=◌, IfOk, IfOk-bind, any_ok}
use cs144_me.Prelude.Assoc.{lookup}
use cs144_me.Header.Ethernet.{EthernetAddress, EthernetFrame}
use cs144_me.Header.Ipv4.{Ipv4Datagram, serialize_datagram}
use cs144_me.Header.Arp
use cs144_me.Header.Arp.{ArpMessage}
use cs144_me.Interface.{
  NetworkInterface, if_parsed, new, send_to, send_by_cache, request_address, request_for,
  send_datagram, recv_arp, learn, send_waiting, send_all, reply_if_asked, reply_to, recv_frame,
  recv_payload, tick,
}
use cs144_me.Interface.Cache.{Agree, learn-Agree, tick-Agree}

-- The cache and the times are the same.
abbrev SameCache : NetworkInterface → NetworkInterface → Type 0
SameCache n n' = (n'.cache ≡ n.cache) × (n'.cache_time ≡ n.cache_time)

SameCache-Agree : (n n' : NetworkInterface) → SameCache n n' → Agree n → Agree n'
SameCache-Agree n n' (p, q) v = record {
  unique = rw q v.unique;
  same = λ ip. rw (p, q) (v.same ip);
}

send_to-Agree :
    (n : NetworkInterface) (dst : EthernetAddress) (d : Ipv4Datagram)
    → Agree n
    → IfOk Agree (send_to n dst d)
unfolding send_to
send_to-Agree n dst d v =
    IfOk-bind (λ a. Unit) Agree (serialize_datagram d) _ (any_ok (serialize_datagram d))
      (λ a u. SameCache-Agree n _ (refl, refl) v)

request-Agree :
    (n : NetworkInterface) (d : Ipv4Datagram) (ip : ℕ)
    → Agree n
    → IfOk Agree (request_address n d ip)
unfolding request_address
request-Agree n d ip v =
    IfOk-bind (λ a. Unit) Agree (Arp.serialize (request_for n ip)) _
      (any_ok (Arp.serialize (request_for n ip))) (λ a u. SameCache-Agree n _ (refl, refl) v)

send_by_cache-Agree :
    (n : NetworkInterface) (d : Ipv4Datagram) (ip : ℕ) (e : Option EthernetAddress)
    → Agree n
    → IfOk Agree (send_by_cache n d ip e)
unfolding send_by_cache
send_by_cache-Agree n d ip none v = ground (arith, request-Agree n d ip v)
send_by_cache-Agree n d ip (some dst) v = send_to-Agree n dst d v

send_all-Agree :
    (n : NetworkInterface) (dst : EthernetAddress) (ds : List Ipv4Datagram)
    → Agree n
    → IfOk Agree (send_all n dst ds)
unfolding send_all
send_all-Agree n dst [] v = v
send_all-Agree n dst (d ∷ ds) v =
    IfOk-bind Agree Agree (send_to n dst d) _ (send_to-Agree n dst d v)
      (λ n' v'. send_all-Agree n' dst ds v')

send_waiting-Agree :
    (n : NetworkInterface) (am : ArpMessage) (w : Option (List Ipv4Datagram))
    → Agree n
    → IfOk Agree (send_waiting n am w)
unfolding send_waiting
send_waiting-Agree n am none v = v
send_waiting-Agree n am (some ds) v =
    IfOk-bind Agree Agree (send_all n am.sender_ethernet_address ds) _
      (send_all-Agree n am.sender_ethernet_address ds v)
      (λ n' v'. SameCache-Agree n' _ (refl, refl) v')

reply-Agree : (n : NetworkInterface) (am : ArpMessage) → Agree n → IfOk Agree (reply_if_asked n am)
unfolding reply_if_asked
reply-Agree n am v =
    elim (Bool-cases (am.opcode == Arp.opcode_request && am.target_ip_address == n.ip_address)) [
      | inl e ↦ rw e (
          IfOk-bind (λ a. Unit) Agree (Arp.serialize (reply_to n am)) _
            (any_ok (Arp.serialize (reply_to n am))) (λ a u. SameCache-Agree n _ (refl, refl) v))
      | inr e ↦ rw e v
    ]

recv_arp-Agree : (n : NetworkInterface) (am : ArpMessage) → Agree n → IfOk Agree (recv_arp n am)
unfolding recv_arp
recv_arp-Agree n am v =
    IfOk-bind Agree Agree _ _ (send_waiting-Agree (learn n am) am _ (learn-Agree n am v))
      (λ n' v'. reply-Agree n' am v')

abbrev Second : Option Ipv4Datagram × NetworkInterface → Type 0
Second (d, n) = Agree n

recv_payload-Agree :
    (n : NetworkInterface) (m : Option ArpMessage) → Agree n → IfOk Second (recv_payload n m)
unfolding recv_payload
recv_payload-Agree n none v = v
recv_payload-Agree n (some am) v = IfOk-bind Agree Second _ _ (recv_arp-Agree n am v) (λ n' v'. v')

recv_frame-Agree :
    (n : NetworkInterface) (f : EthernetFrame) → Agree n → IfOk Second (recv_frame n f)
unfolding recv_frame
recv_frame-Agree n f v =
    ground (arith, recv_payload-Agree n (if_parsed (Arp.parse Arp.empty_message f.payload)) v)

-- A call of the owner of the interface.
pub data Call : Type 0 where
  send : Ipv4Datagram → ℕ → Call
  receive : EthernetFrame → Call
  pass : ℕ → Call

abbrev state_of : Option Ipv4Datagram × NetworkInterface → NetworkInterface
state_of (d, n) = n

unfoldable pub step : NetworkInterface → Call → Result NetworkInterface
step n (send d ip) = send_datagram n d ip
step n (receive f) = recv_frame n f >>= λ r. ok (state_of r)
step n (pass ms) = ok (tick n ms)

unfoldable pub run : NetworkInterface → List Call → Result NetworkInterface
run n [] = ok n
run n (c ∷ cs) = step n c >>= λ n'. run n' cs

step-Agree : (n : NetworkInterface) (c : Call) → Agree n → IfOk Agree (step n c)
unfolding step send_datagram
step-Agree n (send d ip) v = send_by_cache-Agree n d ip (lookup ip n.cache) v
step-Agree n (receive f) v = IfOk-bind Second Agree _ _ (recv_frame-Agree n f v) (λ r v'. v')
step-Agree n (pass ms) v = tick-Agree n ms v

run-Agree_from : (cs : List Call) (n : NetworkInterface) → Agree n → IfOk Agree (run n cs)
unfolding run
run-Agree_from [] n v = v
run-Agree_from (c ∷ cs) n v =
    IfOk-bind Agree Agree _ _ (step-Agree n c v) (λ n' v'. run-Agree_from cs n' v')

-- After any calls on a new interface that throw nothing, the cache of addresses and the map of
-- their times hold the same keys, and no key is twice in the map of times.
pub run-Agree :
    (address : EthernetAddress) (ip : ℕ) (cs : List Call) (n : NetworkInterface)
    → run (new address ip) cs ≡ ok n
    → Agree n
unfolding new lookup
run-Agree address ip cs n e =
    subst (IfOk Agree) e
      (run-Agree_from cs (new address ip) (record { unique = tt; same = λ k. refl }))
