-- ===== src/Interface/Resolve.antt =====
-- send_datagram and the ARP part of recv_frame of libsponge/network_interface.cc together: a datagram
-- to an unknown address.
use cs144_me.Prelude.{
  ℕ, ◌+◌, ◌^◌, ◌<◌, ◌≡◌, refl, ap, ◌∙◌, Option, none, some, List, [], ◌∷◌, ◌++◌, ltb, leb,
  if◌then◌else◌, arith, Bool-cases, Option-cases, inl, inr, leb_false→lt,
}
use cs144_me.Prelude.Word.{add_size}
use cs144_me.Interface.Cache.{
  Unique, Agree, ticks, sum, ticks_gone, insert-Unique, lookup-age, age-Unique,
}
use cs144_me.Prelude.Result.{ok}
use cs144_me.Prelude.Assoc.{lookup, insert, erase, lookup-insert, lookup-erase}
use cs144_me.Header.Ethernet.{EthernetFrame, ethernet_broadcast, type_ipv4, type_arp}
use cs144_me.Header.Ipv4.{Ipv4Datagram, serialize_datagram}
use cs144_me.Header.Arp
use cs144_me.Header.Arp.{ArpMessage, opcode_request, opcode_reply}
use cs144_me.Interface.{
  NetworkInterface, send_to, send_by_cache, request_address, request_for, send_datagram, frame_to,
  recv_arp, learn, tick, request_timeout, send_waiting, send_all, reply_if_asked, push_frame,
}

-- The broadcast frame that asks for the address of an IP.
abbrev pub request_frame : NetworkInterface → ℕ → EthernetFrame
request_frame n ip = frame_to n ethernet_broadcast type_arp (Arp.bytes_of (request_for n ip))

-- The state after the request, with the datagram waiting.
abbrev pub asked : NetworkInterface → Ipv4Datagram → ℕ → NetworkInterface
asked n d ip =
    push_frame
      (record n {
        since_last_sent = insert ip 0 n.since_last_sent;
        datagrams = insert ip (d ∷ []) n.datagrams;
      })
      (request_frame n ip)

module _ (n : NetworkInterface) (d : Ipv4Datagram) (ip : ℕ)
    (unknown : lookup ip n.cache ≡ none) where
  pub ask_lem :
      lookup ip n.since_last_sent ≡ none
      → lookup ip n.datagrams ≡ none
      → send_datagram n d ip ≡ ok (asked n d ip)
  unfolding send_datagram send_by_cache request_address Arp.serialize Arp.supported
  ask_lem e f = rw (unknown, e, f) refl

-- The state after a request that is sent again, with another datagram in front of the waiting one.
abbrev pub asked_again : NetworkInterface → Ipv4Datagram → Ipv4Datagram → ℕ → NetworkInterface
asked_again n d' d ip =
    push_frame
      (record n {
        since_last_sent = insert ip 0 n.since_last_sent;
        datagrams = insert ip (d' ∷ d ∷ []) n.datagrams;
      })
      (request_frame n ip)

-- What is left of the time since a request, after a time.
abbrev pending : ℕ → Option ℕ
pending waited = if ltb waited request_timeout then some waited else none

ask_again_lem :
    (n : NetworkInterface) (d d' : Ipv4Datagram) (ip waited : ℕ)
    → lookup ip n.cache ≡ none
    → lookup ip n.since_last_sent ≡ pending waited
    → lookup ip n.datagrams ≡ some (d ∷ [])
    → send_datagram n d' ip ≡ ok (if ltb waited request_timeout then n else asked_again n d' d ip)
unfolding send_datagram send_by_cache request_address Arp.serialize Arp.supported
ask_again_lem n d d' ip waited u e f = elim (Bool-cases (ltb waited request_timeout)) [
  | inl k ↦ rw (u, e, k) (ground (arith, k))
  | inr k ↦ rw (u, e, f, k) refl
]

ticks-gone_since :
    (n : NetworkInterface) (ip : ℕ) (times : List ℕ)
    → Unique n.since_last_sent
    → lookup ip n.since_last_sent ≡ none
    → lookup ip (ticks n times).since_last_sent ≡ none
unfolding ticks tick
ticks-gone_since n ip [] u e = e
ticks-gone_since n ip (ms ∷ times) u e =
    ticks-gone_since (tick n ms) ip times (age-Unique request_timeout ms n.since_last_sent u)
      (lookup-age ip request_timeout ms n.since_last_sent u ∙ rw e refl)

ticks-pending :
    (n : NetworkInterface) (ip t : ℕ) (times : List ℕ)
    → Unique n.since_last_sent
    → lookup ip n.since_last_sent ≡ some t
    → t < request_timeout
    → t + sum times < 2 ^ 64
    → lookup ip (ticks n times).since_last_sent ≡ pending (t + sum times)
unfolding ticks tick
ticks-pending n ip t [] u e k w = e ∙ ground arith
ticks-pending n ip t (ms ∷ times) u e k w =
    let u1 = age-Unique request_timeout ms n.since_last_sent u in
    let e1 = lookup-age ip request_timeout ms n.since_last_sent u in
    let same : add_size t ms ≡ t + ms = omega arith in
    elim (Bool-cases (leb request_timeout (t + ms))) [
      | inl late ↦
          ticks-gone_since (tick n ms) ip times u1 (e1 ∙ rw (e, same, late) refl)
          ∙ ground (arith, late)
      | inr early ↦
          ticks-pending (tick n ms) ip (t + ms) times u1 (e1 ∙ rw (e, same, early) refl)
            (leb_false→lt _ _ early) (omega arith)
          ∙ ap pending (omega arith)
    ]

-- What ticks leave as it is.
record Same (n n' : NetworkInterface) : Type 0 where
  frames : n'.frames_out ≡ n.frames_out
  waiting : n'.datagrams ≡ n.datagrams
  ethernet : n'.ethernet_address ≡ n.ethernet_address

ticks-Same : (n : NetworkInterface) (times : List ℕ) → Same n (ticks n times)
unfolding ticks tick
ticks-Same n [] = record { frames = refl; waiting = refl; ethernet = refl }
ticks-Same n (ms ∷ times) =
    let s = ticks-Same (tick n ms) times in
    record { frames = s.frames; waiting = s.waiting; ethernet = s.ethernet }

-- An address that is not cached has no time.
untimed :
    (n : NetworkInterface) (ip : ℕ)
    → Agree n
    → lookup ip n.cache ≡ none
    → lookup ip n.cache_time ≡ none
untimed n ip v u = elim (Option-cases (lookup ip n.cache_time)) [
  | inl e ↦ e
  | inr (t, e) ↦ absurd (ground (arith, v.same ip, u, e))
]

-- An answer for which one datagram waits sends it.
pub answer_lem :
    (n : NetworkInterface) (am : ArpMessage) (d : Ipv4Datagram) (bytes : List ℕ)
    → lookup am.sender_ip_address n.datagrams ≡ some (d ∷ [])
    → serialize_datagram d ≡ ok bytes
    → am.opcode ≡ opcode_reply
    → recv_arp n am
      ≡ ok
          (record (push_frame
            (learn n am)
            (frame_to n am.sender_ethernet_address type_ipv4 bytes)) {
              datagrams = erase am.sender_ip_address n.datagrams;
            })
unfolding recv_arp send_waiting send_all send_to reply_if_asked learn
answer_lem n am d bytes w s o = rw (w, s, o) refl

-- Take a datagram to an address that is not in the cache, with no request and no datagram pending, on
-- an interface whose cache has a time for each address and whose keys are distinct. send_datagram
-- broadcasts one ARP request and nothing else. After any ticks (their sum below 2 ^ 64), sending any
-- datagram to that address changes nothing if they make less than five seconds together; else it
-- broadcasts the request again, and the datagram waits in front of the first. If nothing is sent
-- there after those ticks, an ARP reply from that address then sends the first datagram, in one frame
-- to the address learnt, and leaves none waiting.
pub resolve :
    (n : NetworkInterface) (d d' : Ipv4Datagram) (ip : ℕ) (bytes : List ℕ) (am : ArpMessage)
    (times : List ℕ)
    → Agree n
    → Unique n.since_last_sent
    → lookup ip n.cache ≡ none
    → lookup ip n.since_last_sent ≡ none
    → lookup ip n.datagrams ≡ none
    → serialize_datagram d ≡ ok bytes
    → am.sender_ip_address ≡ ip
    → am.opcode ≡ opcode_reply
    → sum times < 2 ^ 64
    → (n1 : NetworkInterface) × (n2 : NetworkInterface) × (send_datagram n d ip ≡ ok n1)
      × (n1.frames_out ≡ n.frames_out ++ (request_frame n ip ∷ []))
      × (send_datagram (ticks n1 times) d' ip
          ≡ ok (
              if ltb (sum times) request_timeout
              then ticks n1 times
              else asked_again (ticks n1 times) d' d ip))
      × (recv_arp (ticks n1 times) am ≡ ok n2)
      × (n2.frames_out
          ≡ n1.frames_out ++ (frame_to n am.sender_ethernet_address type_ipv4 bytes ∷ []))
      × (lookup ip n2.cache ≡ some am.sender_ethernet_address)
      × (lookup ip n2.datagrams ≡ none)
unfolding learn
resolve n d d' ip bytes am times agree unique u e f s i o w =
    let n1 : NetworkInterface = asked n d ip in
    let m : NetworkInterface = ticks n1 times in
    let kept = ticks-Same n1 times in
    let wait : lookup ip m.datagrams ≡ some (d ∷ []) =
      ap (lookup ip) kept.waiting ∙ lookup-insert ip ip (d ∷ []) n.datagrams ∙ ground arith in
    let known : lookup ip m.cache ≡ none =
      ticks_gone n1 ip times (agree.unique, untimed n ip agree u, u) in
    let asked_at : lookup ip n1.since_last_sent ≡ some 0 =
      lookup-insert ip ip 0 n.since_last_sent ∙ ground arith in
    let since =
      ticks-pending n1 ip 0 times (insert-Unique ip 0 n.since_last_sent unique) asked_at
        (omega arith) (omega arith) in
    let zero_first : 0 + sum times ≡ sum times = omega arith in
    (
      n1,
      record (push_frame (learn m am) (frame_to m am.sender_ethernet_address type_ipv4 bytes)) {
        datagrams = erase am.sender_ip_address m.datagrams;
      },
      ask_lem n d ip u e f,
      refl,
      ask_again_lem m d d' ip (sum times) known (since ∙ ap pending zero_first) wait,
      answer_lem m am d bytes (rw i wait) s o,
      rw (kept.frames, kept.ethernet) refl,
      ground (arith, i, lookup-insert am.sender_ip_address ip am.sender_ethernet_address m.cache),
      ground (arith, i, lookup-erase am.sender_ip_address ip m.datagrams),
    )
