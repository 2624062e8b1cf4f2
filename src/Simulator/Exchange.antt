-- ===== src/Simulator/Exchange.antt =====
-- A datagram over a cable of apps/network_simulator.cc, between two interfaces of
-- libsponge/network_interface.cc that do not know one another's Ethernet addresses.
use cs144_me.Prelude.{
  ℕ, ◌^◌, ◌<◌, ◌≡◌, refl, ap, sym, ◌∙◌, true, ◌||◌, Option, none, some, List, [], ◌∷◌, ◌++◌, length,
  ◌==◌, arith,
}
use cs144_me.Prelude.Result.{Result, ok, ◌>>=◌}
use cs144_me.Prelude.Assoc.{lookup, erase, lookup-insert, lookup-erase}
use cs144_me.Parser.{ParseResult}
use cs144_me.Header.Ethernet.{EthernetFrame, ethernet_broadcast, type_ipv4, type_arp}
use cs144_me.Header.Ethernet.Trip.{IsAddress}
use cs144_me.Header.Ipv4.{Ipv4Datagram, empty_datagram, serialize_datagram, parse_datagram}
use cs144_me.Header.Ipv4.Trip as Ipv4
use cs144_me.Header.Ipv4.Trip.{checksum_of, parse_datagram-serialize}
use cs144_me.Header.Arp
use cs144_me.Header.Arp.{ArpMessage, empty_message}
use cs144_me.Header.Arp.Trip.{IsWord, parse-serialize_message}
use cs144_me.Interface.{
  NetworkInterface, same_address, push_frame, frame_to, request_for, reply_to, learn, recv_arp,
  send_datagram, if_parsed, send_waiting, reply_if_asked, recv_payload,
}
use cs144_me.Interface
use cs144_me.Interface.Resolve.{asked, request_frame, ask_lem, answer_lem}
use cs144_me.Adapter.Frames.{same_address_refl, or_true, recv_own}
use cs144_me.Router.{AsyncNetworkInterface, recv_frame, queued}
use cs144_me.Simulator.{exchange_frames, deliver, clear, cleared}

-- An interface whose addresses fit their fields.
pub record IsPlugged (n : NetworkInterface) : Type 0 where
  pub ethernet : IsAddress n.ethernet_address
  pub ip : n.ip_address < 2 ^ 32
  pub idle : n.frames_out ≡ []

==_refl : (a : ℕ) → (a == a) ≡ true
==_refl a = ground arith

parse_bytes :
    (a : ArpMessage)
    → Arp.supported a ≡ true
    → IsWord a
    → Arp.parse empty_message (Arp.bytes_of a) ≡ (a, ParseResult.no_error)
unfolding Arp.serialize
parse_bytes a s v =
    let (bytes, e, r) = parse-serialize_message empty_message a s v in rw (ok_inj (rw s at e)) r
  where
    ok_inj : {x y : List ℕ} → ok x ≡ ok y → x ≡ y
    ok_inj h = cc

-- An ARP message in a frame for the interface.
recv_message :
    (n : NetworkInterface) (f : EthernetFrame) (a : ArpMessage)
    → (same_address f.header.dst ethernet_broadcast || same_address f.header.dst n.ethernet_address)
      ≡ true
    → f.header.type ≡ type_arp
    → f.payload ≡ Arp.bytes_of a
    → Arp.supported a ≡ true
    → IsWord a
    → Interface.recv_frame n f ≡ (recv_arp n a >>= λ n'. ok (none, n'))
unfolding Interface.recv_frame recv_payload
recv_message n f a d t e s v = rw (d, t, e, parse_bytes a s v) refl

-- The frame that answers the request of n for m.
abbrev reply_frame : NetworkInterface → NetworkInterface → EthernetFrame
reply_frame n m =
    frame_to m n.ethernet_address type_arp (Arp.bytes_of (reply_to m (request_for n m.ip_address)))

-- m, once it has answered the request of n.
abbrev answered : NetworkInterface → NetworkInterface → NetworkInterface
answered n m = push_frame (learn m (request_for n m.ip_address)) (reply_frame n m)

-- n, while the datagram waits for m.
abbrev waits : NetworkInterface → NetworkInterface → Ipv4Datagram → NetworkInterface
waits n m d = record (asked n d m.ip_address) { frames_out = [] }

-- n, once it has sent the datagram to m.
abbrev sends : NetworkInterface → NetworkInterface → Ipv4Datagram → List ℕ → NetworkInterface
sends n m d bytes =
    let n' : NetworkInterface = learn (waits n m d) (reply_to m (request_for n m.ip_address)) in
    record (push_frame n' (frame_to n m.ethernet_address type_ipv4 bytes)) {
      datagrams = erase m.ip_address (waits n m d).datagrams;
    }

module _ {n m : NetworkInterface} (p : IsPlugged n) (q : IsPlugged m) where
  request-IsWord : IsWord (request_for n m.ip_address)
  request-IsWord = record {
    sender_ethernet = p.ethernet;
    target_ethernet = omega arith;
    sender_ip = p.ip;
    target_ip = q.ip;
  }

  reply-IsWord : IsWord (reply_to m (request_for n m.ip_address))
  reply-IsWord = record {
    sender_ethernet = q.ethernet;
    target_ethernet = p.ethernet;
    sender_ip = q.ip;
    target_ip = p.ip;
  }

  -- The request is answered.
  request_lem :
      lookup n.ip_address m.datagrams ≡ none
      → Interface.recv_frame m (request_frame n m.ip_address) ≡ ok (none, answered n m)
  unfolding recv_arp send_waiting reply_if_asked learn Arp.supported Arp.serialize same_address
  request_lem no_wait =
      recv_message m (request_frame n m.ip_address) (request_for n m.ip_address) refl refl refl refl
        request-IsWord
      ∙ rw (no_wait, ==_refl m.ip_address) refl

  -- The answer is taken.
  reply_lem :
      (d : Ipv4Datagram) (bytes : List ℕ)
      → serialize_datagram d ≡ ok bytes
      → Interface.recv_frame (waits n m d) (reply_frame n m) ≡ ok (none, sends n m d bytes)
  unfolding Arp.supported learn
  reply_lem d bytes e =
      recv_message (waits n m d) (reply_frame n m) (reply_to m (request_for n m.ip_address))
        (rw (same_address_refl n.ethernet_address, or_true _) refl) refl refl refl reply-IsWord
      ∙ ap (λ r. r >>= λ n'. ok (none, n'))
          (answer_lem (waits n m d) (reply_to m (request_for n m.ip_address)) d bytes
            (lookup-insert m.ip_address m.ip_address (d ∷ []) n.datagrams
              ∙ rw (==_refl m.ip_address) refl)
            e refl)

  -- The datagram is taken.
  data_lem :
      (m1 : NetworkInterface) (bytes : List ℕ) (d : Ipv4Datagram)
      → m1.ethernet_address ≡ m.ethernet_address
      → parse_datagram empty_datagram bytes ≡ (d, ParseResult.no_error)
      → Interface.recv_frame m1 (frame_to n m.ethernet_address type_ipv4 bytes) ≡ ok (some d, m1)
  data_lem m1 bytes d same r =
      recv_own m1 (frame_to n m.ethernet_address type_ipv4 bytes) (sym same) refl ∙ rw r refl

-- Three rounds over the cable.
abbrev pub exchange_3_times :
    AsyncNetworkInterface
    → AsyncNetworkInterface
    → Result (AsyncNetworkInterface × AsyncNetworkInterface)
exchange_3_times x y = do
  (x1, y1) ← exchange_frames x y
  (x2, y2) ← exchange_frames x1 y1
  exchange_frames x2 y2

-- After a datagram went from x to y over a cable.
pub record IsDelivered (d : Ipv4Datagram) (x y x' y' : AsyncNetworkInterface) : Type 0 where
  pub arrived : y'.datagrams_out ≡ y.datagrams_out ++ (d ∷ [])
  pub sent : x'.datagrams_out ≡ x.datagrams_out
  pub x_knows : lookup y.interface.ip_address x'.interface.cache ≡ some y.interface.ethernet_address
  pub y_knows : lookup x.interface.ip_address y'.interface.cache ≡ some x.interface.ethernet_address
  pub x_idle : x'.interface.frames_out ≡ []
  pub y_idle : y'.interface.frames_out ≡ []
  pub none_waits : lookup y.interface.ip_address x'.interface.datagrams ≡ none

-- One round, from what each end has sent and what comes of it.
exchange_lem :
    (x y : AsyncNetworkInterface) (fs gs : List EthernetFrame) (x' y' : AsyncNetworkInterface)
    → x.interface.frames_out ≡ fs
    → y.interface.frames_out ≡ gs
    → deliver fs y ≡ ok y'
    → deliver gs x ≡ ok x'
    → exchange_frames x y ≡ ok (cleared fs x', cleared gs y')
unfolding exchange_frames
exchange_lem x y fs gs x' y' e f h k =
    ap (λ l. both l y.interface.frames_out) e ∙ ap (λ l. both fs l) f ∙ rw (h, k) refl
  where
    both :
        List EthernetFrame
        → List EthernetFrame
        → Result (AsyncNetworkInterface × AsyncNetworkInterface)
    both xs ys = do b ← deliver xs y; a ← deliver ys x; ok (cleared xs a, cleared ys b)

-- One frame that is delivered.
deliver_one :
    (f : EthernetFrame) (a : AsyncNetworkInterface) (d : Option Ipv4Datagram) (n : NetworkInterface)
    → Interface.recv_frame a.interface f ≡ ok (d, n)
    → deliver (f ∷ []) a ≡ ok (record { interface = n; datagrams_out = queued a.datagrams_out d })
unfolding deliver recv_frame
deliver_one f a d n e = rw e refl

module _ (x y : AsyncNetworkInterface) (d d' : Ipv4Datagram) (bytes : List ℕ)
    (p : IsPlugged x.interface) (q : IsPlugged y.interface) (e : serialize_datagram d ≡ ok bytes)
    (r : parse_datagram empty_datagram bytes ≡ (d', ParseResult.no_error)) where
  first :
      lookup x.interface.ip_address y.interface.datagrams ≡ none
      → exchange_frames (record x { interface = asked x.interface d y.interface.ip_address }) y
        ≡ ok (
          record x { interface = waits x.interface y.interface d },
          record y { interface = answered x.interface y.interface },
        )
  unfolding deliver clear
  first no_wait =
      exchange_lem _ y (request_frame x.interface y.interface.ip_address ∷ []) [] _ _
        (rw p.idle refl) q.idle
        (deliver_one _ y none (answered x.interface y.interface) (request_lem p q no_wait)) refl
      ∙ rw p.idle refl

  second :
      exchange_frames
        (record x { interface = waits x.interface y.interface d })
        (record y { interface = answered x.interface y.interface })
      ≡ ok (
        record x { interface = sends x.interface y.interface d bytes },
        record y { interface = record (answered x.interface y.interface) { frames_out = [] } },
      )
  unfolding deliver clear learn
  second =
      exchange_lem _ _ [] (reply_frame x.interface y.interface ∷ []) _ _ refl (rw q.idle refl) refl
        (deliver_one _ _ none (sends x.interface y.interface d bytes) (reply_lem p q d bytes e))
      ∙ rw q.idle refl

  third :
      exchange_frames
        (record x { interface = sends x.interface y.interface d bytes })
        (record y { interface = record (answered x.interface y.interface) { frames_out = [] } })
      ≡ ok (
        record x { interface = record (sends x.interface y.interface d bytes) { frames_out = [] } },
        record {
          interface = record (answered x.interface y.interface) { frames_out = [] };
          datagrams_out = y.datagrams_out ++ (d' ∷ []);
        },
      )
  unfolding deliver clear learn
  third =
      exchange_lem _ _ (frame_to x.interface y.interface.ethernet_address type_ipv4 bytes ∷ []) [] _
        _ refl refl
        (deliver_one _ _ (some d') (record (answered x.interface y.interface) { frames_out = [] })
          (data_lem p q _ bytes d' refl r))
        refl

  delivered :
      lookup x.interface.ip_address y.interface.datagrams ≡ none
      → exchange_3_times (record x { interface = asked x.interface d y.interface.ip_address }) y
        ≡ ok (
          record x {
            interface = record (sends x.interface y.interface d bytes) { frames_out = [] };
          },
          record {
            interface = record (answered x.interface y.interface) { frames_out = [] };
            datagrams_out = y.datagrams_out ++ (d' ∷ []);
          },
        )
  delivered no_wait = rw (first no_wait, second) third

-- Take two interfaces with addresses that fit and no frame to send, the first of which has nothing
-- cached, asked or waiting for the second's IP address, and the second nothing waiting for the
-- first's, and a datagram with fields that fit. The first sends the datagram to the second's address.
-- After three rounds over a cable between them, the second has received the datagram, with its
-- checksum filled in, and the first nothing; each knows the other's Ethernet address; no frame is
-- left to send, and no datagram waits for the second's address.
pub exchange-IsDelivered :
    (x y : AsyncNetworkInterface) (d : Ipv4Datagram)
    → IsPlugged x.interface
    → IsPlugged y.interface
    → Ipv4.IsWord d.header (length d.payload)
    → lookup y.interface.ip_address x.interface.cache ≡ none
    → lookup y.interface.ip_address x.interface.since_last_sent ≡ none
    → lookup y.interface.ip_address x.interface.datagrams ≡ none
    → lookup x.interface.ip_address y.interface.datagrams ≡ none
    → (n : NetworkInterface) × (x' : AsyncNetworkInterface) × (y' : AsyncNetworkInterface)
      × (send_datagram x.interface d y.interface.ip_address ≡ ok n)
      × (exchange_3_times (record x { interface = n }) y ≡ ok (x', y'))
      × IsDelivered
          (record d { header = record (d.header) { cksum = checksum_of d.header } })
          x
          y
          x'
          y'
unfolding learn
exchange-IsDelivered x y d p q v u a w no_wait =
    let (bytes, e, r, _) = parse_datagram-serialize empty_datagram d v in
    (
      _,
      _,
      _,
      ask_lem x.interface d y.interface.ip_address u a w,
      delivered x y d (record d { header = record (d.header) { cksum = checksum_of d.header } })
          bytes p q e r no_wait,
      record {
        arrived = refl;
        sent = refl;
        x_knows =
            lookup-insert y.interface.ip_address y.interface.ip_address y.interface.ethernet_address
              x.interface.cache
            ∙ rw (==_refl y.interface.ip_address) refl;
        y_knows =
            lookup-insert x.interface.ip_address x.interface.ip_address x.interface.ethernet_address
              y.interface.cache
            ∙ rw (==_refl x.interface.ip_address) refl;
        x_idle = refl;
        y_idle = refl;
        none_waits =
            lookup-erase y.interface.ip_address y.interface.ip_address _
            ∙ rw (==_refl y.interface.ip_address) refl;
      },
    )
