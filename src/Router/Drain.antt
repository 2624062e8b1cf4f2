-- ===== src/Router/Drain.antt =====
-- route of libsponge/router.cc: the loop over the interfaces.
use cs144_me.Prelude.{
  ℕ, zero, suc, ◌+◌, ◌≤◌, ◌<◌, ◌≡◌, refl, ap, sym, ◌∙◌, List, [], ◌∷◌, ◌++◌, length, get_elem?, ltb,
  ◌==◌, some, inl, inr, arith, Bool-cases, ltb→lt,
}
use cs144_me.Prelude.Result.{if-both, ok}
use cs144_me.Header.Ipv4.{Ipv4Datagram}
use cs144_me.Interface.{NetworkInterface}
use cs144_me.Router.{AsyncNetworkInterface, Router, queue_of, clear_queue, route_from, route}
use cs144_me.Router.Queues.{AllSound, length-clear_queue, queue-clear_queue, queue_outside}
use cs144_me.Router.Forward.{
  at, IsRouted, Moves, Moves-trans, for_interface, send_each, interface_of, some_same,
  route_queue_lem,
}

-- All the datagrams that wait in the queues, those of the first interface first.
abbrev pub all_queued : List AsyncNetworkInterface → List Ipv4Datagram
all_queued [] = []
all_queued (a ∷ xs) = a.datagrams_out ++ all_queued xs

-- Those of k interfaces, from index i on.
abbrev queued_from : ℕ → ℕ → List AsyncNetworkInterface → List Ipv4Datagram
queued_from zero i xs = []
queued_from (suc k) i xs = queue_of (get_elem? xs i) ++ queued_from k (i + 1) xs

queued_from_next :
    (k i : ℕ) (a : AsyncNetworkInterface) (xs : List AsyncNetworkInterface)
    → queued_from k (suc i) (a ∷ xs) ≡ queued_from k i xs
queued_from_next zero i a xs = refl
queued_from_next (suc k) i a xs =
    let next : suc i + 1 ≡ suc (i + 1) = omega arith in
    ap (λ l. queue_of (get_elem? xs i) ++ l)
      (ap (λ n. queued_from k n (a ∷ xs)) next ∙ queued_from_next k (i + 1) a xs)

all_queued_lem : (xs : List AsyncNetworkInterface) → queued_from (length xs) 0 xs ≡ all_queued xs
all_queued_lem [] = refl
all_queued_lem (a ∷ xs) =
    ap (λ l. a.datagrams_out ++ l) (queued_from_next (length xs) 0 a xs ∙ all_queued_lem xs)

queued_from_same :
    (k i : ℕ) (xs ys : List AsyncNetworkInterface)
    → ((j : ℕ) → i ≤ j → queue_of (get_elem? ys j) ≡ queue_of (get_elem? xs j))
    → queued_from k i ys ≡ queued_from k i xs
queued_from_same zero i xs ys h = refl
queued_from_same (suc k) i xs ys h =
    rw (h i (omega arith), queued_from_same k (i + 1) xs ys (λ j l. h j (omega arith))) refl

interface-clear_queue :
    (xs : List AsyncNetworkInterface) (i j : ℕ)
    → interface_of (get_elem? (clear_queue xs i) j) ≡ interface_of (get_elem? xs j)
interface-clear_queue [] i j = refl
interface-clear_queue (x ∷ xs) zero zero = refl
interface-clear_queue (x ∷ xs) zero (suc j) = refl
interface-clear_queue (x ∷ xs) (suc i) zero = refl
interface-clear_queue (x ∷ xs) (suc i) (suc j) = interface-clear_queue xs i j

drained-Moves :
    (r : Router) (ds : List Ipv4Datagram) (xs ys : List AsyncNetworkInterface) (i : ℕ)
    → Moves r ds xs ys
    → Moves r ds xs (clear_queue ys i)
drained-Moves r ds xs ys i p j n h =
    let (n', e, f) = p j n h in (n', e, interface-clear_queue ys i j ∙ f)

drained-AllSound :
    (xs : List AsyncNetworkInterface) (i : ℕ)
    → ((j : ℕ) → AllSound (queue_of (get_elem? xs j)))
    → (j : ℕ) → AllSound (queue_of (get_elem? (clear_queue xs i) j))
drained-AllSound xs i s j =
    rw (queue-clear_queue xs i j)
      (if-both AllSound (i == j) [] (queue_of (get_elem? xs j)) tt (s j))

drained-empty :
    (xs : List AsyncNetworkInterface) (i : ℕ)
    → ((j : ℕ) → j < i → queue_of (get_elem? xs j) ≡ [])
    → (j : ℕ) → j < i + 1
    → queue_of (get_elem? (clear_queue xs i) j) ≡ []
drained-empty xs i h j k =
    rw (queue-clear_queue xs i j)
      (elim (Bool-cases (i == j)) [ inl e ↦ rw e refl | inr e ↦ rw e (h j (ground (arith, e))) ])

drained_later :
    (xs : List AsyncNetworkInterface) (i j : ℕ)
    → i + 1 ≤ j
    → queue_of (get_elem? (clear_queue xs i) j) ≡ queue_of (get_elem? xs j)
drained_later xs i j h = queue-clear_queue xs i j ∙ ground arith

route_from_lem :
    (r : Router) (k i : ℕ) (xs : List AsyncNetworkInterface)
    → IsRouted r (length xs)
    → ((j : ℕ) → AllSound (queue_of (get_elem? xs j)))
    → k + i ≡ length xs
    → ((j : ℕ) → j < i → queue_of (get_elem? xs j) ≡ [])
    → (ys : List AsyncNetworkInterface) × (route_from k i (at r xs) ≡ ok (at r ys))
      × (length ys ≡ length xs)
      × ((j : ℕ) → queue_of (get_elem? ys j) ≡ [])
      × Moves r (queued_from k i xs) xs ys
unfolding route_from
route_from_lem r zero i xs h s n e = (
  xs,
  refl,
  refl,
  λ j. elim (Bool-cases (ltb j i)) [
    | inl l ↦ e j (ltb→lt _ _ l)
    | inr l ↦ queue_outside xs j (ground (arith, l, n))
  ],
  λ j m g. (m, refl, g),
)
route_from_lem r (suc k) i xs h s n e =
    let (ys, f, p) = route_queue_lem r xs (queue_of (get_elem? xs i)) h (s i) in
    let size : length (clear_queue ys i) ≡ length xs = length-clear_queue ys i ∙ p.size in
    let (zs, g, q, empty, moves) =
      route_from_lem r k (i + 1) (clear_queue ys i) (λ prefix. omega (arith, h prefix, size))
        (drained-AllSound ys i (λ j. rw (p.queues j) (s j))) (omega (arith, n, size))
        (drained-empty ys i (λ j l. p.queues j ∙ e j l)) in
    let later =
      queued_from_same k (i + 1) xs (clear_queue ys i)
        (λ j l. drained_later ys i j l ∙ p.queues j) in
    (
      zs,
      rw (f, g) refl,
      q ∙ size,
      empty,
      rw (← later) (
          Moves-trans r (queue_of (get_elem? xs i)) (queued_from k (i + 1) (clear_queue ys i)) xs
            (clear_queue ys i) zs (drained-Moves r (queue_of (get_elem? xs i)) xs ys i p.moves)
            moves),
    )

-- Each interface, from index j on, has sent what it is to send of the datagrams, and its queue is
-- empty.
abbrev pub AllDrained :
    Router
    → List Ipv4Datagram
    → ℕ
    → List AsyncNetworkInterface
    → List AsyncNetworkInterface
    → Type 0
AllDrained r ds j [] [] = Unit
AllDrained r ds j (a ∷ xs) (b ∷ ys) =
    (send_each a.interface (for_interface r j ds) ≡ ok b.interface)
    × (b.datagrams_out ≡ [])
    × AllDrained r ds (j + 1) xs ys
AllDrained r ds j _ _ = ⊥

drained-AllDrained :
    (r : Router) (ds : List Ipv4Datagram) (j : ℕ) (xs ys : List AsyncNetworkInterface)
    → length ys ≡ length xs
    → ((i : ℕ) → queue_of (get_elem? ys i) ≡ [])
    → ((i : ℕ) (n : NetworkInterface)
        → interface_of (get_elem? xs i) ≡ some n
        → (n' : NetworkInterface) × (send_each n (for_interface r (i + j) ds) ≡ ok n')
          × (interface_of (get_elem? ys i) ≡ some n'))
    → AllDrained r ds j xs ys
drained-AllDrained r ds j [] [] l e m = tt
drained-AllDrained r ds j [] (b ∷ ys) l e m = omega (arith, l)
drained-AllDrained r ds j (a ∷ xs) [] l e m = omega (arith, l)
drained-AllDrained r ds j (a ∷ xs) (b ∷ ys) l e m =
    let (n, f, g) = m 0 a.interface refl in
    let start : 0 + j ≡ j = omega arith in
    (
      ap (λ i. send_each a.interface (for_interface r i ds)) (sym start)
          ∙ f
          ∙ ap ok (sym (some_same g)),
      e 0,
      drained-AllDrained r ds (j + 1) xs ys (omega (arith, l)) (λ i. e (suc i))
          (λ i n' h.
            let next : suc i + j ≡ i + (j + 1) = omega arith in rw (← next) (m (suc i) n' h)),
    )

-- A router whose routes name interfaces that exist, and whose queues hold datagrams of version 4,
-- with a header of five words or more and a payload of the length that the header gives. route throws
-- nothing, whatever the addresses and the times to live. Each interface has then sent, in the order of
-- the interfaces and their queues, all the queued datagrams whose route leads to it and that have more
-- than one hop to live, each with one hop less to live and to the next hop of its route, and no other;
-- every queue is empty, and the routes and the number of interfaces are as they were.
pub route_lem :
    (r : Router)
    → IsRouted r (length r.interfaces)
    → ((j : ℕ) → AllSound (queue_of (get_elem? r.interfaces j)))
    → (r' : Router) × (route r ≡ ok r')
      × AllDrained r (all_queued r.interfaces) 0 r.interfaces r'.interfaces
      × (r'.len_map ≡ r.len_map)
      × (r'.gw_map ≡ r.gw_map)
      × (r'.itf_map ≡ r.itf_map)
unfolding route
route_lem r h s =
    let (ys, e, size, empty, moves) =
      route_from_lem r (length r.interfaces) 0 r.interfaces h s (omega arith)
        (λ j l. absurd (omega arith)) in
    let sent : Moves r (all_queued r.interfaces) r.interfaces ys =
      rw (← all_queued_lem r.interfaces) moves in
    let plain : (i : ℕ) → i + 0 ≡ i = λ i. omega arith in
    (
      at r ys,
      e,
      drained-AllDrained r (all_queued r.interfaces) 0 r.interfaces ys size empty
          (λ i n g. rw (plain i) (sent i n g)),
      refl,
      refl,
      refl,
    )
